-- ===== src/Max/Commands.antt =====
-- internal/max/bot_runtime.go: maybeHandleAdminAliasCommandWithDLQ, the administrator's commands. The clock, the
-- random token, the disk writes, the relay calls and the report are the environment's. A reply is a
-- value with what its text quotes. A pending action keeps the administrator of the queue that it was
-- registered with. A chat id is the residue of an int64.
pub mod Dispatch
pub mod Steps
pub mod Resolved
use smtp_to_max_relay.Prelude.{
  ℕ, ◌*◌, Bool, true, false, not, ◌||◌, List, [], ◌∷◌, Option, none, some, if◌then◌else◌, ◌==◌,
  is_empty,
}
use smtp_to_max_relay.Prelude.Result.{Result, ok, err}
use smtp_to_max_relay.Prelude.Text.{Text, codes}
use smtp_to_max_relay.Prelude.Decimal.{parse_int, format_int, is_negative}
use smtp_to_max_relay.Prelude.Assoc.{Assoc}
use smtp_to_max_relay.Recipient.Address.{Parser}
use smtp_to_max_relay.Recipient.Aliases.{
  TargetError, validate_alias_target, set_alias_group, add_alias_targets, remove_alias_targets,
  delete_alias, snapshot_aliases,
}
use smtp_to_max_relay.Recipient.AliasFile.{AliasFile, save_aliases}
use smtp_to_max_relay.Dlq.Item.{Store}
use smtp_to_max_relay.Dlq.Worker.{Attempt}
use smtp_to_max_relay.Dlq.Admin.{Admin, ReplayReply, BatchReply, replay, replay_batch}
use smtp_to_max_relay.Dlq.Admin.Reports.{
  SummaryText, ListText, ShowText, DryText, summary, list_text, show, replay_dry,
}
use smtp_to_max_relay.Max.AdminConfirm.{ConfirmAction, register_confirm, consume_confirm}
use smtp_to_max_relay.Max.Help.{InfoReply}
use smtp_to_max_relay.Max.Targets.{
  TargetRefused, normalize_alias_name, normalize_alias_target, normalize_alias_targets_arg,
  build_aliases_list_reply,
}

pub data Command : Type 0 where
  dlq_cmd list_cmd show_cmd dry_cmd replay_cmd batch_cmd confirm_cmd : Command
  stats7d_cmd stats30d_cmd : Command
  alias_cmd group_cmd add_cmd remove_cmd unalias_cmd aliases_cmd : Command

-- What a token confirms.
pub data Action : Type 0 where
  replay_item : Admin → Text → Action
  replay_items : Admin → ℕ → Text → Action

-- What the commands read and change.
pub record World : Type 0 where
  pub parser : Parser
  pub alias_file : AliasFile
  pub store : Store
  pub confirms : Assoc (ConfirmAction Action)

-- The interfaces that are given, a nil one being `none` or `false`.
pub record Setup : Type 0 where
  pub bot_user_id : ℕ
  pub bot_username : Text
  pub allowed_domain : Text
  pub admin_chat_id : ℕ
  pub alias_admin : Bool
  pub stats_reporter : Bool
  pub dlq_admin : Option Admin

-- What comes from outside while a message is handled.
pub record Env : Type 0 where
  pub now : ℕ
  pub token : Text
  pub report : ℕ → Text
  pub attempt : Text → Attempt
  pub dry_run : Text → List ℕ → Result Text Text
  pub write : Option (Text × AliasFile)

pub data Reply : Type 0 where
  dlq_unavailable stats_unavailable aliases_unavailable confirm_not_found bad_alias_name : Reply
  usage : Command → Reply
  dlq_summary : SummaryText → Reply
  dlq_listed : ListText → Reply
  dlq_shown : ShowText → Reply
  dry_replayed : DryText → Reply
  confirm_needed : Text → Reply
  replayed : ReplayReply → Reply
  batch_replayed : BatchReply → Reply
  report_reply : Text → Reply
  target_refused : TargetRefused → Reply
  target_invalid : TargetError → Reply
  aliases_saved : Command → Text → List Text → Reply
  aliases_not_written : Command → Text → Reply
  aliases_listed : List (Text × List Text) → Reply
  info : InfoReply → Reply

-- Atoi, without the numbers that are refused for not being positive
unfoldable pub positive_int : Text → Option ℕ
positive_int s = elim (parse_int s) [
  | none ↦ none
  | some n ↦ if is_negative n || n == 0 then none else some n
]

unfoldable pub list_limit : List Text → Option ℕ
unfolding positive_int
list_limit (arg ∷ []) = positive_int arg
list_limit _ = some 10

with_mode : Text → Option ℕ → Option (ℕ × Text)
with_mode mode none = none
with_mode mode (some limit) = some (limit, mode)

unfoldable pub batch_args : List Text → Option (ℕ × Text)
unfolding with_mode
batch_args (limit ∷ []) = with_mode [] (positive_int limit)
batch_args (limit ∷ mode ∷ []) = with_mode mode (positive_int limit)
batch_args _ = none
