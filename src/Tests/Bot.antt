-- ===== src/Tests/Bot.antt =====
-- The bot of internal/max at concrete inputs.
use smtp_to_max_relay.Prelude.{
  ℕ, Bool, true, false, not, List, [], ◌∷◌, ◌++◌, Option, none, some, ◌≡◌, refl, arith, ◌⊎◌, inl,
  inr, ◌≤◌, ◌<◌, ◌+◌,
}
use smtp_to_max_relay.Prelude.Result.{ok, err}
use smtp_to_max_relay.Prelude.Text.{Text, codes}
use smtp_to_max_relay.Prelude.Assoc.{lookup}
use smtp_to_max_relay.Recipient.Address.{
  Parser, ParsedRecipient, RecipientTarget, parse, new_parser,
}
use smtp_to_max_relay.Recipient.AliasFile.{AliasFile, load_aliases, missing}
use smtp_to_max_relay.Max.Help.{build_chat_info_reply}
use smtp_to_max_relay.Max.BotSender.{ApiFailure, send_file_message, parse_chat_id}
use smtp_to_max_relay.Max.BotSender.Attempts.{send_file_message-Ran}
use smtp_to_max_relay.Max.Commands.{World, Setup, Env, Reply, alias_cmd, aliases_saved}
use smtp_to_max_relay.Max.Commands.Dispatch.{set_alias}
use smtp_to_max_relay.Max.Commands.Resolved.{set_alias-resolves}
use smtp_to_max_relay.Max.Runtime.{User, Message, handle_message, handle_messages}
use smtp_to_max_relay.Max.Runtime.Authority.{handle_messages_of_others, is_admin_message}
use smtp_to_max_relay.Max.Runtime.History.{handle_message-IsAskedFor, IsAskedFor}
use smtp_to_max_relay.Max.Runtime.Restart.{handle_messages-IsSaved, IsSaved}
use smtp_to_max_relay.Max.Runtime.Reach.{parse-told}

abbrev bot_setup : Setup
bot_setup = record {
  bot_user_id = 100;
  bot_username = codes "relay_bot";
  allowed_domain = codes "r.l";
  admin_chat_id = 7;
  alias_admin = true;
  stats_reporter = true;
  dlq_admin = some (record { max_retries = 3; base_delay = 1000; max_delay = 300000 });
}

abbrev quiet : Env
quiet = record {
  now = 50;
  token = codes "ab12";
  report = λ days. codes "none";
  attempt = λ id. record { outcome = none; now = 50; draw = 0; write = none };
  dry_run = λ rcpt raw. err (codes "none");
  write = none;
}

abbrev first_world : World
first_world = record {
  parser = record { allowed_domain = codes "r.l"; aliases = [] };
  alias_file = missing;
  store = record { items = []; disk = none };
  confirms = [];
}

abbrev says : ℕ → Text → Message
says chat text = record {
  sender = some (record { user_id = 5; is_bot = false });
  chat_id = chat;
  text = text;
}

abbrev a_replay : Message
a_replay = says 7 (codes "/replay ab")

abbrev asked_world : World
asked_world = (handle_message bot_setup quiet a_replay first_world).0

abbrev a_confirmation : Message
a_confirmation = says 7 (codes "/confirm ab12")

handle_message-IsAskedFor_example :
    let w = handle_messages bot_setup ((quiet, a_replay) ∷ []) first_world in
    let next = (handle_message bot_setup quiet a_confirmation w).0 in
    (next.store ≡ w.store)
    ⊎ ((is_admin_message bot_setup a_confirmation ≡ true)
        × IsAskedFor bot_setup ((quiet, a_replay) ∷ []) quiet a_confirmation w next)
handle_message-IsAskedFor_example =
    handle_message-IsAskedFor bot_setup ((quiet, a_replay) ∷ []) quiet a_confirmation first_world
      refl

abbrev outsiders : List (Env × Message)
outsiders = (quiet, says 8 (codes "/alias ops 12")) ∷ (quiet, says 8 (codes "/confirm ab12")) ∷ []

handle_messages_of_others_example : handle_messages bot_setup outsiders asked_world ≡ asked_world
unfolding is_admin_message
handle_messages_of_others_example = handle_messages_of_others bot_setup outsiders asked_world refl

abbrev alias_messages : List (Env × Message)
alias_messages =
    (quiet, says 7 (codes "/alias Ops 12"))
    ∷ (quiet, says 7 (codes "/alias_add ops -34.silent,12"))
    ∷ (quiet, says 7 (codes "/alias_remove ops 12"))
    ∷ []

handle_messages-IsSaved_example : IsSaved (handle_messages bot_setup alias_messages first_world)
unfolding load_aliases smtp_to_max_relay.Max.Runtime.Restart.writes_well
handle_messages-IsSaved_example =
    handle_messages-IsSaved bot_setup alias_messages first_world refl refl

-- What these messages lead to.
alias_messages-table :
    (handle_messages bot_setup alias_messages first_world).parser.aliases
    ≡ (codes "ops", codes "chatid-34.silent" ∷ []) ∷ []
unfolding handle_messages handle_message smtp_to_max_relay.Max.Runtime.reply_for_message_text
    smtp_to_max_relay.Max.Help.extract_command_parts smtp_to_max_relay.Prelude.Text.trim_right
    smtp_to_max_relay.Prelude.Text.trim_left smtp_to_max_relay.Prelude.Text.is_space
    smtp_to_max_relay.Prelude.Text.lower_rune smtp_to_max_relay.Prelude.Text.split_by
    smtp_to_max_relay.Prelude.Text.has_prefix smtp_to_max_relay.Prelude.Text.cut
    smtp_to_max_relay.Max.Help.command_targets_bot smtp_to_max_relay.Prelude.Text.text_eq
    smtp_to_max_relay.Max.Help.message_mentions_bot smtp_to_max_relay.Max.Help.contains_text
    smtp_to_max_relay.Max.Commands.Dispatch.maybe_handle_admin_command lookup
    smtp_to_max_relay.Max.Commands.Dispatch.run_command
    smtp_to_max_relay.Max.Targets.normalize_alias_name smtp_to_max_relay.Max.Targets.is_name_rune
    smtp_to_max_relay.Max.Targets.normalize_alias_targets_arg
    smtp_to_max_relay.Max.Targets.normalize_alias_target
    smtp_to_max_relay.Max.Targets.is_numeric_alias_target smtp_to_max_relay.Prelude.Text.has_suffix
    smtp_to_max_relay.Prelude.Text.is_digit smtp_to_max_relay.Prelude.Text.contains
    smtp_to_max_relay.Recipient.Aliases.remove_alias_targets
    smtp_to_max_relay.Recipient.Aliases.normalize_alias_targets
    smtp_to_max_relay.Recipient.Aliases.add_alias_targets smtp_to_max_relay.Recipient.Aliases.merge
    smtp_to_max_relay.Recipient.Aliases.validate_alias_target
    smtp_to_max_relay.Recipient.Address.parse_chat_id_base
    smtp_to_max_relay.Recipient.Address.parse_prefixed_chat_id
    smtp_to_max_relay.Recipient.Aliases.set_alias_group smtp_to_max_relay.Prelude.Assoc.insert
alias_messages-table = refl

-- /alias_group takes a target that no address can be made of.
alias_group_unchecked :
    (handle_messages bot_setup
      ((quiet, says 7 (codes "/alias_group ops chatidx,12")) ∷ [])
      first_world).parser.aliases
    ≡ (codes "ops", codes "chatidx" ∷ codes "chatid12" ∷ []) ∷ []
unfolding handle_messages handle_message smtp_to_max_relay.Max.Runtime.reply_for_message_text
    smtp_to_max_relay.Max.Help.extract_command_parts smtp_to_max_relay.Prelude.Text.trim_right
    smtp_to_max_relay.Prelude.Text.trim_left smtp_to_max_relay.Prelude.Text.is_space
    smtp_to_max_relay.Prelude.Text.lower_rune smtp_to_max_relay.Prelude.Text.split_by
    smtp_to_max_relay.Prelude.Text.has_prefix smtp_to_max_relay.Prelude.Text.cut
    smtp_to_max_relay.Max.Help.command_targets_bot smtp_to_max_relay.Prelude.Text.text_eq
    smtp_to_max_relay.Max.Help.message_mentions_bot smtp_to_max_relay.Max.Help.contains_text
    smtp_to_max_relay.Max.Commands.Dispatch.maybe_handle_admin_command lookup
    smtp_to_max_relay.Max.Commands.Dispatch.run_command
    smtp_to_max_relay.Max.Targets.normalize_alias_name smtp_to_max_relay.Max.Targets.is_name_rune
    smtp_to_max_relay.Max.Targets.normalize_alias_targets_arg
    smtp_to_max_relay.Max.Targets.normalize_alias_target
    smtp_to_max_relay.Max.Targets.is_numeric_alias_target smtp_to_max_relay.Prelude.Text.has_suffix
    smtp_to_max_relay.Prelude.Text.is_digit smtp_to_max_relay.Prelude.Text.contains
    smtp_to_max_relay.Recipient.Aliases.set_alias_group
    smtp_to_max_relay.Recipient.Aliases.normalize_alias_targets
    smtp_to_max_relay.Prelude.Assoc.insert
alias_group_unchecked = refl

parse-told_example :
    (r : ParsedRecipient) × (t : RecipientTarget) × (parse
        (new_parser (codes "r.l") [])
        (codes "chatid12.silent@r.l")
      ≡ ok r)
    × (r.targets ≡ t ∷ [])
    × (t.silent ≡ true)
    × (parse_chat_id t.chat_id ≡ ok 12)
unfolding lookup build_chat_info_reply smtp_to_max_relay.Recipient.Address.Written.is_local
    smtp_to_max_relay.Recipient.Address.Written.is_plain smtp_to_max_relay.Prelude.Text.lower_rune
    smtp_to_max_relay.Prelude.Text.is_space smtp_to_max_relay.Max.Help.chat_address_local_part
    smtp_to_max_relay.Prelude.Text.trim_right smtp_to_max_relay.Prelude.Text.trim_left
    smtp_to_max_relay.Prelude.Decimal.format_int smtp_to_max_relay.Prelude.Decimal.decimal
    smtp_to_max_relay.Prelude.Text.text_eq
parse-told_example = parse-told (codes "r.l") [] 12 true (omega arith) refl refl refl

set_alias-resolves_example :
    (r : ParsedRecipient) × (t : RecipientTarget) × (parse
        (set_alias quiet (codes "Ops" ∷ codes "12" ∷ []) first_world).0.parser
        (codes "ops@r.l")
      ≡ ok r)
    × (r.targets ≡ t ∷ [])
    × (r.alias_used ≡ true)
unfolding smtp_to_max_relay.Recipient.Address.Written.is_local
    smtp_to_max_relay.Recipient.Address.Written.is_plain smtp_to_max_relay.Prelude.Text.lower_rune
    smtp_to_max_relay.Prelude.Text.is_space set_alias
    smtp_to_max_relay.Max.Targets.normalize_alias_name smtp_to_max_relay.Prelude.Text.trim_right
    smtp_to_max_relay.Prelude.Text.trim_left smtp_to_max_relay.Max.Targets.is_name_rune
    smtp_to_max_relay.Max.Targets.normalize_alias_target smtp_to_max_relay.Prelude.Text.has_prefix
    smtp_to_max_relay.Max.Targets.is_numeric_alias_target smtp_to_max_relay.Prelude.Text.has_suffix
    smtp_to_max_relay.Prelude.Text.is_digit
    smtp_to_max_relay.Recipient.Aliases.validate_alias_target
    smtp_to_max_relay.Recipient.Address.parse_chat_id_base smtp_to_max_relay.Prelude.Text.cut
    smtp_to_max_relay.Max.Commands.Dispatch.save_edit
    smtp_to_max_relay.Max.Commands.Dispatch.saved_reply
    smtp_to_max_relay.Max.Commands.Dispatch.set_target
    smtp_to_max_relay.Max.Commands.Dispatch.set_valid smtp_to_max_relay.Prelude.Assoc.insert
    smtp_to_max_relay.Prelude.Text.contains smtp_to_max_relay.Prelude.Text.contains_rune
    smtp_to_max_relay.Prelude.Text.text_eq smtp_to_max_relay.Recipient.Address.parse_digits
    smtp_to_max_relay.Recipient.Address.parse_prefixed_chat_id
    smtp_to_max_relay.Recipient.Address.parse_signed
    smtp_to_max_relay.Recipient.AliasFile.save_aliases smtp_to_max_relay.Recipient.Aliases.checked
    smtp_to_max_relay.Recipient.Aliases.normalize_alias_targets
    smtp_to_max_relay.Recipient.Aliases.normalize_onto
    smtp_to_max_relay.Recipient.Aliases.set_alias_group
    smtp_to_max_relay.Recipient.Aliases.snapshot_aliases
set_alias-resolves_example =
    set_alias-resolves quiet (codes "Ops") (codes "12") first_world {name = codes "ops"}
      {ts = codes "chatid12" ∷ []} refl refl

abbrev not_ready : ApiFailure
not_ready = record { message = codes "attachment.not.ready"; attachment_not_ready = true }

send_file_message-Ran_example : (send_file_message (λ n. some not_ready) (λ n. false)).calls ≤ 5
send_file_message-Ran_example = (send_file_message-Ran (λ n. some not_ready) (λ n. false)).2
