-- ===== src/Max/Commands/Dispatch.antt =====
-- internal/max/bot_runtime.go: maybeHandleAdminAliasCommandWithDLQ, from the guards to the cases of its switch.
use smtp_to_max_relay.Prelude.{
  ℕ, ◌*◌, Bool, not, ◌||◌, List, [], ◌∷◌, Option, none, some, if◌then◌else◌, ◌==◌, is_empty,
}
use smtp_to_max_relay.Prelude.Result.{Result, ok, err}
use smtp_to_max_relay.Prelude.Text.{Text, codes, to_lower, trim_space, fields}
use smtp_to_max_relay.Prelude.Decimal.{format_int}
use smtp_to_max_relay.Prelude.Assoc.{Assoc, lookup}
use smtp_to_max_relay.Recipient.Address.{Parser}
use smtp_to_max_relay.Recipient.Aliases.{
  TargetError, validate_alias_target, set_alias_group, add_alias_targets, remove_alias_targets,
  delete_alias, snapshot_aliases,
}
use smtp_to_max_relay.Recipient.AliasFile.{save_aliases}
use smtp_to_max_relay.Dlq.Admin.{Admin, replay, replay_batch}
use smtp_to_max_relay.Dlq.Admin.Reports.{summary, list_text, show, replay_dry}
use smtp_to_max_relay.Max.AdminConfirm.{register_confirm, consume_confirm}
use smtp_to_max_relay.Max.Targets.{
  TargetRefused, normalize_alias_name, normalize_alias_target, normalize_alias_targets_arg,
  build_aliases_list_reply,
}
use smtp_to_max_relay.Max.Commands.{
  Command, dlq_cmd, list_cmd, show_cmd, dry_cmd, replay_cmd, batch_cmd, confirm_cmd, stats7d_cmd,
  stats30d_cmd, alias_cmd, group_cmd, add_cmd, remove_cmd, unalias_cmd, aliases_cmd, Action,
  replay_item, replay_items, World, Setup, Env, Reply, dlq_unavailable, stats_unavailable,
  aliases_unavailable, confirm_not_found, bad_alias_name, usage, dlq_summary, dlq_listed, dlq_shown,
  dry_replayed, confirm_needed, replayed, batch_replayed, report_reply, target_refused,
  target_invalid, aliases_saved, aliases_not_written, aliases_listed, list_limit, batch_args,
}

abbrev pub Handled : Type 0
Handled = World × Reply

abbrev pub five_minutes : ℕ
five_minutes = 5 * 60 * 1000000000

-- A command that needs a confirmation.
unfoldable pub ask : Env → ℕ → Action → World → Handled
ask env chat action w = (
  record w {
    confirms = register_confirm (format_int chat) five_minutes action env.token env.now w.confirms;
  },
  confirm_needed env.token,
)

unfoldable pub execute : Env → Action → World → Handled
execute env (replay_item admin id) w =
    let r = replay admin env.attempt id w.store in (record w { store = r.0 }, replayed r.1)
execute env (replay_items admin limit mode) w =
    let r = replay_batch admin env.attempt limit mode w.store in
    (record w { store = r.0 }, batch_replayed r.1)

unfoldable pub execute_found : Env → Option Action → World → Handled
unfolding execute
execute_found env none w = (w, confirm_not_found)
execute_found env (some action) w = execute env action w

unfoldable pub confirm : Env → ℕ → List Text → World → Handled
unfolding execute_found
confirm env chat (token ∷ []) w =
    let c = consume_confirm (format_int chat) token env.now w.confirms in
    execute_found env c.1 (record w { confirms = c.0 })
confirm env chat _ w = (w, usage confirm_cmd)

unfoldable pub with_dlq : Option Admin → (Admin → World → Handled) → World → Handled
with_dlq none handler w = (w, dlq_unavailable)
with_dlq (some admin) handler w = handler admin w

unfoldable pub list_items : Env → Option ℕ → World → Handled
list_items env none w = (w, usage list_cmd)
list_items env (some limit) w = (w, dlq_listed (list_text limit w.store))

unfoldable pub show_item : List Text → World → Handled
show_item (id ∷ []) w = (w, dlq_shown (show id w.store))
show_item _ w = (w, usage show_cmd)

unfoldable pub dry_item : Env → List Text → World → Handled
dry_item env (id ∷ []) w = (w, dry_replayed (replay_dry env.dry_run id w.store))
dry_item env _ w = (w, usage dry_cmd)

unfoldable pub ask_replay : Env → ℕ → List Text → Admin → World → Handled
unfolding ask
ask_replay env chat (id ∷ []) admin w = ask env chat (replay_item admin id) w
ask_replay env chat _ admin w = (w, usage replay_cmd)

unfoldable pub ask_batch : Env → ℕ → Option (ℕ × Text) → Admin → World → Handled
unfolding ask
ask_batch env chat none admin w = (w, usage batch_cmd)
ask_batch env chat (some (limit, mode)) admin w = ask env chat (replay_items admin limit mode) w

unfoldable pub saved_reply : Command → Text → List Text → Option Text → Reply
saved_reply c name targets none = aliases_saved c name targets
saved_reply c name targets (some e) = aliases_not_written c e

-- The edited table is saved.
unfoldable pub save_edit : Command → Env → Text → List Text → Parser → World → Handled
unfolding saved_reply
save_edit c env name targets p w =
    let written = save_aliases env.write (snapshot_aliases p) in
    (record w { parser = p; alias_file = written.0 }, saved_reply c name targets written.1)

unfoldable pub set_valid : Env → Text → Text → Option TargetError → World → Handled
unfolding save_edit
set_valid env name target none w =
    save_edit alias_cmd env name (target ∷ []) (set_alias_group w.parser name (target ∷ [])) w
set_valid env name target (some e) w = (w, target_invalid e)

unfoldable pub set_target : Env → Text → Result TargetRefused Text → World → Handled
unfolding set_valid
set_target env name (err e) w = (w, target_refused e)
set_target env name (ok target) w = set_valid env name target (validate_alias_target target) w

unfoldable pub set_alias : Env → List Text → World → Handled
unfolding set_target
set_alias env (arg ∷ target ∷ []) w =
    let name = normalize_alias_name arg in
    if is_empty name
    then (w, bad_alias_name)
    else set_target env name (normalize_alias_target target) w
set_alias env _ w = (w, usage alias_cmd)

module _ (c : Command) (edit : Parser → Text → List Text → Parser) (env : Env) where
  unfoldable pub edit_targets : Text → Result TargetRefused (List Text) → World → Handled
  unfolding save_edit
  edit_targets name (err e) w = (w, target_refused e)
  edit_targets name (ok targets) w = save_edit c env name targets (edit w.parser name targets) w

  -- The common shape of /alias_group, /alias_add and /alias_remove.
  unfoldable pub edit_aliases : List Text → World → Handled
  unfolding edit_targets
  edit_aliases (arg ∷ targets ∷ []) w =
      let name = normalize_alias_name arg in
      if is_empty name
      then (w, bad_alias_name)
      else edit_targets name (normalize_alias_targets_arg targets) w
  edit_aliases _ w = (w, usage c)

unfoldable pub unalias : Env → List Text → World → Handled
unfolding save_edit
unalias env (arg ∷ []) w =
    let name = normalize_alias_name arg in
    if is_empty name
    then (w, bad_alias_name)
    else save_edit unalias_cmd env name [] (delete_alias w.parser name) w
unalias env _ w = (w, usage unalias_cmd)

unfoldable pub with_aliases : Bool → (World → Handled) → World → Handled
with_aliases given handler w = if given then handler w else (w, aliases_unavailable)

unfoldable pub with_stats : Bool → Env → ℕ → World → Handled
with_stats given env days w =
    (w, (if given then report_reply (env.report days) else stats_unavailable))

-- The cases of the switch, with the arguments behind the command.
unfoldable pub run_command : Setup → Env → ℕ → Command → List Text → World → Handled
unfolding with_dlq list_items show_item dry_item ask_replay ask_batch confirm with_stats
    with_aliases set_alias edit_aliases unalias
run_command setup env chat dlq_cmd args w =
    with_dlq setup.dlq_admin (λ admin w. (w, dlq_summary (summary env.now w.store))) w
run_command setup env chat list_cmd args w =
    with_dlq setup.dlq_admin (λ admin w. list_items env (list_limit args) w) w
run_command setup env chat show_cmd args w =
    with_dlq setup.dlq_admin (λ admin w. show_item args w) w
run_command setup env chat dry_cmd args w =
    with_dlq setup.dlq_admin (λ admin w. dry_item env args w) w
run_command setup env chat replay_cmd args w =
    with_dlq setup.dlq_admin (λ admin w. ask_replay env chat args admin w) w
run_command setup env chat batch_cmd args w =
    with_dlq setup.dlq_admin (λ admin w. ask_batch env chat (batch_args args) admin w) w
run_command setup env chat confirm_cmd args w = confirm env chat args w
run_command setup env chat stats7d_cmd args w = with_stats setup.stats_reporter env 7 w
run_command setup env chat stats30d_cmd args w = with_stats setup.stats_reporter env 30 w
run_command setup env chat alias_cmd args w = with_aliases setup.alias_admin (set_alias env args) w
run_command setup env chat group_cmd args w =
    with_aliases setup.alias_admin (edit_aliases group_cmd set_alias_group env args) w
run_command setup env chat add_cmd args w =
    with_aliases setup.alias_admin (edit_aliases add_cmd add_alias_targets env args) w
run_command setup env chat remove_cmd args w =
    with_aliases setup.alias_admin (edit_aliases remove_cmd remove_alias_targets env args) w
run_command setup env chat unalias_cmd args w = with_aliases setup.alias_admin (unalias env args) w
run_command setup env chat aliases_cmd args w =
    with_aliases setup.alias_admin
      (λ w. (w, aliases_listed (build_aliases_list_reply (snapshot_aliases w.parser)))) w

abbrev pub commands : Assoc Command
commands =
    (codes "/dlq", dlq_cmd)
    ∷ (codes "/dlq_list", list_cmd)
    ∷ (codes "/dlq_show", show_cmd)
    ∷ (codes "/replay_dry", dry_cmd)
    ∷ (codes "/replay", replay_cmd)
    ∷ (codes "/replay_batch", batch_cmd)
    ∷ (codes "/confirm", confirm_cmd)
    ∷ (codes "/stats7d", stats7d_cmd)
    ∷ (codes "/stats30d", stats30d_cmd)
    ∷ (codes "/alias", alias_cmd)
    ∷ (codes "/alias_group", group_cmd)
    ∷ (codes "/alias_add", add_cmd)
    ∷ (codes "/alias_remove", remove_cmd)
    ∷ (codes "/unalias", unalias_cmd)
    ∷ (codes "/aliases", aliases_cmd)
    ∷ []

-- A text that is no command of the administrator has no reply.
unfoldable pub replied : Setup → Env → ℕ → Option Command → List Text → World → World × Option Reply
replied setup env chat none args w = (w, none)
replied setup env chat (some c) args w =
    let h = run_command setup env chat c args w in (h.0, some h.1)

unfoldable pub read_command : Setup → Env → ℕ → List Text → World → World × Option Reply
unfolding replied
read_command setup env chat [] w = (w, none)
read_command setup env chat (part ∷ args) w =
    replied setup env chat (lookup (to_lower part) commands) args w

-- maybeHandleAdminAliasCommandWithDLQ; `from_user` is whether the message has a sender.
unfoldable pub maybe_handle_admin_command :
    Setup → Env → Text → Bool → ℕ → World → World × Option Reply
unfolding read_command
maybe_handle_admin_command setup env text from_user chat w =
    if setup.admin_chat_id == 0
    then (w, none)
    else if not from_user || not (chat == setup.admin_chat_id)
    then (w, none)
    else read_command setup env chat (fields (trim_space text)) w
