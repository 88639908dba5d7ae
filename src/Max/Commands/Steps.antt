-- ===== src/Max/Commands/Steps.antt =====
-- internal/max/bot_runtime.go: what a command can change.
use smtp_to_max_relay.Prelude.{
  ℕ, Bool, true, false, List, [], ◌∷◌, Option, none, some, ◌≡◌, refl, inl, inr, is_empty,
  Bool-cases,
}
use smtp_to_max_relay.Prelude.Result.{Result, ok, err}
use smtp_to_max_relay.Prelude.Text.{Text}
use smtp_to_max_relay.Prelude.Decimal.{format_int}
use smtp_to_max_relay.Recipient.Address.{Parser}
use smtp_to_max_relay.Recipient.Aliases.{
  TargetError, validate_alias_target, set_alias_group, add_alias_targets, remove_alias_targets,
  snapshot_aliases, AliasEdit, set_group, add_targets, remove_targets, remove_alias, edit,
}
use smtp_to_max_relay.Recipient.AliasFile.{save_aliases}
use smtp_to_max_relay.Dlq.Admin.{Admin}
use smtp_to_max_relay.Max.AdminConfirm.{register_confirm, consume_confirm}
use smtp_to_max_relay.Max.Targets.{
  TargetRefused, normalize_alias_name, normalize_alias_target, normalize_alias_targets_arg,
  build_aliases_list_reply,
}
use smtp_to_max_relay.Max.Commands.{
  Command, dlq_cmd, list_cmd, show_cmd, dry_cmd, replay_cmd, batch_cmd, confirm_cmd, stats7d_cmd,
  stats30d_cmd, alias_cmd, group_cmd, add_cmd, remove_cmd, unalias_cmd, aliases_cmd, Action,
  replay_item, replay_items, World, Setup, Env, list_limit, batch_args, aliases_listed,
}
use smtp_to_max_relay.Max.Commands.Dispatch.{
  Handled, five_minutes, execute, execute_found, ask, confirm, with_dlq, list_items, show_item,
  dry_item, ask_replay, ask_batch, save_edit, set_valid, set_target, set_alias, edit_targets,
  edit_aliases, unalias, with_aliases, with_stats, run_command,
}

-- The command asks for the action: /replay with an id, or /replay_batch with a number and maybe a mode.
abbrev pub Requests : Setup → Command → List Text → Action → Type 0
Requests setup c args (replay_item admin id) =
    (setup.dlq_admin ≡ some admin) × (c ≡ replay_cmd) × (args ≡ id ∷ [])
Requests setup c args (replay_items admin limit mode) =
    (setup.dlq_admin ≡ some admin) × (c ≡ batch_cmd) × (batch_args args ≡ some (limit, mode))

-- The store is touched only by an action that a given token confirms in time, and the aliases only by an
-- edit that is saved at once.
pub data Step (env : Env) (chat : ℕ) (Given : Text → Type 0) (Asks : Action → Type 0) (w : World)
    : World → Type 0 where
  unchanged : Step env chat Given Asks w w
  edited :
      (e : AliasEdit)
      → Step env chat Given Asks w (record w {
        parser = edit w.parser e;
        alias_file = (save_aliases env.write (edit w.parser e).aliases).0;
      })
  asked :
      (action : Action)
      → Asks action
      → Step env chat Given Asks w (record w {
        confirms =
            register_confirm (format_int chat) five_minutes action env.token env.now w.confirms;
      })
  refused :
      (token : Text)
      → Given token
      → (consume_confirm (format_int chat) token env.now w.confirms).1 ≡ none
      → Step env chat Given Asks w
          (record w { confirms = (consume_confirm (format_int chat) token env.now w.confirms).0 })
  performed :
      (token : Text) (action : Action)
      → Given token
      → (consume_confirm (format_int chat) token env.now w.confirms).1 ≡ some action
      → Step env chat Given Asks w
          (execute env action (record w {
            confirms = (consume_confirm (format_int chat) token env.now w.confirms).0;
          })).0

module _ (env : Env) (chat : ℕ) (Given : Text → Type 0) (Asks : Action → Type 0) where
  execute_found-Step :
      (token : Text) (w : World) (found : Option Action)
      → Given token
      → (consume_confirm (format_int chat) token env.now w.confirms).1 ≡ found
      → Step env chat Given Asks w
          (execute_found env found (record w {
            confirms = (consume_confirm (format_int chat) token env.now w.confirms).0;
          })).0
  unfolding execute_found
  execute_found-Step token w none g e = refused token g e
  execute_found-Step token w (some action) g e = performed token action g e

  confirm-Step :
      (args : List Text) (w : World)
      → ((token : Text) → args ≡ token ∷ [] → Given token)
      → Step env chat Given Asks w (confirm env chat args w).0
  unfolding confirm
  confirm-Step [] w g = unchanged
  confirm-Step (token ∷ []) w g = execute_found-Step token w _ (g token refl) refl
  confirm-Step (token ∷ more ∷ args) w g = unchanged

  with_dlq-Step :
      (dlq : Option Admin) (handler : Admin → World → Handled) (w : World)
      → ((admin : Admin) → dlq ≡ some admin → Step env chat Given Asks w (handler admin w).0)
      → Step env chat Given Asks w (with_dlq dlq handler w).0
  unfolding with_dlq
  with_dlq-Step none handler w h = unchanged
  with_dlq-Step (some admin) handler w h = h admin refl

  list_items-Step :
      (limit : Option ℕ) (w : World) → Step env chat Given Asks w (list_items env limit w).0
  unfolding list_items
  list_items-Step none w = unchanged
  list_items-Step (some limit) w = unchanged

  show_item-Step : (args : List Text) (w : World) → Step env chat Given Asks w (show_item args w).0
  unfolding show_item
  show_item-Step [] w = unchanged
  show_item-Step (id ∷ []) w = unchanged
  show_item-Step (id ∷ more ∷ args) w = unchanged

  dry_item-Step :
      (args : List Text) (w : World) → Step env chat Given Asks w (dry_item env args w).0
  unfolding dry_item
  dry_item-Step [] w = unchanged
  dry_item-Step (id ∷ []) w = unchanged
  dry_item-Step (id ∷ more ∷ args) w = unchanged

  ask_replay-Step :
      (args : List Text) (admin : Admin) (w : World)
      → ((id : Text) → args ≡ id ∷ [] → Asks (replay_item admin id))
      → Step env chat Given Asks w (ask_replay env chat args admin w).0
  unfolding ask_replay ask
  ask_replay-Step [] admin w a = unchanged
  ask_replay-Step (id ∷ []) admin w a = asked (replay_item admin id) (a id refl)
  ask_replay-Step (id ∷ more ∷ args) admin w a = unchanged

  ask_batch-Step :
      (args : Option (ℕ × Text)) (admin : Admin) (w : World)
      → ((limit : ℕ) (mode : Text)
          → args ≡ some (limit, mode)
          → Asks (replay_items admin limit mode))
      → Step env chat Given Asks w (ask_batch env chat args admin w).0
  unfolding ask_batch ask
  ask_batch-Step none admin w a = unchanged
  ask_batch-Step (some (limit, mode)) admin w a =
      asked (replay_items admin limit mode) (a limit mode refl)

  save_edit-Step :
      (c : Command) (name : Text) (targets : List Text) (e : AliasEdit) (w : World)
      → Step env chat Given Asks w (save_edit c env name targets (edit w.parser e) w).0
  unfolding save_edit snapshot_aliases
  save_edit-Step c name targets e w = edited e

  set_valid-Step :
      (name target : Text) (refusal : Option TargetError) (w : World)
      → Step env chat Given Asks w (set_valid env name target refusal w).0
  unfolding set_valid edit
  set_valid-Step name target none w =
      save_edit-Step alias_cmd name (target ∷ []) (set_group name (target ∷ [])) w
  set_valid-Step name target (some e) w = unchanged

  set_target-Step :
      (name : Text) (target : Result TargetRefused Text) (w : World)
      → Step env chat Given Asks w (set_target env name target w).0
  unfolding set_target
  set_target-Step name (err e) w = unchanged
  set_target-Step name (ok target) w = set_valid-Step name target (validate_alias_target target) w

  set_alias-Step :
      (args : List Text) (w : World) → Step env chat Given Asks w (set_alias env args w).0
  unfolding set_alias
  set_alias-Step [] w = unchanged
  set_alias-Step (arg ∷ []) w = unchanged
  set_alias-Step (arg ∷ target ∷ []) w = elim (Bool-cases (is_empty (normalize_alias_name arg))) [
    | inl e ↦ rw e unchanged
    | inr e ↦ rw e (set_target-Step (normalize_alias_name arg) (normalize_alias_target target) w)
  ]
  set_alias-Step (arg ∷ target ∷ more ∷ args) w = unchanged

  module _ (c : Command) (f : Parser → Text → List Text → Parser)
      (as_edit : Text → List Text → AliasEdit)
      (same : (p : Parser) (name : Text) (targets : List Text)
        → f p name targets ≡ edit p (as_edit name targets)) where
    edit_targets-Step :
        (name : Text) (targets : Result TargetRefused (List Text)) (w : World)
        → Step env chat Given Asks w (edit_targets c f env name targets w).0
    unfolding edit_targets
    edit_targets-Step name (err e) w = unchanged
    edit_targets-Step name (ok targets) w =
        rw (same w.parser name targets) (save_edit-Step c name targets (as_edit name targets) w)

    edit_aliases-Step :
        (args : List Text) (w : World) → Step env chat Given Asks w (edit_aliases c f env args w).0
    unfolding edit_aliases
    edit_aliases-Step [] w = unchanged
    edit_aliases-Step (arg ∷ []) w = unchanged
    edit_aliases-Step (arg ∷ targets ∷ []) w =
        elim (Bool-cases (is_empty (normalize_alias_name arg))) [
          | inl e ↦ rw e unchanged
          | inr e ↦
              rw e (
                edit_targets-Step (normalize_alias_name arg) (normalize_alias_targets_arg targets)
                  w)
        ]
    edit_aliases-Step (arg ∷ targets ∷ more ∷ args) w = unchanged

  unalias-Step : (args : List Text) (w : World) → Step env chat Given Asks w (unalias env args w).0
  unfolding unalias edit
  unalias-Step [] w = unchanged
  unalias-Step (arg ∷ []) w = elim (Bool-cases (is_empty (normalize_alias_name arg))) [
    | inl e ↦ rw e unchanged
    | inr e ↦ rw e (
        save_edit-Step unalias_cmd (normalize_alias_name arg) []
          (remove_alias (normalize_alias_name arg)) w)
  ]
  unalias-Step (arg ∷ more ∷ args) w = unchanged

  with_aliases-Step :
      (given : Bool) (handler : World → Handled) (w : World)
      → Step env chat Given Asks w (handler w).0
      → Step env chat Given Asks w (with_aliases given handler w).0
  unfolding with_aliases
  with_aliases-Step true handler w h = h
  with_aliases-Step false handler w h = unchanged

  pub run_command-Step :
      (setup : Setup) (c : Command) (args : List Text) (w : World)
      → ((token : Text) → c ≡ confirm_cmd → args ≡ token ∷ [] → Given token)
      → ((action : Action) → Requests setup c args action → Asks action)
      → Step env chat Given Asks w (run_command setup env chat c args w).0
  unfolding run_command with_stats edit
  run_command-Step setup dlq_cmd args w g a =
      with_dlq-Step setup.dlq_admin _ w (λ admin is. unchanged)
  run_command-Step setup list_cmd args w g a =
      with_dlq-Step setup.dlq_admin _ w (λ admin is. list_items-Step (list_limit args) w)
  run_command-Step setup show_cmd args w g a =
      with_dlq-Step setup.dlq_admin _ w (λ admin is. show_item-Step args w)
  run_command-Step setup dry_cmd args w g a =
      with_dlq-Step setup.dlq_admin _ w (λ admin is. dry_item-Step args w)
  run_command-Step setup replay_cmd args w g a = with_dlq-Step setup.dlq_admin _ w (λ admin is.
      ask_replay-Step args admin w (λ id one. a (replay_item admin id) (is, refl, one)))
  run_command-Step setup batch_cmd args w g a = with_dlq-Step setup.dlq_admin _ w (λ admin is.
      ask_batch-Step (batch_args args) admin w
        (λ limit mode read. a (replay_items admin limit mode) (is, refl, read)))
  run_command-Step setup confirm_cmd args w g a = confirm-Step args w (λ token. g token refl)
  run_command-Step setup stats7d_cmd args w g a = unchanged
  run_command-Step setup stats30d_cmd args w g a = unchanged
  run_command-Step setup alias_cmd args w g a =
      with_aliases-Step setup.alias_admin (set_alias env args) w (set_alias-Step args w)
  run_command-Step setup group_cmd args w g a =
      with_aliases-Step setup.alias_admin (edit_aliases group_cmd set_alias_group env args) w
        (edit_aliases-Step group_cmd set_alias_group set_group (λ p n t. refl) args w)
  run_command-Step setup add_cmd args w g a =
      with_aliases-Step setup.alias_admin (edit_aliases add_cmd add_alias_targets env args) w
        (edit_aliases-Step add_cmd add_alias_targets add_targets (λ p n t. refl) args w)
  run_command-Step setup remove_cmd args w g a =
      with_aliases-Step setup.alias_admin (edit_aliases remove_cmd remove_alias_targets env args) w
        (edit_aliases-Step remove_cmd remove_alias_targets remove_targets (λ p n t. refl) args w)
  run_command-Step setup unalias_cmd args w g a =
      with_aliases-Step setup.alias_admin (unalias env args) w (unalias-Step args w)
  run_command-Step setup aliases_cmd args w g a =
      with_aliases-Step setup.alias_admin
        (λ w. (w, aliases_listed (build_aliases_list_reply (snapshot_aliases w.parser)))) w
        unchanged
