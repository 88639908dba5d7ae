-- ===== src/Max/Runtime/Restart.antt =====
-- internal/max/bot_runtime.go: the alias file beside the table.
use smtp_to_max_relay.Prelude.{
  ℕ, Bool, true, false, List, [], ◌∷◌, Option, none, some, ◌≡◌, refl, inl, inr, arith, all,
}
use smtp_to_max_relay.Prelude.Result.{ok}
use smtp_to_max_relay.Prelude.Text.{Text}
use smtp_to_max_relay.Recipient.Aliases.{edit}
use smtp_to_max_relay.Recipient.Aliases.Table.{edit-IsTable}
use smtp_to_max_relay.Recipient.AliasFile.{AliasFile, load_aliases, save_aliases}
use smtp_to_max_relay.Recipient.AliasFile.Loading.{load_aliases-IsTable}
use smtp_to_max_relay.Recipient.AliasFile.Saving.{load_aliases-written_file}
use smtp_to_max_relay.Max.Commands.{World, Setup, Env, Action, replay_item, replay_items}
use smtp_to_max_relay.Max.Commands.Dispatch.{execute}
use smtp_to_max_relay.Max.Commands.Steps.{Step, unchanged, edited, asked, refused, performed}
use smtp_to_max_relay.Max.Runtime.{Message, handle_message, handle_messages}
use smtp_to_max_relay.Max.Runtime.Authority.{GivenIn, AsksFor, handle_message-IsHandled}

-- A restart would give the table that there is.
abbrev pub IsSaved : World → Type 0
IsSaved w = load_aliases w.alias_file ≡ ok w.parser.aliases

execute-IsSaved :
    (env : Env) (action : Action) (w : World) → IsSaved w → IsSaved (execute env action w).0
unfolding execute
execute-IsSaved env (replay_item admin id) w h = h
execute-IsSaved env (replay_items admin limit mode) w h = h

Step-IsSaved :
    (env : Env) (chat : ℕ) (Given : Text → Type 0) (Asks : Action → Type 0) (w next : World)
    → env.write ≡ none
    → IsSaved w
    → Step env chat Given Asks w next
    → IsSaved next
unfolding save_aliases
Step-IsSaved env chat Given Asks w next ok_write h unchanged = h
Step-IsSaved env chat Given Asks w next ok_write h (edited e) = rw ok_write (
    load_aliases-written_file (edit w.parser e).aliases
      (edit-IsTable w.parser e (load_aliases-IsTable w.alias_file h)))
Step-IsSaved env chat Given Asks w next ok_write h (asked action a) = h
Step-IsSaved env chat Given Asks w next ok_write h (refused token g e) = h
Step-IsSaved env chat Given Asks w next ok_write h (performed token action g e) =
    execute-IsSaved env action _ h

unfoldable pub writes_well : Option (Text × AliasFile) → Bool
writes_well none = true
writes_well (some e) = false

-- Whatever messages the bot handles, a restart loses no alias: if the file holds the table at first, and
-- every write of it succeeds, then loading the file gives the table at last.
pub handle_messages-IsSaved :
    (setup : Setup) (ms : List (Env × Message)) (w : World)
    → IsSaved w
    → all (λ e. writes_well e.0.write) ms ≡ true
    → IsSaved (handle_messages setup ms w)
unfolding handle_messages writes_well
handle_messages-IsSaved setup [] w h good = h
handle_messages-IsSaved setup ((env, m) ∷ ms) w h good =
    handle_messages-IsSaved setup ms (handle_message setup env m w).0 saved (ground (arith, good))
  where
    written : (write : Option (Text × AliasFile)) → writes_well write ≡ true → write ≡ none
    written none e = refl
    written (some x) e = cc

    saved : IsSaved (handle_message setup env m w).0
    saved = elim (handle_message-IsHandled setup env m w) [
      | inl e ↦ rw e h
      | inr (admin, step) ↦
          Step-IsSaved env m.chat_id (GivenIn m) (AsksFor setup m) w _
            (written env.write (ground (arith, good))) h step
    ]
