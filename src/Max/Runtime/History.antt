-- ===== src/Max/Runtime/History.antt =====
-- internal/max/bot_runtime.go: the pending actions behind many messages.
use smtp_to_max_relay.Prelude.{
  ℕ, ◌+◌, ◌≤◌, true, List, [], ◌∷◌, ◌≡◌, refl, sym, subst, ◌⊎◌, inl, inr, All, All-filter,
}
use smtp_to_max_relay.Prelude.Text.{Text}
use smtp_to_max_relay.Prelude.Assoc.Entries.{All-insert, All-delete, All-lookup}
use smtp_to_max_relay.Prelude.Decimal.{format_int}
use smtp_to_max_relay.Max.AdminConfirm.{
  ConfirmAction, confirm_key, register_confirm, consume_confirm, purge_expired_locked,
}
use smtp_to_max_relay.Max.AdminConfirm.Tokens.{consumed}
use smtp_to_max_relay.Max.Commands.{Action, replay_item, replay_items, World, Setup, Env}
use smtp_to_max_relay.Max.Commands.Dispatch.{five_minutes, execute}
use smtp_to_max_relay.Max.Commands.Steps.{Step, unchanged, edited, asked, refused, performed}
use smtp_to_max_relay.Max.Runtime.{Message, handle_message, handle_messages}
use smtp_to_max_relay.Max.Runtime.Authority.{
  is_admin_message, GivenIn, AsksFor, IsConfirmed, handle_message-IsHandled, handle_message-store,
}

-- One of the messages is the administrator's and asks for the action. The key is its chat and the token
-- that was drawn for it, and the action expires five minutes behind it.
pub data Asked (setup : Setup) (key : Text) (action : Action) (expires : ℕ)
    : List (Env × Message) → Type 0 where
  here :
      (env : Env) (m : Message) (ms : List (Env × Message))
      → is_admin_message setup m ≡ true
      → AsksFor setup m action
      → confirm_key (format_int m.chat_id) env.token ≡ key
      → env.now + five_minutes ≡ expires
      → Asked setup key action expires ((env, m) ∷ ms)
  earlier :
      (e : Env × Message) (ms : List (Env × Message))
      → Asked setup key action expires ms
      → Asked setup key action expires (e ∷ ms)

module _ (R : Text × ConfirmAction Action → Type 0) where
  Step-confirms :
      (setup : Setup) (env : Env) (m : Message) (w next : World)
      → ((action : Action)
          → AsksFor setup m action
          → R (
            confirm_key (format_int m.chat_id) env.token,
            record { expires_at = env.now + five_minutes; execute = action },
          ))
      → All R w.confirms
      → Step env m.chat_id (GivenIn m) (AsksFor setup m) w next
      → All R next.confirms
  unfolding register_confirm consume_confirm purge_expired_locked execute
  Step-confirms setup env m w next new h unchanged = h
  Step-confirms setup env m w next new h (edited e) = h
  Step-confirms setup env m w next new h (asked action a) =
      All-insert R _ _ _ (new action a) (All-filter R _ w.confirms h)
  Step-confirms setup env m w next new h (refused token g e) = All-delete R _ w.confirms h
  Step-confirms setup env m w next new h (performed token (replay_item admin id) g e) =
      All-delete R _ w.confirms h
  Step-confirms setup env m w next new h (performed token (replay_items admin limit mode) g e) =
      All-delete R _ w.confirms h

  -- What every pending entry has, when it has it at first and every message that asks for one gives it.
  handle_messages-confirms :
      (setup : Setup) (ms : List (Env × Message)) (w : World)
      → ((key : Text) (c : ConfirmAction Action)
          → Asked setup key c.execute c.expires_at ms
          → R (key, c))
      → All R w.confirms
      → All R (handle_messages setup ms w).confirms
  unfolding handle_messages
  handle_messages-confirms setup [] w new h = h
  handle_messages-confirms setup ((env, m) ∷ ms) w new h =
      handle_messages-confirms setup ms (handle_message setup env m w).0
        (λ key c a. new key c (earlier (env, m) ms a))
        (elim (handle_message-IsHandled setup env m w) [
          | inl e ↦ rw e h
          | inr (admin, step) ↦
              Step-confirms setup env m w _ (λ action a. new _ _ (here env m ms admin a refl refl))
                h step
        ])

-- What is confirmed was asked for: the action is the administrator's in the chat, drawn with the token, and in time.
abbrev pub IsAskedFor : Setup → List (Env × Message) → Env → Message → World → World → Type 0
IsAskedFor setup past env m w next =
    (token : Text) × (action : Action) × (expires : ℕ) × GivenIn m token
    × Asked setup (confirm_key (format_int m.chat_id) token) action expires past
    × (env.now ≤ expires)
    × (next.store ≡ (execute env action w).0.store)

IsConfirmed-IsAskedFor :
    (setup : Setup) (past : List (Env × Message)) (env : Env) (m : Message) (w next : World)
    → All (λ e. Asked setup e.0 e.1.execute e.1.expires_at past) w.confirms
    → IsConfirmed env m w next
    → IsAskedFor setup past env m w next
IsConfirmed-IsAskedFor setup past env m w next h (token, action, given, gives, store) =
    let (c, found, is, in_time) =
      consumed (format_int m.chat_id) token env.now w.confirms {action = action} gives in
    let key = confirm_key (format_int m.chat_id) token in
    (
      token,
      action,
      c.expires_at,
      given,
      subst (λ a. Asked setup key a c.expires_at past) is
          (All-lookup (λ e. Asked setup e.0 e.1.execute e.1.expires_at past) key w.confirms {v = c}
            found h),
      in_time,
      store,
    )

-- Whatever messages the bot has handled since its start, when nothing was pending, the next message changes
-- the dead letters only if it is the administrator's and is /confirm with a token whose key an earlier
-- message, the administrator's too, was given with its own token: that message is a /replay or a
-- /replay_batch, not more than five minutes before, and what happens to the dead letters is what it asks
-- for.
pub handle_message-IsAskedFor :
    (setup : Setup) (past : List (Env × Message)) (env : Env) (m : Message) (start : World)
    → start.confirms ≡ []
    → let w = handle_messages setup past start in
      let next = (handle_message setup env m w).0 in
      (next.store ≡ w.store)
      ⊎ ((is_admin_message setup m ≡ true) × IsAskedFor setup past env m w next)
handle_message-IsAskedFor setup past env m start none_pending =
    let w = handle_messages setup past start in
    let R : Text × ConfirmAction Action → Type 0 =
      λ e. Asked setup e.0 e.1.execute e.1.expires_at past in
    let pending =
      handle_messages-confirms R setup past start (λ key c a. a)
        (subst (All R) (sym none_pending) tt) in
    elim (handle_message-store setup env m w) [
      | inl e ↦ inl e
      | inr (admin, c) ↦ inr (
        admin,
        IsConfirmed-IsAskedFor setup past env m w (handle_message setup env m w).0 pending c,
      )
    ]
