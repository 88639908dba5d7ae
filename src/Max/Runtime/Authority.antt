-- ===== src/Max/Runtime/Authority.antt =====
-- internal/max/bot_runtime.go: who a message is from, and what it changes.
use smtp_to_max_relay.Prelude.{
  Bool, true, false, not, ◌&&◌, ◌||◌, List, [], ◌∷◌, Option, none, some, ◌≡◌, ◌∙◌, refl, ap, ◌⊎◌,
  inl, inr, arith, ◌==◌, all, Bool-cases,
}
use smtp_to_max_relay.Prelude.Text.{Text, fields, to_lower, trim_space}
use smtp_to_max_relay.Prelude.Assoc.{lookup}
use smtp_to_max_relay.Prelude.Decimal.{format_int}
use smtp_to_max_relay.Max.Help.{InfoReply}
use smtp_to_max_relay.Max.AdminConfirm.{consume_confirm}
use smtp_to_max_relay.Max.Commands.{
  Command, confirm_cmd, Action, replay_item, replay_items, World, Setup, Env,
}
use smtp_to_max_relay.Max.Commands.Dispatch.{
  maybe_handle_admin_command, read_command, replied, commands, execute,
}
use smtp_to_max_relay.Max.Commands.Steps.{
  Requests, Step, unchanged, edited, asked, refused, performed, run_command-Step,
}
use smtp_to_max_relay.Max.Runtime.{
  User, Message, is_own, is_given, info_or_command, handle_message, handle_messages,
}

-- A message of the administrator: of a person, in the chat that is set up for it.
unfoldable pub is_admin_message : Setup → Message → Bool
is_admin_message setup m =
    not (setup.admin_chat_id == 0) && (m.chat_id == setup.admin_chat_id) && elim m.sender [
      | none ↦ false
      | some user ↦
          not user.is_bot && (setup.bot_user_id == 0 || not (user.user_id == setup.bot_user_id))
    ]

-- The message is /confirm with this token.
abbrev pub GivenIn : Message → Text → Type 0
GivenIn m token =
    (part : Text) × (fields (trim_space m.text) ≡ part ∷ token ∷ [])
    × (lookup (to_lower part) commands ≡ some confirm_cmd)

-- The message is a command that asks for this action.
abbrev pub AsksFor : Setup → Message → Action → Type 0
AsksFor setup m action =
    (part : Text) × (c : Command) × (args : List Text) × (fields (trim_space m.text) ≡ part ∷ args)
    × (lookup (to_lower part) commands ≡ some c)
    × Requests setup c args action

-- What a message can change: nothing, or what a command changes if it is the administrator's.
abbrev pub IsHandled : Setup → Env → Message → World → World → Type 0
IsHandled setup env m w next =
    (next ≡ w)
    ⊎ ((is_admin_message setup m ≡ true) × Step env m.chat_id (GivenIn m) (AsksFor setup m) w next)

module _ (setup : Setup) (env : Env) (m : Message) (w : World)
    (admin : is_admin_message setup m ≡ true) where
  replied-IsHandled :
      (part : Text) (c : Option Command) (args : List Text)
      → fields (trim_space m.text) ≡ part ∷ args
      → lookup (to_lower part) commands ≡ c
      → IsHandled setup env m w (replied setup env m.chat_id c args w).0
  unfolding replied
  replied-IsHandled part none args f h = inl refl
  replied-IsHandled part (some c) args f h = inr (
    admin,
    run_command-Step env m.chat_id (GivenIn m) (AsksFor setup m) setup c args w
        (λ token is one. (part, f ∙ ap (λ l. part ∷ l) one, h ∙ ap (λ x. some x) is))
        (λ action r. (part, c, args, f, h, r)),
  )

  read_command-IsHandled :
      (parts : List Text)
      → fields (trim_space m.text) ≡ parts
      → IsHandled setup env m w (read_command setup env m.chat_id parts w).0
  unfolding read_command
  read_command-IsHandled [] f = inl refl
  read_command-IsHandled (part ∷ args) f =
      replied-IsHandled part (lookup (to_lower part) commands) args f refl

is_admin :
    (setup : Setup) (m : Message) (sender : Option User)
    → (setup.admin_chat_id == 0) ≡ false
    → (not (is_given sender) || not (m.chat_id == setup.admin_chat_id)) ≡ false
    → is_own setup sender ≡ false
    → is_admin_message setup (record m { sender = sender }) ≡ true
unfolding is_admin_message is_own
is_admin setup m none e f own = cc
is_admin setup m (some user) e f own = ground (arith, e, f, own)

command-IsHandled :
    (setup : Setup) (env : Env) (m : Message) (w : World)
    → is_own setup m.sender ≡ false
    → IsHandled setup env m w
        (maybe_handle_admin_command setup env m.text (is_given m.sender) m.chat_id w).0
unfolding maybe_handle_admin_command is_own
command-IsHandled setup env m w own = elim (Bool-cases (setup.admin_chat_id == 0)) [
  | inl e ↦ rw e (inl refl)
  | inr e ↦ elim (Bool-cases (not (is_given m.sender) || not (m.chat_id == setup.admin_chat_id))) [
    | inl f ↦ rw (e, f) (inl refl)
    | inr f ↦
        rw (e, f)
          (read_command-IsHandled setup env m w (is_admin setup m m.sender e f own)
            (fields (trim_space m.text)) refl)
  ]
]

info_or_command-IsHandled :
    (setup : Setup) (env : Env) (m : Message) (reply : Option InfoReply) (w : World)
    → is_own setup m.sender ≡ false
    → IsHandled setup env m w (info_or_command setup env m reply w).0
unfolding info_or_command
info_or_command-IsHandled setup env m none w own = command-IsHandled setup env m w own
info_or_command-IsHandled setup env m (some reply) w own = inl refl

pub handle_message-IsHandled :
    (setup : Setup) (env : Env) (m : Message) (w : World)
    → IsHandled setup env m w (handle_message setup env m w).0
unfolding handle_message
handle_message-IsHandled setup env m w = elim (Bool-cases (is_own setup m.sender)) [
  | inl e ↦ rw e (inl refl)
  | inr e ↦ elim (Bool-cases (m.chat_id == 0)) [
    | inl f ↦ rw (e, f) (inl refl)
    | inr f ↦ rw (e, f) (info_or_command-IsHandled setup env m _ w e)
  ]
]

-- A dead letter is touched only by a confirmed action.
abbrev pub IsConfirmed : Env → Message → World → World → Type 0
IsConfirmed env m w next =
    (token : Text) × (action : Action) × GivenIn m token
    × ((consume_confirm (format_int m.chat_id) token env.now w.confirms).1 ≡ some action)
    × (next.store ≡ (execute env action w).0.store)

Step-store :
    (setup : Setup) (env : Env) (m : Message) (w next : World)
    → Step env m.chat_id (GivenIn m) (AsksFor setup m) w next
    → (next.store ≡ w.store) ⊎ IsConfirmed env m w next
unfolding execute
Step-store setup env m w next unchanged = inl refl
Step-store setup env m w next (edited e) = inl refl
Step-store setup env m w next (asked action a) = inl refl
Step-store setup env m w next (refused token g e) = inl refl
Step-store setup env m w next (performed token action g e) =
    inr (token, action, g, e, executed action)
  where
    executed :
        (action : Action)
        → (execute env action (record w {
          confirms = (consume_confirm (format_int m.chat_id) token env.now w.confirms).0;
        })).0.store
          ≡ (execute env action w).0.store
    executed (replay_item admin id) = refl
    executed (replay_items admin limit mode) = refl

-- Messages of which none is the administrator's change nothing, however many they are.
pub handle_messages_of_others :
    (setup : Setup) (ms : List (Env × Message)) (w : World)
    → all (λ e. not (is_admin_message setup e.1)) ms ≡ true
    → handle_messages setup ms w ≡ w
unfolding handle_messages
handle_messages_of_others setup [] w h = refl
handle_messages_of_others setup ((env, m) ∷ ms) w h =
    elim (handle_message-IsHandled setup env m w) [
      | inl e ↦ rw e (handle_messages_of_others setup ms w (ground (arith, h)))
      | inr (admin, step) ↦ absurd (ground (arith, h, admin))
    ]

-- Whatever a message is, the dead letters change only if it is the administrator's and is /confirm with a
-- token for which an action is pending in its chat and in time; the action is what happens to them.
pub handle_message-store :
    (setup : Setup) (env : Env) (m : Message) (w : World)
    → let next = (handle_message setup env m w).0 in
      (next.store ≡ w.store) ⊎ ((is_admin_message setup m ≡ true) × IsConfirmed env m w next)
handle_message-store setup env m w = elim (handle_message-IsHandled setup env m w) [
  | inl e ↦ inl (ap (λ x. x.store) e)
  | inr (admin, step) ↦ elim (Step-store setup env m w _ step) [
    | inl e ↦ inl e
    | inr c ↦ inr (admin, c)
  ]
]
