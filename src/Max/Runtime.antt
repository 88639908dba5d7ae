-- ===== src/Max/Runtime.antt =====
-- internal/max/bot_runtime.go: what the bot does with a message. The reply is given back with the chat; what
-- becomes of its sending is only logged.
pub mod Authority
pub mod Restart
pub mod History
pub mod Reach
use smtp_to_max_relay.Prelude.{
  ℕ, Bool, true, false, not, ◌&&◌, ◌||◌, List, [], ◌∷◌, Option, none, some, if◌then◌else◌, ◌==◌,
  is_empty,
}
use smtp_to_max_relay.Prelude.Text.{Text, codes, text_eq}
use smtp_to_max_relay.Prelude.Decimal.{format_int}
use smtp_to_max_relay.Max.Help.{
  extract_command, command_targets_bot, message_mentions_bot, InfoReply, build_chat_info_reply,
  build_user_info_reply,
}
use smtp_to_max_relay.Max.Commands.{World, Setup, Env, Reply, info}
use smtp_to_max_relay.Max.Commands.Dispatch.{maybe_handle_admin_command}

pub record User : Type 0 where
  pub user_id : ℕ
  pub is_bot : Bool

pub record Message : Type 0 where
  pub sender : Option User
  pub chat_id : ℕ
  pub text : Text

-- The id of /start; empty for none.
started_by : Option User → Text
started_by none = []
started_by (some user) = if user.user_id == 0 then [] else format_int user.user_id

unfoldable pub reply_for_message_text : Text → Text → Option User → Text → Text → Option InfoReply
unfolding started_by
reply_for_message_text text chat_id sender bot_username allowed_domain =
    let cmd = extract_command text in
    let chat_info = build_chat_info_reply chat_id allowed_domain in
    if not (is_empty cmd) && not (command_targets_bot text bot_username)
    then none
    else if text_eq cmd (codes "hello")
    then some chat_info
    else if text_eq cmd (codes "help")
    then some chat_info
    else if text_eq cmd (codes "start")
    then some (build_user_info_reply (started_by sender) allowed_domain)
    else if message_mentions_bot text bot_username
    then some chat_info
    else none

-- The bot answers no bot, and not itself.
unfoldable pub is_own : Setup → Option User → Bool
is_own setup none = false
is_own setup (some user) =
    if user.is_bot
    then true
    else not (setup.bot_user_id == 0) && (user.user_id == setup.bot_user_id)

abbrev pub is_given : Option User → Bool
is_given none = false
is_given (some user) = true

unfoldable pub info_or_command :
    Setup → Env → Message → Option InfoReply → World → World × Option Reply
info_or_command setup env m (some reply) w = (w, some (info reply))
info_or_command setup env m none w =
    maybe_handle_admin_command setup env m.text (is_given m.sender) m.chat_id w

-- handleMessageCreatedUpdate
unfoldable pub handle_message : Setup → Env → Message → World → World × Option Reply
unfolding is_own info_or_command
handle_message setup env m w =
    if is_own setup m.sender
    then (w, none)
    else if m.chat_id == 0
    then (w, none)
    else info_or_command setup env m
        (reply_for_message_text m.text (format_int m.chat_id) m.sender setup.bot_username
          setup.allowed_domain)
        w

-- The loop of RunBotLoopWithUsername: it handles the messages one behind the other, as they come, until the
-- context or the channel ends. Other updates are not handled.
unfoldable pub handle_messages : Setup → List (Env × Message) → World → World
handle_messages setup [] w = w
handle_messages setup ((env, m) ∷ ms) w = handle_messages setup ms (handle_message setup env m w).0

-- SendStartupNotification: the chat that is told of the start, and the version that it is told; it is silent.
unfoldable pub send_startup_notification : Bool → ℕ → Text → Option (Text × Text)
send_startup_notification has_sender admin_chat_id version =
    if not has_sender || admin_chat_id == 0 then none else some (format_int admin_chat_id, version)
