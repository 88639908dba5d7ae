-- ===== src/Max/BotSender.antt =====
-- internal/max/bot_sender.go: the sender over the MAX client. The client is given as what its calls answer: an
-- upload, a send, and, for a file, the send of each attempt, with whether the context has ended when the
-- delay behind it is waited for. The failure of a send tells if the attachment is not ready.
pub mod Attempts
use smtp_to_max_relay.Prelude.{
  ℕ, zero, suc, ◌+◌, ◌*◌, ◌-◌, ◌<◌, Bool, true, false, not, ◌||◌, ◌&&◌, List, [], ◌∷◌, Option, none,
  some, if◌then◌else◌, ◌==◌, ltb, is_empty,
}
use smtp_to_max_relay.Prelude.Result.{Result, ok, err, ◌>>=◌}
use smtp_to_max_relay.Prelude.Text.{Text, codes, trim_space}
use smtp_to_max_relay.Prelude.Decimal.{parse_int, word, is_negative}
use smtp_to_max_relay.Email.{Attachment}

pub record ApiFailure : Type 0 where
  pub message : Text
  pub attachment_not_ready : Bool

pub data SendFailure : Type 0 where
  invalid_chat_id : Text → SendFailure
  text_failed file_failed : ApiFailure → SendFailure
  upload_attachment : Text → ApiFailure → SendFailure
  context_ended exhausted_retries : SendFailure

unfoldable pub number_or_error : Text → Option ℕ → Result SendFailure ℕ
number_or_error chat_id none = err (invalid_chat_id chat_id)
number_or_error chat_id (some n) = ok n

-- parseChatID
unfoldable pub parse_chat_id : Text → Result SendFailure ℕ
unfolding number_or_error
parse_chat_id chat_id = number_or_error chat_id (parse_int (trim_space chat_id))

abbrev pub second : ℕ
second = 1000000000

-- NewBotSender: the timeout of the HTTP client
unfoldable pub client_timeout : ℕ → ℕ
client_timeout send_timeout =
    let longer = word (send_timeout + 5 * second) in
    if not (is_negative send_timeout)
      && not (send_timeout == 0)
      && not (is_negative longer)
      && ltb (35 * second) longer
    then longer
    else 35 * second

-- NewBotSender: a base URL that is blank is not set.
abbrev pub base_url_option : Text → Option Text
base_url_option base_url = if is_empty (trim_space base_url) then none else some base_url

-- What the client is asked to send, to which chat, and whether the chat is notified.
pub record ApiMessage : Type 0 where
  pub chat : ℕ
  pub notify : Bool
  pub text : Text
  pub file : Option Text

text_error : Option ApiFailure → Option SendFailure
text_error none = none
text_error (some e) = some (text_failed e)

-- BotSender.SendText
unfoldable pub send_text :
    (ApiMessage → Option ApiFailure) → Text → Text → Bool → Option SendFailure
unfolding text_error
send_text api chat_id text silent = elim (parse_chat_id chat_id) [
  | err e ↦ some e
  | ok chat ↦
      text_error (api (record { chat = chat; notify = not silent; text = text; file = none }))
]

-- What a file message has come to: the calls made, the delays waited for, and the error.
pub record FileSend : Type 0 where
  pub calls : ℕ
  pub waited : List ℕ
  pub failure : Option SendFailure

abbrev pub attachment_ready_max_attempts : ℕ
attachment_ready_max_attempts = 5

abbrev pub attachment_ready_retry_delay : ℕ
attachment_ready_retry_delay = 300 * 1000000

abbrev pub next_retry_delay : ℕ → ℕ
next_retry_delay delay = if ltb delay (2 * second) then delay * 2 else delay

wait_for : ℕ → FileSend → FileSend
wait_for delay rest = record rest { waited = delay ∷ rest.waited }

module _ (answer : ℕ → Option ApiFailure) (ended : ℕ → Bool) where
  -- Behind the answer of an attempt; `rest` is what the loop goes on with.
  after_attempt : ℕ → ℕ → Option ApiFailure → FileSend → FileSend
  unfolding wait_for
  after_attempt attempt delay none rest = record {
    calls = attempt + 1;
    waited = [];
    failure = none;
  }
  after_attempt attempt delay (some e) rest =
      if not e.attachment_not_ready || attempt == 4
      then record { calls = attempt + 1; waited = []; failure = some (file_failed e) }
      else if ended attempt
      then record { calls = attempt + 1; waited = []; failure = some context_ended }
      else wait_for delay rest

  -- The loop, on fuel for the attempts that are left.
  send_attempts : ℕ → ℕ → ℕ → FileSend
  unfolding after_attempt
  send_attempts zero attempt delay = record {
    calls = attempt;
    waited = [];
    failure = some exhausted_retries;
  }
  send_attempts (suc fuel) attempt delay =
      after_attempt attempt delay (answer attempt)
        (send_attempts fuel (attempt + 1) (next_retry_delay delay))

  -- BotSender.sendFileMessage
  unfoldable pub send_file_message : FileSend
  unfolding send_attempts
  send_file_message = send_attempts attachment_ready_max_attempts 0 attachment_ready_retry_delay

unfoldable pub file_name_or_default : Text → Text
file_name_or_default name =
    if is_empty (trim_space name) then codes "attachment.bin" else trim_space name

-- What the calls of the client give, by what they are called with.
pub record Client : Type 0 where
  pub upload : Text → List ℕ → Result ApiFailure Text
  pub answer : ApiMessage → ℕ → Option ApiFailure
  pub ended : ℕ → Bool

abbrev nothing_sent : SendFailure → FileSend
nothing_sent e = record { calls = 0; waited = []; failure = some e }

send_uploaded : Client → ℕ → Bool → Text → Result ApiFailure Text → FileSend
send_uploaded client chat silent name (err e) = nothing_sent (upload_attachment name e)
send_uploaded client chat silent name (ok uploaded) =
    let msg : ApiMessage = record {
      chat = chat;
      notify = not silent;
      text = [];
      file = some uploaded;
    } in
    send_file_message (client.answer msg) client.ended

-- BotSender.SendFile
unfoldable pub send_file : Client → Text → Attachment → Bool → FileSend
unfolding send_uploaded
send_file client chat_id a silent = elim (parse_chat_id chat_id) [
  | err e ↦ nothing_sent e
  | ok chat ↦
      let name = file_name_or_default a.filename in
      send_uploaded client chat silent name (client.upload name a.data_bytes)
]
