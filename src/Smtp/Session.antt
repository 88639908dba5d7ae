-- ===== src/Smtp/Session.antt =====
-- internal/smtp/server.go: handleConn. The relay service is an interface on a state `W` of its own. A
-- reply stands for the lines that writeLine sends. A line without its end, before the end of the
-- input, is dropped, as ReadString's error drops it, and is not among the lines.
pub mod Safety
pub mod Commands
use smtp_to_max_relay.Prelude.{
  ℕ, zero, suc, ◌-◌, Bool, true, false, List, [], ◌∷◌, ◌++◌, Option, none, some, if◌then◌else◌,
  ◌==◌, within, drop, is_empty, map, not, length,
}
use smtp_to_max_relay.Prelude.Result.{Result, ok, err}
use smtp_to_max_relay.Prelude.Text.{Text, codes, text_eq, trim_space, has_prefix}
use smtp_to_max_relay.Smtp.Data.{extract_smtp_path, is_allowed_recipient, ReadError, read_data}

-- unicode.ToUpper for ASCII, and for the two other letters whose upper case is ASCII: the commands
-- hold no more.
unfoldable pub upper_rune : ℕ → ℕ
upper_rune c =
    if within b'a' b'z' c
    then c - 32
    else if c == 0x131
    then b'I'
    else if c == 0x17f
    then b'S'
    else c

abbrev pub to_upper : Text → Text
to_upper = map upper_rune

pub data Command : Type 0 where
  ehlo helo auth_plain mail_from data_mail rset noop quit unknown : Command
  rcpt_to : Text → Command

-- The switch of handleConn.
unfoldable pub command_of : Text → Command
command_of line =
    let cmd = trim_space line in
    let ucmd = to_upper cmd in
    if has_prefix ucmd (codes "EHLO")
    then ehlo
    else if has_prefix ucmd (codes "HELO")
    then helo
    else if has_prefix ucmd (codes "AUTH PLAIN")
    then auth_plain
    else if has_prefix ucmd (codes "MAIL FROM:")
    then mail_from
    else if has_prefix ucmd (codes "RCPT TO:")
    then rcpt_to (drop 8 cmd)
    else if text_eq ucmd (codes "DATA")
    then data_mail
    else if text_eq ucmd (codes "RSET")
    then rset
    else if text_eq ucmd (codes "NOOP")
    then noop
    else if text_eq ucmd (codes "QUIT")
    then quit
    else unknown

pub data Reply : Type 0 where
  ready hello okay authenticated bad_recipient domain_not_allowed recipient_invalid : Reply
  need_recipient start_data too_big relay_failure bye not_implemented read_error : Reply
  extended_hello : ℕ → Reply

-- relay.Service as the session calls it: `accepts` is the recipient parser's verdict, or true
-- without a parser; `relay` gives the next state of the service, and whether its error is nil.
pub record RelayService (W : Type 0) : Type 0 where
  pub accepts : Text → Bool
  pub relay : W → Text → Text → W × Bool

pub record Server : Type 0 where
  pub domain : Text
  pub max_bytes : ℕ

pub record Session (W : Type 0) : Type 0 where
  pub world : W
  pub rcpts : List Text
  pub is_authenticated : Bool

-- What a command leaves: the replies, the session and the lines to come, or a closed connection.
pub data Handled (W : Type 0) : Type 0 where
  go_on : List Reply → Session W → List Text → Handled W
  closed : List Reply → Session W → Handled W

module _ {W : Type 0} (server : Server) (service : RelayService W) where
  answer : Reply → Session W → List Text → Handled W
  answer reply s lines = go_on (reply ∷ []) s lines

  unfoldable pub handle_rcpt : Text → Session W → List Text → Handled W
  unfolding answer
  handle_rcpt argument s lines =
      let addr = extract_smtp_path argument in
      if is_empty addr
      then answer bad_recipient s lines
      else if not (is_allowed_recipient addr server.domain)
      then answer domain_not_allowed s lines
      else if not (service.accepts addr)
      then answer recipient_invalid s lines
      else answer okay (record s { rcpts = s.rcpts ++ addr ∷ [] }) lines

  -- The recipients in turn, up to the first whose relaying fails.
  unfoldable pub relay_all : W → Text → List Text → W × Bool
  relay_all w raw [] = (w, true)
  relay_all w raw (rcpt ∷ rcpts) =
      let next = service.relay w rcpt raw in
      let rest = relay_all next.0 raw rcpts in if next.1 then rest else (next.0, false)

  deliver : Session W → Result ReadError Text × List Text → Handled W
  unfolding relay_all
  deliver s (err e, lines) = go_on (start_data ∷ too_big ∷ []) s lines
  deliver s (ok raw, lines) =
      let relayed = relay_all s.world raw s.rcpts in
      go_on (start_data ∷ (if relayed.1 then okay else relay_failure) ∷ [])
        (record s { world = relayed.0 }) lines

  unfoldable pub handle_data : Session W → List Text → Handled W
  unfolding answer deliver
  handle_data s lines =
      if is_empty s.rcpts
      then answer need_recipient s lines
      else deliver s (read_data server.max_bytes lines)

  unfoldable pub handle : Command → Session W → List Text → Handled W
  unfolding answer handle_rcpt handle_data
  handle ehlo s lines = answer (extended_hello server.max_bytes) s lines
  handle helo s lines = answer hello s lines
  handle auth_plain s lines = answer authenticated (record s { is_authenticated = true }) lines
  handle mail_from s lines = answer okay (record s { rcpts = [] }) lines
  handle (rcpt_to argument) s lines = handle_rcpt argument s lines
  handle data_mail s lines = handle_data s lines
  handle rset s lines = answer okay (record s { rcpts = [] }) lines
  handle noop s lines = answer okay s lines
  handle quit s lines = closed (bye ∷ []) s
  handle unknown s lines = answer not_implemented s lines

  abbrev pub with_replies :
      List Reply → Option (List Reply × Session W) → Option (List Reply × Session W)
  with_replies before none = none
  with_replies before (some (replies, s)) = some (before ++ replies, s)

  -- The loop, on fuel; none without enough. `broken` tells whether the reader ends with an error
  -- that is not io.EOF.
  unfoldable pub serve : ℕ → Bool → List Text → Session W → Option (List Reply × Session W)
  unfolding handle
  serve zero broken lines s = none
  serve (suc fuel) broken [] s = some (if broken then read_error ∷ [] else [], s)
  serve (suc fuel) broken (line ∷ lines) s = elim (handle (command_of line) s lines) [
    | go_on replies next rest ↦ with_replies replies (serve fuel broken rest next)
    | closed replies next ↦ some (replies, next)
  ]

  unfoldable pub handle_conn : Bool → List Text → W → Option (List Reply × Session W)
  unfolding serve
  handle_conn broken lines w =
      let fresh : Session W = record { world = w; rcpts = []; is_authenticated = false } in
      let fuel = suc (length lines) in with_replies (ready ∷ []) (serve fuel broken lines fresh)
