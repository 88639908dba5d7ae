-- ===== src/Tests/Sessions.antt =====
-- internal/smtp at concrete inputs.
use smtp_to_max_relay.Prelude.{
  ℕ, Bool, true, false, List, [], ◌∷◌, Option, none, some, ◌≡◌, refl, arith, is_empty, ◌++◌, length,
  ◌≤◌, map, All,
}
use smtp_to_max_relay.Prelude.Result.{ok}
use smtp_to_max_relay.Prelude.Text.{Text, codes}
use smtp_to_max_relay.Smtp.Data.{read_data, dot_crlf, too_large}
use smtp_to_max_relay.Smtp.Data.Laws.{stuffed, concat, read_data-stuffed}
use smtp_to_max_relay.Smtp.Session.{
  RelayService, Server, Session, Reply, Handled, handle_data, handle_conn, serve, start_data,
  too_big, okay, ready, bye, not_implemented,
}
use smtp_to_max_relay.Smtp.Session.Safety.{Finished, Keeps, handle_conn-Finished, IsAccepted}
use smtp_to_max_relay.Smtp.Session.Commands.{IsData, handle_data-IsData, serve-oversized}

abbrev line_of : Text → Text
line_of t = t ++ 13 ∷ 10 ∷ []

abbrev dotted_lines : List Text
dotted_lines = line_of (codes "hi") ∷ line_of (codes ".") ∷ line_of (codes ".x") ∷ []

read_data-stuffed_example :
    read_data 20 (map stuffed dotted_lines ++ dot_crlf ∷ line_of (codes "QUIT") ∷ [])
    ≡ (ok (concat dotted_lines), line_of (codes "QUIT") ∷ [])
unfolding smtp_to_max_relay.Smtp.Data.byte_length concat smtp_to_max_relay.Smtp.Data.rune_size
read_data-stuffed_example =
    read_data-stuffed 20 dotted_lines (line_of (codes "QUIT") ∷ []) (omega arith)

abbrev small_server : Server
small_server = record { domain = codes "r.l"; max_bytes = 5 }

-- A service that keeps the recipients relayed to, and fails for none.
abbrev keeping_service : RelayService (List Text)
keeping_service = record { accepts = λ rcpt. true; relay = λ w rcpt raw. (rcpt ∷ w, true) }

abbrev one_recipient : Session (List Text)
one_recipient = record { world = []; rcpts = codes "a@r.l" ∷ []; is_authenticated = false }

handle_data-IsData_example :
    IsData small_server keeping_service one_recipient (line_of (codes "hi") ∷ dot_crlf ∷ []) (
      handle_data small_server keeping_service one_recipient (line_of (codes "hi") ∷ dot_crlf ∷ []))
handle_data-IsData_example =
    handle_data-IsData small_server keeping_service one_recipient
      (line_of (codes "hi") ∷ dot_crlf ∷ [])

-- The rest of a message that is too large is a command.
serve-oversized_example :
    serve small_server keeping_service 4 false
      (line_of (codes "DATA") ∷ line_of (codes "hello") ∷ line_of (codes "QUIT") ∷ [])
      one_recipient
    ≡ some (start_data ∷ too_big ∷ bye ∷ [], one_recipient)
unfolding smtp_to_max_relay.Smtp.Session.command_of smtp_to_max_relay.Prelude.Text.has_prefix
    smtp_to_max_relay.Prelude.Text.trim_right smtp_to_max_relay.Prelude.Text.trim_left
    smtp_to_max_relay.Prelude.Text.is_space smtp_to_max_relay.Smtp.Session.upper_rune
    smtp_to_max_relay.Prelude.Text.text_eq read_data smtp_to_max_relay.Smtp.Data.read_lines
    smtp_to_max_relay.Smtp.Data.byte_length smtp_to_max_relay.Smtp.Data.unstuffed
    smtp_to_max_relay.Smtp.Data.rune_size serve
serve-oversized_example =
    serve-oversized small_server keeping_service 3 false (line_of (codes "DATA")) []
      (line_of (codes "hello")) (line_of (codes "QUIT") ∷ []) one_recipient refl refl tt refl
      (omega arith) (omega arith)

abbrev session_lines : List Text
session_lines =
    line_of (codes "ehlo me")
    ∷ line_of (codes "MAIL FROM:<x>")
    ∷ line_of (codes "rcpt to:<a@r.l>")
    ∷ line_of (codes "DATA")
    ∷ line_of (codes "hi")
    ∷ dot_crlf
    ∷ line_of (codes "QUIT")
    ∷ []

-- Every recipient relayed to is one of the domain.
abbrev OfDomain : List Text → Type 0
OfDomain w = All (IsAccepted small_server keeping_service) w

OfDomain-kept : Keeps small_server keeping_service OfDomain
OfDomain-kept w rcpt raw good small h = (good, h)

handle_conn-Finished_example :
    Finished small_server keeping_service OfDomain
      (handle_conn small_server keeping_service false session_lines [])
handle_conn-Finished_example =
    handle_conn-Finished small_server keeping_service OfDomain OfDomain-kept false session_lines []
      tt
