-- ===== src/Smtp/Listen.antt =====
-- internal/smtp/server.go: ListenAndServe, which starts a session for each connection, at most so many at a time.
-- A state is between two events: what Accept gives, the slot that is taken in `concurrency`, the end of a
-- session, the end of the context. An event that cannot happen in a state leads nowhere.
pub mod Slots
use smtp_to_max_relay.Prelude.{
  ℕ, ◌+◌, ◌≤◌, Bool, true, false, not, List, [], ◌∷◌, Option, none, some, if◌then◌else◌, ltb, ◌==◌,
  filter, any, length, is_empty,
}
use smtp_to_max_relay.Prelude.Text.{Text}
use smtp_to_max_relay.Prelude.Decimal.{word}

-- Where the loop is: in Accept, at the channel with a connection, at the deferred Wait, or behind it with
-- the error that is returned.
pub data Phase : Type 0 where
  accepting waiting : Phase
  closing returned : Option Text → Phase

pub record Listener : Type 0 where
  pub phase : Phase
  pub cancelled : Bool
  pub max_sessions : ℕ
  pub session_seq : ℕ
  pub running : List ℕ

-- NewServer and the start of ListenAndServe
unfoldable pub new_listener : ℕ → Listener
new_listener max_sessions = record {
  phase = accepting;
  cancelled = false;
  max_sessions = max_sessions;
  session_seq = 0;
  running = [];
}

pub data Event : Type 0 where
  accepted slot_taken context_done all_done : Event
  accept_failed : Bool → Text → Event
  session_done : ℕ → Event

-- The error of Accept: the context's end, a temporary error, or any other.
unfoldable pub after_accept_error : Bool → Text → Listener → Listener
after_accept_error temporary e l =
    if l.cancelled
    then record l { phase = closing none }
    else if temporary
    then l
    else record l { phase = closing (some e) }

unfoldable pub start_session : Listener → Listener
start_session l =
    let id = word (l.session_seq + 1) in
    record l { phase = accepting; session_seq = id; running = id ∷ l.running }

abbrev pub is_running : ℕ → List ℕ → Bool
is_running id ids = any (λ i. i == id) ids

unfoldable pub end_session : ℕ → Listener → Option Listener
end_session id l =
    if is_running id l.running
    then some (record l { running = filter (λ i. not (i == id)) l.running })
    else none

unfoldable pub in_phase : Phase → Event → Listener → Option Listener
unfolding after_accept_error start_session
in_phase accepting accepted l = some (record l { phase = waiting })
in_phase accepting (accept_failed temporary e) l = some (after_accept_error temporary e l)
in_phase waiting slot_taken l =
    if ltb (length l.running) l.max_sessions then some (start_session l) else none
in_phase (closing e) all_done l =
    if is_empty l.running then some (record l { phase = returned e }) else none
in_phase _ _ l = none

unfoldable pub step : Event → Listener → Option Listener
unfolding in_phase end_session
step context_done l = some (record l { cancelled = true })
step (session_done id) l = end_session id l
step event l = in_phase l.phase event l

unfoldable pub run : List Event → Listener → Option Listener
run [] l = some l
run (event ∷ events) l = elim (step event l) [ none ↦ none | some next ↦ run events next ]
