-- ===== src/Smtp/Session/Commands.antt =====
-- internal/smtp/server.go: what DATA does for each outcome of the reading and of the relaying.
use smtp_to_max_relay.Prelude.{
  ℕ, suc, ◌+◌, ◌≤◌, ◌<◌, Bool, true, false, ◌≡◌, refl, List, [], ◌∷◌, arith, Bool-cases, inl, inr,
  is_empty, ◌++◌, ap, if◌then◌else◌,
}
use smtp_to_max_relay.Prelude.Result.{ok, err, Result}
use smtp_to_max_relay.Prelude.Text.{Text}
use smtp_to_max_relay.Smtp.Data.{ReadError, read_data, is_end, byte_length, unstuffed}
use smtp_to_max_relay.Smtp.Data.Laws.{Body, taken, read_data-oversized}
use smtp_to_max_relay.Smtp.Session.{
  RelayService, Server, Session, Handled, go_on, handle_data, relay_all, deliver, answer,
  start_data, too_big, okay, relay_failure, need_recipient, command_of, data_mail, serve, handle,
  with_replies,
}

module _ {W : Type 0} (server : Server) (service : RelayService W) where
  -- Recipients relayed with success, one behind the other.
  pub data Relayed (raw : Text) : W → List Text → W → Type 0 where
    stop : {w : W} → Relayed raw w [] w
    one_more :
        {w v : W} (rcpt : Text) {rcpts : List Text}
        → (service.relay w rcpt raw).1 ≡ true
        → Relayed raw (service.relay w rcpt raw).0 rcpts v
        → Relayed raw w (rcpt ∷ rcpts) v

  -- All were relayed, or those before the first that failed, which was the last one tried.
  pub data Relaying (raw : Text) (w : W) (rcpts : List Text) : W × Bool → Type 0 where
    complete : {v : W} → Relayed raw w rcpts v → Relaying raw w rcpts (v, true)
    stopped :
        {v : W} (before : List Text) (rcpt : Text) (behind : List Text)
        → rcpts ≡ before ++ rcpt ∷ behind
        → Relayed raw w before v
        → (service.relay v rcpt raw).1 ≡ false
        → Relaying raw w rcpts ((service.relay v rcpt raw).0, false)

  Relaying-cons :
      (raw : Text) (w : W) (rcpt : Text) (rcpts : List Text) (r : W × Bool)
      → (service.relay w rcpt raw).1 ≡ true
      → Relaying raw (service.relay w rcpt raw).0 rcpts r
      → Relaying raw w (rcpt ∷ rcpts) r
  Relaying-cons raw w rcpt rcpts r good (complete all) = complete (one_more rcpt good all)
  Relaying-cons raw w rcpt rcpts r good (stopped before bad behind e all f) =
      stopped (rcpt ∷ before) bad behind (ap (λ l. rcpt ∷ l) e) (one_more rcpt good all) f

  relay_all-Relaying :
      (raw : Text) (w : W) (rcpts : List Text)
      → Relaying raw w rcpts (relay_all server service w raw rcpts)
  unfolding relay_all
  relay_all-Relaying raw w [] = complete stop
  relay_all-Relaying raw w (rcpt ∷ rcpts) =
      let next = service.relay w rcpt raw in
      elim (Bool-cases next.1) [
        | inl e ↦ rw e (Relaying-cons raw w rcpt rcpts _ e (relay_all-Relaying raw next.0 rcpts))
        | inr e ↦ rw e (stopped [] rcpt rcpts refl stop e)
      ]

  -- What DATA leaves: it is refused without a recipient. With one, the message is refused, and nothing
  -- relayed; or the message is relayed to the recipients in turn, and 250 is the reply just when
  -- it is to all of them. The recipients stay as they were.
  pub data IsData (s : Session W) (lines : List Text) : Handled W → Type 0 where
    no_recipient : s.rcpts ≡ [] → IsData s lines (go_on (need_recipient ∷ []) s lines)
    refused :
        {e : ReadError} {rest : List Text}
        → is_empty s.rcpts ≡ false
        → read_data server.max_bytes lines ≡ (err e, rest)
        → IsData s lines (go_on (start_data ∷ too_big ∷ []) s rest)
    accepted :
        {raw : Text} {rest : List Text} {v : W}
        → is_empty s.rcpts ≡ false
        → read_data server.max_bytes lines ≡ (ok raw, rest)
        → Relayed raw s.world s.rcpts v
        → IsData s lines (go_on (start_data ∷ okay ∷ []) (record s { world = v }) rest)
    failed :
        {raw : Text} {rest : List Text} {v : W}
        → is_empty s.rcpts ≡ false
        → read_data server.max_bytes lines ≡ (ok raw, rest)
        → Relaying raw s.world s.rcpts (v, false)
        → IsData s lines (go_on (start_data ∷ relay_failure ∷ []) (record s { world = v }) rest)

  deliver-IsData :
      (s : Session W) (lines : List Text) (r : Result ReadError Text × List Text)
      → is_empty s.rcpts ≡ false
      → read_data server.max_bytes lines ≡ r
      → IsData s lines (deliver server service s r)
  unfolding deliver
  deliver-IsData s lines (err e, rest) n h = refused n h
  deliver-IsData s lines (ok raw, rest) n h =
      relayed_to (relay_all server service s.world raw s.rcpts)
        (relay_all-Relaying raw s.world s.rcpts)
    where
      relayed_to :
          (r : W × Bool)
          → Relaying raw s.world s.rcpts r
          → IsData s lines (
              go_on
                (start_data ∷ (if r.1 then okay else relay_failure) ∷ [])
                (record s { world = r.0 })
                rest)
      relayed_to (v, _) (complete all) = accepted n h all
      relayed_to (v, _) (stopped before bad behind e all f) =
          failed n h (stopped before bad behind e all f)

  -- DATA is refused without a recipient; otherwise it reads the message, and refuses it and relays
  -- nothing when that fails, or relays it to the recipients in the order in which they were named, up
  -- to the first failure, and says 250 when none failed and 451 when one did. The recipients are
  -- kept in every case, those of a message just delivered too.
  pub handle_data-IsData :
      (s : Session W) (lines : List Text) → IsData s lines (handle_data server service s lines)
  unfolding handle_data answer
  handle_data-IsData s lines = elim (Bool-cases (is_empty s.rcpts)) [
    | inl e ↦ rw e (no_recipient (ground arith))
    | inr e ↦ rw e (deliver-IsData s lines (read_data server.max_bytes lines) e refl)
  ]

  -- A message over the limit is cut: the lines `body` are none of them the end mark and fit in the limit,
  -- and the line behind them, which is not the end mark either, does not. Then DATA answers that the
  -- message is too big, and every line of it that comes later is taken for a command, in a session that
  -- still has its recipients.
  pub serve-oversized :
      (fuel : ℕ) (broken : Bool) (line : Text) (body : List Text) (over : Text) (rest : List Text)
      (s : Session W)
      → command_of line ≡ data_mail
      → is_empty s.rcpts ≡ false
      → Body body
      → is_end over ≡ false
      → byte_length (taken [] body) ≤ server.max_bytes
      → server.max_bytes < byte_length (taken [] body) + byte_length (unstuffed over)
      → serve server service (suc fuel) broken (line ∷ body ++ over ∷ rest) s
        ≡ with_replies server service
            (start_data ∷ too_big ∷ [])
            (serve server service fuel broken rest s)
  unfolding serve handle handle_data deliver
  serve-oversized fuel broken line body over rest s c n b e small large =
      rw
        (
          serve,
          c,
          handle,
          handle_data,
          n,
          read_data-oversized server.max_bytes body over rest b e small large,
          deliver,
        )
        refl
