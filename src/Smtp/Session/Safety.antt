-- ===== src/Smtp/Session/Safety.antt =====
-- internal/smtp/server.go: handleConn ends, and hands to the relay service only what it has checked.
use smtp_to_max_relay.Prelude.{
  ℕ, suc, zero, ◌≤◌, ◌<◌, Bool, true, false, ◌≡◌, refl, List, [], ◌∷◌, Option, none, some, arith,
  length, Bool-cases, inl, inr, is_empty, length-append, All, All-append, ◌++◌, subst, ap, sym,
}
use smtp_to_max_relay.Prelude.Result.{Result}
use smtp_to_max_relay.Prelude.Text.{Text}
use smtp_to_max_relay.Smtp.Data.{ReadError, byte_length, is_allowed_recipient, extract_smtp_path}
use smtp_to_max_relay.Smtp.Data.Laws.{read_data-IsRead, IsRead, ended, overflowed, broken_off}
use smtp_to_max_relay.Smtp.Session.{
  Command, Reply, RelayService, Server, Session, Handled, go_on, closed, handle, handle_data,
  handle_rcpt, relay_all, deliver, answer, serve, handle_conn, command_of, with_replies, ready,
  ehlo, helo, auth_plain, mail_from, rcpt_to, data_mail, rset, noop, quit, unknown,
}

-- A recipient that the session takes: not empty, of the allowed domain, and good for the parser.
pub record IsAccepted {W : Type 0} (server : Server) (service : RelayService W) (rcpt : Text)
    : Type 0 where
  pub nonempty : is_empty rcpt ≡ false
  pub of_domain : is_allowed_recipient rcpt server.domain ≡ true
  pub parsed : service.accepts rcpt ≡ true

-- Relaying an accepted recipient and a message within the limit keeps P.
abbrev pub Keeps : {W : Type 0} → Server → RelayService W → (W → Type 0) → Type 0
Keeps {W} server service P =
    (w : W) (rcpt raw : Text)
    → IsAccepted server service rcpt
    → byte_length raw ≤ server.max_bytes
    → P w
    → P (service.relay w rcpt raw).0

module _ {W : Type 0} (server : Server) (service : RelayService W) (P : W → Type 0) where
  pub IsSafe : Session W → Type 0
  IsSafe s = All (IsAccepted server service) s.rcpts × P s.world

  -- A command leaves a safe session, and no more lines than there were.
  Kept : ℕ → Handled W → Type 0
  unfolding IsSafe
  Kept n (go_on replies s rest) = (length rest ≤ n) × IsSafe s
  Kept n (closed replies s) = IsSafe s

  -- The loop has ended, with a safe session.
  pub Finished : Option (List Reply × Session W) → Type 0
  unfolding IsSafe
  Finished o = (r : List Reply × Session W) × (o ≡ some r) × IsSafe r.1

  handle_rcpt-Kept :
      (argument : Text) (s : Session W) (lines : List Text)
      → IsSafe s
      → Kept (length lines) (handle_rcpt server service argument s lines)
  unfolding Kept IsSafe answer handle_rcpt
  handle_rcpt-Kept argument s lines h =
      let addr = extract_smtp_path argument in
      elim (Bool-cases (is_empty addr)) [
        | inl e ↦ rw e (omega arith, h)
        | inr e ↦ elim (Bool-cases (is_allowed_recipient addr server.domain)) [
          | inr d ↦ rw (e, d) (omega arith, h)
          | inl d ↦ elim (Bool-cases (service.accepts addr)) [
            | inr p ↦ rw (e, d, p) (omega arith, h)
            | inl p ↦
                rw (e, d, p)
                  (
                    omega arith,
                    (
                      All-append (IsAccepted server service) s.rcpts (addr ∷ []) h.0
                          (record { nonempty = e; of_domain = d; parsed = p }, tt),
                      h.1,
                    ),
                  )
          ]
        ]
      ]

  module _ (keeps : Keeps server service P) where
    relay_all-kept :
        (w : W) (raw : Text) (rcpts : List Text)
        → byte_length raw ≤ server.max_bytes
        → All (IsAccepted server service) rcpts
        → P w
        → P (relay_all server service w raw rcpts).0
    unfolding relay_all
    relay_all-kept w raw [] small h p = p
    relay_all-kept w raw (rcpt ∷ rcpts) small (good, h) p =
        let next = service.relay w rcpt raw in
        let kept = keeps w rcpt raw good small p in
        elim (Bool-cases next.1) [
          | inl e ↦ rw e (relay_all-kept next.0 raw rcpts small h kept)
          | inr e ↦ rw e kept
        ]

    deliver-Kept :
        (lines : List Text) (s : Session W) (r : Result ReadError Text × List Text)
        → IsRead server.max_bytes [] lines r
        → IsSafe s
        → Kept (length lines) (deliver server service s r)
    unfolding Kept IsSafe deliver
    deliver-Kept lines s r (ended body mark rest h m e fits) safe = (
      omega (arith, ap length e, length-append body (mark ∷ rest)),
      (safe.0, relay_all-kept s.world _ s.rcpts fits safe.0 safe.1),
    )
    deliver-Kept lines s r (overflowed body rest h e large) safe =
        (omega (arith, ap length e, length-append body rest), safe)
    deliver-Kept lines s r (broken_off h fits) safe = (omega arith, safe)

    handle_data-Kept :
        (s : Session W) (lines : List Text)
        → IsSafe s
        → Kept (length lines) (handle_data server service s lines)
    unfolding Kept IsSafe answer handle_data
    handle_data-Kept s lines h = elim (Bool-cases (is_empty s.rcpts)) [
      | inl e ↦ rw e (omega arith, h)
      | inr e ↦ rw e (deliver-Kept lines s _ (read_data-IsRead server.max_bytes lines) h)
    ]

    handle-Kept :
        (command : Command) (s : Session W) (lines : List Text)
        → IsSafe s
        → Kept (length lines) (handle server service command s lines)
    unfolding handle Kept IsSafe answer
    handle-Kept ehlo s lines h = (omega arith, h)
    handle-Kept helo s lines h = (omega arith, h)
    handle-Kept auth_plain s lines h = (omega arith, h)
    handle-Kept mail_from s lines h = (omega arith, (tt, h.1))
    handle-Kept (rcpt_to argument) s lines h = handle_rcpt-Kept argument s lines h
    handle-Kept data_mail s lines h = handle_data-Kept s lines h
    handle-Kept rset s lines h = (omega arith, (tt, h.1))
    handle-Kept noop s lines h = (omega arith, h)
    handle-Kept quit s lines h = h
    handle-Kept unknown s lines h = (omega arith, h)

    with_replies-Finished :
        (replies : List Reply) (o : Option (List Reply × Session W))
        → Finished o
        → Finished (with_replies server service replies o)
    unfolding Finished IsSafe
    with_replies-Finished replies (some (later, s)) (r, e, safe) =
        let same : s ≡ r.1 = cc in
        ((replies ++ later, s), refl, subst (λ x. IsSafe x) (sym same) safe)
    with_replies-Finished replies none (r, e, safe) = cc

    -- Behind a command, given the rounds to come.
    after-Finished :
        (fuel : ℕ) (broken : Bool) (n : ℕ) (r : Handled W)
        → ((rest : List Text) (next : Session W)
            → length rest ≤ n
            → IsSafe next
            → Finished (serve server service fuel broken rest next))
        → Kept n r
        → Finished (elim r [
          | go_on replies next rest ↦
              with_replies server service replies (serve server service fuel broken rest next)
          | closed replies next ↦ some (replies, next)
        ])
    unfolding Kept Finished
    after-Finished fuel broken n (go_on replies next rest) rounds (fewer, good) =
        with_replies-Finished replies (serve server service fuel broken rest next)
          (rounds rest next fewer good)
    after-Finished fuel broken n (closed replies next) rounds good = ((replies, next), refl, good)

    serve-Finished :
        (fuel : ℕ) (broken : Bool) (lines : List Text) (s : Session W)
        → length lines < fuel
        → IsSafe s
        → Finished (serve server service fuel broken lines s)
    unfolding serve Finished
    serve-Finished zero broken lines s h safe = absurd (omega arith)
    serve-Finished (suc fuel) broken [] s h safe = (_, refl, safe)
    serve-Finished (suc fuel) broken (line ∷ lines) s h safe =
        after-Finished fuel broken (length lines) (handle server service (command_of line) s lines)
          (λ rest next fewer good.
            serve-Finished fuel broken rest next (omega (arith, fewer, h)) good)
          (handle-Kept (command_of line) s lines safe)

    -- The session ends for every input, on fuel for one more round than there are lines, and a property P
    -- of the relay service's state that holds before it holds behind it, when relaying keeps P for
    -- a recipient that is not empty, of the allowed domain and good for the parser, and for a
    -- message within the size limit: nothing else is relayed. The recipients left are such, too.
    pub handle_conn-Finished :
        (broken : Bool) (lines : List Text) (w : W)
        → P w
        → Finished (handle_conn server service broken lines w)
    unfolding handle_conn IsSafe
    handle_conn-Finished broken lines w p =
        with_replies-Finished (ready ∷ []) _
          (serve-Finished (suc (length lines)) broken lines _ (omega arith) (tt, p))
