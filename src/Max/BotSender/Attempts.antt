-- ===== src/Max/BotSender/Attempts.antt =====
-- internal/max/bot_sender.go: a file message is tried again only while the attachment is not ready.
use smtp_to_max_relay.Prelude.{
  ℕ, zero, suc, ◌+◌, ◌≤◌, ◌<◌, Bool, true, false, not, ◌||◌, List, [], ◌∷◌, Option, none, some, ◌≡◌,
  ◌≢◌, refl, ◌⊎◌, inl, inr, arith, ◌==◌, Bool-cases,
}
use smtp_to_max_relay.Max.BotSender.{
  ApiFailure, file_failed, context_ended, exhausted_retries, FileSend, next_retry_delay, wait_for,
  after_attempt, send_attempts, send_file_message, attachment_ready_retry_delay,
}

unfoldable pub total : List ℕ → ℕ
total [] = 0
total (d ∷ ds) = d + total ds

-- The sum of so many delays.
longest : ℕ → ℕ → ℕ
longest zero delay = 0
longest (suc n) delay = delay + longest n (next_retry_delay delay)

module _ (answer : ℕ → Option ApiFailure) (ended : ℕ → Bool) where
  -- The attempts from one on, with the delay that is next: the last one is answered well, or fails for
  -- good, or the context ends in the delay behind it; any other found the attachment not ready.
  pub data Ran : ℕ → ℕ → FileSend → Type 0 where
    sent :
        (attempt delay : ℕ)
        → answer attempt ≡ none
        → Ran attempt delay (record { calls = attempt + 1; waited = []; failure = none })
    gave_up :
        (attempt delay : ℕ) (e : ApiFailure)
        → answer attempt ≡ some e
        → (e.attachment_not_ready ≡ false) ⊎ (attempt ≡ 4)
        → Ran attempt delay
            (record { calls = attempt + 1; waited = []; failure = some (file_failed e) })
    stopped :
        (attempt delay : ℕ) (e : ApiFailure)
        → answer attempt ≡ some e
        → e.attachment_not_ready ≡ true
        → ended attempt ≡ true
        → Ran attempt delay
            (record { calls = attempt + 1; waited = []; failure = some context_ended })
    again :
        (attempt delay : ℕ) (e : ApiFailure) (rest : FileSend)
        → answer attempt ≡ some e
        → e.attachment_not_ready ≡ true
        → ended attempt ≡ false
        → attempt ≢ 4
        → Ran (attempt + 1) (next_retry_delay delay) rest
        → Ran attempt delay (record rest { waited = delay ∷ rest.waited })

  after_attempt-Ran :
      (attempt delay : ℕ) (a : Option ApiFailure) (rest : FileSend)
      → answer attempt ≡ a
      → (attempt ≢ 4 → Ran (attempt + 1) (next_retry_delay delay) rest)
      → Ran attempt delay (after_attempt answer ended attempt delay a rest)
  unfolding after_attempt wait_for
  after_attempt-Ran attempt delay none rest e h = sent attempt delay e
  after_attempt-Ran attempt delay (some f) rest e h =
      elim (Bool-cases (not f.attachment_not_ready || attempt == 4)) [
        | inl x ↦ rw x (gave_up attempt delay f e (ground (arith, x)))
        | inr x ↦ elim (Bool-cases (ended attempt)) [
          | inl y ↦ rw (x, y) (stopped attempt delay f e (ground (arith, x)) y)
          | inr y ↦
              rw (x, y)
                (again attempt delay f rest e (ground (arith, x)) y (ground (arith, x))
                  (h (ground (arith, x))))
        ]
      ]

  send_attempts-Ran :
      (fuel attempt delay : ℕ)
      → attempt + fuel ≡ 5
      → 0 < fuel
      → Ran attempt delay (send_attempts answer ended fuel attempt delay)
  unfolding send_attempts
  send_attempts-Ran zero attempt delay h pos = absurd (omega (arith, pos))
  send_attempts-Ran (suc fuel) attempt delay h pos =
      after_attempt-Ran attempt delay (answer attempt)
        (send_attempts answer ended fuel (attempt + 1) (next_retry_delay delay)) refl
        (λ n.
          send_attempts-Ran fuel (attempt + 1) (next_retry_delay delay) (omega (arith, h))
            (omega (arith, n, h)))

  calls_lem :
      (attempt delay : ℕ) (r : FileSend)
      → Ran attempt delay r
      → attempt ≤ 4
      → (attempt < r.calls) × (r.calls ≤ 5)
  calls_lem attempt delay r (sent _ _ e) h = (omega arith, omega (arith, h))
  calls_lem attempt delay r (gave_up _ _ f e g) h = (omega arith, omega (arith, h))
  calls_lem attempt delay r (stopped _ _ f e g d) h = (omega arith, omega (arith, h))
  calls_lem attempt delay r (again _ _ f rest e g d n next) h =
      let b = calls_lem (attempt + 1) (next_retry_delay delay) rest next (omega (arith, h, n)) in
      (omega (arith, b), omega (arith, b))

  waited_lem :
      (left attempt delay : ℕ) (r : FileSend)
      → Ran attempt delay r
      → attempt + left ≡ 4
      → total r.waited ≤ longest left delay
  unfolding longest total
  waited_lem left attempt delay r (sent _ _ e) h = omega arith
  waited_lem left attempt delay r (gave_up _ _ f e g) h = omega arith
  waited_lem left attempt delay r (stopped _ _ f e g d) h = omega arith
  waited_lem zero attempt delay r (again _ _ f rest e g d n next) h = absurd (omega (arith, n, h))
  waited_lem (suc left) attempt delay r (again _ _ f rest e g d n next) h =
      omega
        (arith, waited_lem left (attempt + 1) (next_retry_delay delay) rest next (omega (arith, h)))

  not_exhausted :
      (attempt delay : ℕ) (r : FileSend) → Ran attempt delay r → r.failure ≢ some exhausted_retries
  not_exhausted attempt delay r (sent _ _ e) x = cc
  not_exhausted attempt delay r (gave_up _ _ f e g) x = cc
  not_exhausted attempt delay r (stopped _ _ f e g d) x = cc
  not_exhausted attempt delay r (again _ _ f rest e g d n next) x =
      not_exhausted (attempt + 1) (next_retry_delay delay) rest next x

  -- A file message is sent one to five times. It is sent again only behind an answer that the attachment is
  -- not ready, and while the context has not ended; the delay is 300 ms at first and doubled as long as it
  -- is below 2 s, which is 4.5 s in all at most. It ends with an answer that is good, with the error of
  -- the last answer, or with that of the context, and never with the error behind the loop.
  pub send_file_message-Ran :
      let r = send_file_message answer ended in
      Ran 0 attachment_ready_retry_delay r
      × (0 < r.calls)
      × (r.calls ≤ 5)
      × (total r.waited ≤ 4500000000)
      × (r.failure ≢ some exhausted_retries)
  unfolding send_file_message longest
  send_file_message-Ran =
      let r = send_file_message answer ended in
      let ran : Ran 0 attachment_ready_retry_delay r =
        send_attempts-Ran 5 0 attachment_ready_retry_delay refl (omega arith) in
      let calls = calls_lem 0 attachment_ready_retry_delay r ran (omega arith) in
      (
        ran,
        calls.0,
        calls.1,
        waited_lem 4 0 attachment_ready_retry_delay r ran refl,
        not_exhausted 0 attachment_ready_retry_delay r ran,
      )
