-- ===== src/Relay/Retry.antt =====
-- internal/relay/service.go: sendWithRetry. The calls of the sender are numbered; the environment
-- says what each gives, and whether the context is done while the delay behind it is waited for.
-- A negative limit is 0. The length of the delay is not modelled.
use smtp_to_max_relay.Prelude.{
  ℕ, zero, suc, ◌+◌, ◌≤◌, ◌<◌, Bool, true, false, Option, none, some, ◌≡◌, refl, subst, inl, inr,
  arith, Bool-cases, Option-cases,
}
use smtp_to_max_relay.Prelude.Text.{Text}

pub record Reply : Type 0 where
  pub failure : Option Text
  pub cancelled : Bool

pub data SendError : Type 0 where
  refused : Text → SendError
  context_done : SendError

-- What the retries leave: the error, and the number of the next call.
pub record Sent : Type 0 where
  pub failed : Option SendError
  pub next_call : ℕ

-- Behind a failed call: give up, or wait and go on.
after_failure : Bool → Text → ℕ → Sent → Sent
after_failure true e call rest = record { failed = some context_done; next_call = call + 1 }
after_failure false e call rest = rest

-- The loop from call `call`, with `left` more attempts behind it.
unfoldable pub attempts : (ℕ → Reply) → ℕ → ℕ → Sent
unfolding after_failure
attempts env zero call = elim (env call).failure [
  | none ↦ record { failed = none; next_call = call + 1 }
  | some e ↦ record { failed = some (refused e); next_call = call + 1 }
]
attempts env (suc left) call = elim (env call).failure [
  | none ↦ record { failed = none; next_call = call + 1 }
  | some e ↦ after_failure (env call).cancelled e call (attempts env left (call + 1))
]

unfoldable pub send_with_retry : (ℕ → Reply) → ℕ → ℕ → Sent
unfolding attempts
send_with_retry env max_retries call = attempts env max_retries call

-- The calls from the first on, up to one that succeeds or is the last: each failed, and the
-- context was not done behind it.
pub data Failed (env : ℕ → Reply) (call : ℕ) : ℕ → Type 0 where
  start : Failed env call call
  again :
      {n : ℕ} {e : Text}
      → Failed env call n
      → (env n).failure ≡ some e
      → (env n).cancelled ≡ false
      → Failed env call (suc n)

-- How the retries end: with a call that succeeds, with the last call allowed, or with the context.
pub data Ends (env : ℕ → Reply) (last call : ℕ) (r : Sent) : Type 0 where
  delivered :
      (n : ℕ)
      → Failed env call n
      → (env n).failure ≡ none
      → n ≤ last
      → r.failed ≡ none
      → r.next_call ≡ n + 1
      → Ends env last call r
  exhausted :
      {e : Text}
      → Failed env call last
      → (env last).failure ≡ some e
      → r.failed ≡ some (refused e)
      → r.next_call ≡ last + 1
      → Ends env last call r
  interrupted :
      (n : ℕ) {e : Text}
      → Failed env call n
      → (env n).failure ≡ some e
      → (env n).cancelled ≡ true
      → n < last
      → r.failed ≡ some context_done
      → r.next_call ≡ n + 1
      → Ends env last call r

Failed-before :
    (env : ℕ → Reply) (call n : ℕ) {e : Text}
    → (env call).failure ≡ some e
    → (env call).cancelled ≡ false
    → Failed env (suc call) n
    → Failed env call n
Failed-before env call n f c start = again start f c
Failed-before env call n f c (again h f' c') = again (Failed-before env call _ f c h) f' c'

Ends-before :
    (env : ℕ → Reply) (last call : ℕ) (r : Sent) {e : Text}
    → (env call).failure ≡ some e
    → (env call).cancelled ≡ false
    → Ends env last (suc call) r
    → Ends env last call r
Ends-before env last call r f c (delivered n h ok le e n') =
    delivered n (Failed-before env call n f c h) ok le e n'
Ends-before env last call r f c (exhausted h bad e n') =
    exhausted (Failed-before env call last f c h) bad e n'
Ends-before env last call r f c (interrupted n h bad done lt e n') =
    interrupted n (Failed-before env call n f c h) bad done lt e n'

last_attempt-Ends : (env : ℕ → Reply) (call : ℕ) → Ends env call call (attempts env zero call)
unfolding attempts
last_attempt-Ends env call = elim (Option-cases (env call).failure) [
  | inl e ↦ delivered call start e (omega arith) (rw (attempts, e)) (rw (attempts, e))
  | inr (x, e) ↦ exhausted start e (rw (attempts, e)) (rw (attempts, e))
]

attempts-Ends :
    (env : ℕ → Reply) (left call : ℕ) → Ends env (call + left) call (attempts env left call)
unfolding attempts
attempts-Ends env zero call =
    let same : call + 0 ≡ call = omega arith in rw same (last_attempt-Ends env call)
attempts-Ends env (suc left) call =
    let later = attempts-Ends env left (call + 1) in
    let reached : call + 1 + left ≡ call + suc left = omega arith in
    let after : call + 1 ≡ suc call = omega arith in
    elim (Option-cases (env call).failure) [
      | inl e ↦ delivered call start e (omega arith) (rw (attempts, e)) (rw (attempts, e))
      | inr (x, e) ↦ elim (Bool-cases (env call).cancelled) [
        | inl c ↦
            interrupted call start e c (omega arith) (rw (attempts, e, after_failure, c))
              (rw (attempts, e, after_failure, c))
        | inr c ↦
            subst (λ r. Ends env (call + suc left) call r) (rw (attempts, e, after_failure, c) refl)
              (Ends-before env (call + suc left) call (attempts env left (call + 1)) e c (
                subst (λ n. Ends env n (suc call) (attempts env left (call + 1))) reached
                  (subst (λ n. Ends env (call + 1 + left) n (attempts env left (call + 1))) after
                    later)))
      ]
    ]

-- The sender is called at most `max_retries + 1` times, in order, and the retries end with the
-- first call that succeeds, with the error of the last call allowed, or with the context's.
pub send_with_retry-Ends :
    (env : ℕ → Reply) (max_retries call : ℕ)
    → Ends env (call + max_retries) call (send_with_retry env max_retries call)
unfolding send_with_retry
send_with_retry-Ends env max_retries call = attempts-Ends env max_retries call
