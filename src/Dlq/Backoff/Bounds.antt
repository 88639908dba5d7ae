-- ===== src/Dlq/Backoff/Bounds.antt =====
-- The delay is exponential, bounded, and the same in the worker and for the administrator.
use native.Mathlib.Nat.{mod-lt, pow-suc}
use smtp_to_max_relay.Prelude.{
  ℕ, zero, suc, ◌+◌, ◌-◌, ◌*◌, ◌%◌, ◌^◌, ◌≤◌, ◌<◌, ◌||◌, ◌≡◌, ◌⊎◌, arith, if◌then◌else◌, ltb, inl,
  inr, Bool-cases,
}
use smtp_to_max_relay.Dlq.Backoff.{
  int64_modulus, is_below, shifted, max_or_default, base_or_default, attempt_or_one,
  jitter_or_default, next_delay, Delays, rand_int63n, worker_next_delay,
}

-- The delay never exceeds the limit, and is not shorter than the base unless the limit is.
pub next_delay_bounds :
    (attempt base max : ℕ)
    → (next_delay attempt base max ≤ max_or_default max)
      × ((base_or_default base ≤ next_delay attempt base max)
          ⊎ (next_delay attempt base max ≡ max_or_default max))
unfolding next_delay
next_delay_bounds attempt base max = ground arith

pow_pos : (n : ℕ) → 1 ≤ 2 ^ n
pow_pos zero = omega arith
pow_pos (suc n) = omega (arith, pow_pos n, pow-suc 2 n)

le-mul_pos : (b p : ℕ) → 1 ≤ p → b ≤ b * p
le-mul_pos b p h = grind arith

one_test :
    (x base max : ℕ)
    → base ≤ x
    → x < 2 ^ 63
    → (if is_below x base || ltb max x then max else x) ≡ (if ltb max x then max else x)
one_test x base max h k = ground arith

small_shift : (x : ℕ) → x < 2 ^ 63 → x % int64_modulus ≡ x
small_shift x h = omega arith

-- The base, doubled for each attempt after the first, up to the limit: exactly that, while the
-- doubled base is an int64.
next_delay-eq :
    (attempt base max : ℕ)
    → let grown = base_or_default base * 2 ^ (attempt_or_one attempt - 1) in
      grown < 2 ^ 63
      → next_delay attempt base max
        ≡ (if ltb (max_or_default max) grown then max_or_default max else grown)
unfolding next_delay shifted
next_delay-eq attempt base max h =
    let b = base_or_default base in
    let p = 2 ^ (attempt_or_one attempt - 1) in
    rw (small_shift (b * p) h) (
      one_test (b * p) b (max_or_default max)
        (le-mul_pos b p (pow_pos (attempt_or_one attempt - 1))) h)

two_tests :
    (d base max : ℕ)
    → let grown = if is_below d base then max else d in
      (if ltb max grown then max else grown) ≡ (if is_below d base || ltb max d then max else d)
two_tests d base max = ground arith

worker_core :
    (d base max r : ℕ)
    → max + r < 2 ^ 63
    → let grown = if is_below d base then max else d in
      ((if ltb max grown then max else grown) + r) % int64_modulus
      ≡ (if is_below d base || ltb max d then max else d) + r
worker_core d base max r h =
    rw (two_tests d base max)
      (small_shift ((if is_below d base || ltb max d then max else d) + r) (ground arith))

jitter_below : (j draw : ℕ) → 0 < j → rand_int63n j draw < j
unfolding rand_int63n
jitter_below j draw h = ground (arith, mod-lt draw h)

-- The worker waits the administrator's delay and a jitter below its bound.
worker_next_delay-eq :
    (w : Delays) (attempt draw : ℕ)
    → max_or_default w.max_delay + jitter_or_default w.random_jitter ≤ 2 ^ 63
    → (r : ℕ) × (r < jitter_or_default w.random_jitter)
      × (worker_next_delay w attempt draw ≡ next_delay attempt w.base_delay w.max_delay + r)
unfolding worker_next_delay next_delay
worker_next_delay-eq w attempt draw h =
    let j = jitter_or_default w.random_jitter in
    let r = rand_int63n j draw in
    let below = jitter_below j draw (ground arith) in
    (
      r,
      below,
      worker_core (shifted (base_or_default w.base_delay) (attempt_or_one attempt))
          (base_or_default w.base_delay) (max_or_default w.max_delay) r (omega (arith, below)),
    )

-- The worker waits the delay of the administrator's replay and a jitter below its bound. The delay is the
-- base, doubled for each attempt after the first, or the limit when that is smaller, while the doubled base
-- is below 2^63; it is never longer than the limit, nor shorter than the base unless it is the limit. The
-- limit and the jitter fit in an int64.
pub worker_next_delay_lem :
    (w : Delays) (attempt draw : ℕ)
    → max_or_default w.max_delay + jitter_or_default w.random_jitter ≤ 2 ^ 63
    → let delay = next_delay attempt w.base_delay w.max_delay in
      let limit = max_or_default w.max_delay in
      let grown = base_or_default w.base_delay * 2 ^ (attempt_or_one attempt - 1) in
      ((r : ℕ) × (r < jitter_or_default w.random_jitter)
        × (worker_next_delay w attempt draw ≡ delay + r))
      × ((delay ≡ (if ltb limit grown then limit else grown)) ⊎ (2 ^ 63 ≤ grown))
      × (delay ≤ limit)
      × ((base_or_default w.base_delay ≤ delay) ⊎ (delay ≡ limit))
worker_next_delay_lem w attempt draw h =
    let bounds = next_delay_bounds attempt w.base_delay w.max_delay in
    let grown = base_or_default w.base_delay * 2 ^ (attempt_or_one attempt - 1) in
    (
      worker_next_delay-eq w attempt draw h,
      elim (Bool-cases (ltb grown (2 ^ 63))) [
        | inl e ↦ inl (next_delay-eq attempt w.base_delay w.max_delay (ground arith))
        | inr e ↦ inr (ground arith)
      ],
      bounds.0,
      bounds.1,
    )
