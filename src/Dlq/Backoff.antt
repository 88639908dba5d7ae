-- ===== src/Dlq/Backoff.antt =====
-- internal/dlq/worker.go, admin.go: the delay before the next attempt. A duration is the residue
-- mod 2^64 of an int64 of nanoseconds. The configured ones are not negative, or 0 stands for them.
pub mod Bounds
use smtp_to_max_relay.Prelude.{
  ℕ, ◌+◌, ◌-◌, ◌*◌, ◌%◌, ◌^◌, Bool, ◌||◌, if◌then◌else◌, ltb, leb, ◌==◌,
}

abbrev pub second : ℕ
second = 1000000000

abbrev pub millisecond : ℕ
millisecond = 1000000

abbrev pub int64_modulus : ℕ
int64_modulus = 2 ^ 64

-- x < y for int64, where y is not negative
abbrev pub is_below : ℕ → ℕ → Bool
is_below x y = leb (2 ^ 63) x || ltb x y

-- base << (attempt - 1)
unfoldable pub shifted : ℕ → ℕ → ℕ
shifted base attempt = (base * 2 ^ (attempt - 1)) % int64_modulus

abbrev pub duration_or : ℕ → ℕ → ℕ
duration_or d default = if d == 0 then default else d

abbrev pub max_or_default : ℕ → ℕ
max_or_default max = duration_or max (5 * 60 * second)

abbrev pub base_or_default : ℕ → ℕ
base_or_default base = duration_or base second

abbrev pub attempt_or_one : ℕ → ℕ
attempt_or_one attempt = if ltb attempt 1 then 1 else attempt

-- nextDelay of admin.go
unfoldable pub next_delay : ℕ → ℕ → ℕ → ℕ
next_delay attempt base max =
    let d = shifted (base_or_default base) (attempt_or_one attempt) in
    if is_below d (base_or_default base) || ltb (max_or_default max) d
    then max_or_default max
    else d

pub record Delays : Type 0 where
  pub base_delay : ℕ
  pub max_delay : ℕ
  pub random_jitter : ℕ

-- randInt63n; `draw` is what the source of random numbers gives.
unfoldable pub rand_int63n : ℕ → ℕ → ℕ
rand_int63n n draw = if n == 0 then 0 else draw % n

abbrev pub jitter_or_default : ℕ → ℕ
jitter_or_default j = duration_or j (250 * millisecond)

-- Worker.nextDelay in two tests, and the jitter.
unfoldable pub worker_next_delay : Delays → ℕ → ℕ → ℕ
unfolding rand_int63n
worker_next_delay w attempt draw =
    let base = base_or_default w.base_delay in
    let max = max_or_default w.max_delay in
    let shifted_delay = shifted base (attempt_or_one attempt) in
    let grown = if is_below shifted_delay base then max else shifted_delay in
    let capped = if ltb max grown then max else grown in
    (capped + rand_int63n (jitter_or_default w.random_jitter) draw) % int64_modulus
