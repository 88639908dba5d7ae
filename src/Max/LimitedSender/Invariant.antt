-- ===== src/Max/LimitedSender/Invariant.antt =====
-- internal/max/limited_sender.go: what holds between the goroutines of the limiter.
use smtp_to_max_relay.Prelude.{
  ◌+◌, ◌≤◌, ◌<◌, Bool, true, false, List, [], ◌∷◌, Option, none, some, ◌≡◌, refl, arith, ◌==◌,
  Bool-cases, inl, inr, subst,
}
use smtp_to_max_relay.Max.LimitedSender.{
  RateLimiterConfig, Limiter, Event, new_rate_limited_sender, step, run_events, when, tick, admit,
  miss, cancel_early, take_slot, turn_away, announce, grant, time_out, cancel, release, retract,
}

-- The slots are those of the callers between taking and releasing one; the depth counts those between
-- its two updates; the calls let through are paid for by the burst and the ticks.
abbrev pub IsLimiter : Limiter → Type 0
IsLimiter l =
    (l.queue_slots ≡ l.entered + l.waiting + l.leaving)
    × (l.queue_depth ≡ l.waiting + l.leaving + l.released)
    × (l.queue_slots ≤ l.capacity)
    × (l.tokens ≤ l.burst)
    × (l.passed + l.tokens ≤ l.burst + l.ticks)

-- A result, if there is one, is a good state.
Good : Option Limiter → Type 0
Good none = Unit
Good (some l) = IsLimiter l

when-Good : (b : Bool) (l : Limiter) → (b ≡ true → IsLimiter l) → Good (when b l)
unfolding Good
when-Good true l h = h refl
when-Good false l h = tt

step-IsLimiter : (event : Event) (l : Limiter) → IsLimiter l → Good (step event l)
unfolding step Good
step-IsLimiter tick l h = ground arith
step-IsLimiter admit l h = when-Good _ _ (λ e. ground arith)
step-IsLimiter miss l h = when-Good _ _ (λ e. ground arith)
step-IsLimiter cancel_early l h = h
step-IsLimiter take_slot l h = when-Good _ _ (λ e. ground arith)
step-IsLimiter turn_away l h = when-Good _ _ (λ e. ground arith)
step-IsLimiter announce l h = when-Good _ _ (λ e. ground arith)
step-IsLimiter grant l h = when-Good _ _ (λ e. ground arith)
step-IsLimiter time_out l h = when-Good _ _ (λ e. ground arith)
step-IsLimiter cancel l h = when-Good _ _ (λ e. ground arith)
step-IsLimiter release l h = when-Good _ _ (λ e. ground arith)
step-IsLimiter retract l h = when-Good _ _ (λ e. ground arith)

-- Behind an event, given the run of those to come.
after-Good :
    (o : Option Limiter) (run : Limiter → Option Limiter)
    → Good o
    → ((next : Limiter) → IsLimiter next → Good (run next))
    → Good (elim o [ none ↦ none | some next ↦ run next ])
unfolding Good
after-Good none run h k = tt
after-Good (some next) run h k = k next h

run_events-Good : (events : List Event) (l : Limiter) → IsLimiter l → Good (run_events events l)
unfolding run_events Good
run_events-Good [] l h = h
run_events-Good (event ∷ events) l h =
    after-Good (step event l) (run_events events) (step-IsLimiter event l h)
      (λ next g. run_events-Good events next g)

new_rate_limited_sender-Good : (cfg : RateLimiterConfig) → Good (new_rate_limited_sender cfg)
unfolding new_rate_limited_sender Good
new_rate_limited_sender-Good cfg = elim (Bool-cases (cfg.rps == 0)) [
  | inl e ↦ rw e tt
  | inr e ↦ rw e (ground arith)
]

Good-some : (o : Option Limiter) {l : Limiter} → Good o → o ≡ some l → IsLimiter l
unfolding Good
Good-some o h e = subst Good e h

-- A limiter built from a config and driven by any interleaving of ticks and callers: the slots taken
-- are at most the capacity of the queue, the tokens at most the burst, the depth is the
-- number of callers between its two updates, and no more calls have been let through than the
-- burst and one for each tick.
pub run_events-IsLimiter :
    (cfg : RateLimiterConfig) (events : List Event) {start l : Limiter}
    → new_rate_limited_sender cfg ≡ some start
    → run_events events start ≡ some l
    → IsLimiter l
unfolding Good
run_events-IsLimiter cfg events {start} e r =
    Good-some (run_events events start)
      (run_events-Good events start (Good-some _ (new_rate_limited_sender-Good cfg) e)) r

-- In every state that a limiter reaches, a caller that is about to lower the depth finds it positive,
-- so that updateQueueDepth never has to put a negative depth back to 0.
pub retract-positive :
    (cfg : RateLimiterConfig) (events : List Event) {start l next : Limiter}
    → new_rate_limited_sender cfg ≡ some start
    → run_events events start ≡ some l
    → step retract l ≡ some next
    → 0 < l.queue_depth
unfolding step
retract-positive cfg events {start} {l} e r h =
    let good = run_events-IsLimiter cfg events e r in ground arith
