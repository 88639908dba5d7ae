-- ===== src/Max/LimitedSender.antt =====
-- internal/max/limited_sender.go: RateLimitedSender as its goroutines drive it, in the atomic steps of
-- `acquire` and `refillLoop`. The state counts the callers at each place of `acquire`. A config number
-- that is negative is 0. The sender behind is not called here.
pub mod Invariant
use smtp_to_max_relay.Prelude.{
  ℕ, zero, suc, ◌+◌, ◌-◌, ◌/◌, Bool, true, false, ◌&&◌, List, [], ◌∷◌, Option, none, some,
  if◌then◌else◌, ltb, ◌==◌,
}

pub record RateLimiterConfig : Type 0 where
  pub rps : ℕ
  pub burst : ℕ
  pub queue_capacity : ℕ
  pub queue_wait : ℕ

-- The channels `tokens` and `queueSlots` are their fill; `trying` callers have found no token,
-- `entered` ones have a slot, `waiting` ones stand in the last select, `leaving` ones have left
-- it, and `released` ones have given the slot back. `passed` counts the calls let through.
pub record Limiter : Type 0 where
  pub burst : ℕ
  pub capacity : ℕ
  pub queue_wait : ℕ
  pub refill_interval : ℕ
  pub tokens : ℕ
  pub queue_slots : ℕ
  pub queue_depth : ℕ
  pub trying : ℕ
  pub entered : ℕ
  pub waiting : ℕ
  pub leaving : ℕ
  pub released : ℕ
  pub passed : ℕ
  pub ticks : ℕ
  pub queue_dropped : ℕ
  pub rate_limited : ℕ

abbrev pub or_else : ℕ → ℕ → ℕ
or_else n default = if n == 0 then default else n

-- NewRateLimitedSender; none is the sender itself, without a limiter.
unfoldable pub new_rate_limited_sender : RateLimiterConfig → Option Limiter
new_rate_limited_sender cfg =
    if cfg.rps == 0
    then none
    else some (record {
      burst = or_else cfg.burst 1;
      capacity = cfg.queue_capacity;
      queue_wait = or_else cfg.queue_wait 500000000;
      refill_interval = or_else (1000000000 / cfg.rps) 1;
      tokens = or_else cfg.burst 1;
      queue_slots = 0;
      queue_depth = 0;
      trying = 0;
      entered = 0;
      waiting = 0;
      leaving = 0;
      released = 0;
      passed = 0;
      ticks = 0;
      queue_dropped = 0;
      rate_limited = 0;
    })

pub data Event : Type 0 where
  tick : Event
  admit miss cancel_early : Event
  take_slot turn_away : Event
  announce : Event
  grant time_out cancel : Event
  release retract : Event

abbrev pub when : Bool → Limiter → Option Limiter
when possible l = if possible then some l else none

abbrev pub positive : ℕ → Bool
positive n = ltb 0 n

abbrev pub give_up_waiting : Limiter → Limiter
give_up_waiting l = record l { waiting = l.waiting - 1; leaving = l.leaving + 1 }

-- One step; none when no caller can take it.
unfoldable pub step : Event → Limiter → Option Limiter
-- a tick of the refill: a token, unless the channel is full
step tick l = some (record l {
  tokens = if ltb l.tokens l.burst then l.tokens + 1 else l.tokens;
  ticks = l.ticks + 1;
})
-- the first select
step admit l = when (positive l.tokens) (record l { tokens = l.tokens - 1; passed = l.passed + 1 })
step miss l = when (l.tokens == 0) (record l { trying = l.trying + 1 })
step cancel_early l = some l
-- the second select
step take_slot l =
    when (positive l.trying && ltb l.queue_slots l.capacity)
      (record l { trying = l.trying - 1; queue_slots = l.queue_slots + 1; entered = l.entered + 1 })
step turn_away l = when (positive l.trying && l.queue_slots == l.capacity) (record l {
  trying = l.trying - 1;
  queue_dropped = l.queue_dropped + 1;
  rate_limited = l.rate_limited + 1;
})
-- updateQueueDepth(1)
step announce l =
    when (positive l.entered) (record l {
      entered = l.entered - 1;
      queue_depth = l.queue_depth + 1;
      waiting = l.waiting + 1;
    })
-- the last select
step grant l = when (positive l.waiting && positive l.tokens) (record (give_up_waiting l) {
  tokens = l.tokens - 1;
  passed = l.passed + 1;
  rate_limited = l.rate_limited + 1;
})
step time_out l = when (positive l.waiting) (record (give_up_waiting l) {
  queue_dropped = l.queue_dropped + 1;
  rate_limited = l.rate_limited + 1;
})
step cancel l = when (positive l.waiting) (give_up_waiting l)
-- the deferred function: the slot, then updateQueueDepth(-1), which stops at 0
step release l = when (positive l.leaving) (record l {
  leaving = l.leaving - 1;
  queue_slots = l.queue_slots - 1;
  released = l.released + 1;
})
step retract l =
    when (positive l.released)
      (record l { released = l.released - 1; queue_depth = l.queue_depth - 1 })

unfoldable pub run_events : List Event → Limiter → Option Limiter
unfolding step
run_events [] l = some l
run_events (event ∷ events) l = elim (step event l) [
  | none ↦ none
  | some next ↦ run_events events next
]
