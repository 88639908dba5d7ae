-- ===== src/Tests/Limits.antt =====
-- internal/max at concrete inputs.
use smtp_to_max_relay.Prelude.{
  ℕ, Bool, true, false, not, List, [], ◌∷◌, Option, none, some, ◌≡◌, refl, arith, is_empty, all,
  ◌++◌, length, ◌+◌, ◌≤◌, ◌<◌, inl, inr, ◌⊎◌, map, if◌then◌else◌, ◌==◌, ltb, All,
}
use smtp_to_max_relay.Prelude.Text.{Text, codes}
use smtp_to_max_relay.Prelude.Assoc.{Assoc}
use smtp_to_max_relay.Max.LimitedSender.{
  RateLimiterConfig, Limiter, Event, new_rate_limited_sender, run_events, tick, admit, miss,
  take_slot, announce, grant, release,
}
use smtp_to_max_relay.Max.LimitedSender.Invariant.{IsLimiter, run_events-IsLimiter}
use smtp_to_max_relay.Max.AdminConfirm.{ConfirmAction, register_confirm, consume_confirm}
use smtp_to_max_relay.Max.AdminConfirm.Tokens.{consume_confirm_lem}

abbrev small_config : RateLimiterConfig
small_config = record { rps = 2; burst = 1; queue_capacity = 1; queue_wait = 0 }

abbrev small_limiter : Limiter
small_limiter = record {
  burst = 1;
  capacity = 1;
  queue_wait = 500000000;
  refill_interval = 500000000;
  tokens = 1;
  queue_slots = 0;
  queue_depth = 0;
  trying = 0;
  entered = 0;
  waiting = 0;
  leaving = 0;
  released = 0;
  passed = 0;
  ticks = 0;
  queue_dropped = 0;
  rate_limited = 0;
}

abbrev some_events : List Event
some_events = admit ∷ miss ∷ take_slot ∷ announce ∷ tick ∷ grant ∷ release ∷ []

abbrev busy_limiter : Limiter
busy_limiter = record small_limiter {
  tokens = 0;
  queue_depth = 1;
  released = 1;
  passed = 2;
  ticks = 1;
  rate_limited = 1;
}

run_events-IsLimiter_example : IsLimiter busy_limiter
unfolding new_rate_limited_sender run_events
run_events-IsLimiter_example =
    run_events-IsLimiter small_config some_events {start = small_limiter} {l = busy_limiter} refl
      refl

abbrev pending_delete : Assoc (ConfirmAction Text)
pending_delete = register_confirm (codes "7") 100 (codes "delete ops") (codes "ab12") 5 []

consume_confirm_lem_example :
    (consume_confirm (codes "7") (codes "ab12") 50 pending_delete).1 ≡ some (codes "delete ops")
unfolding smtp_to_max_relay.Prelude.Text.text_eq
consume_confirm_lem_example =
    (consume_confirm_lem (codes "7") (codes "8") (codes "ab12") (codes "cd") 100
      (codes "delete ops") 5 50 60 [] refl refl refl).0
