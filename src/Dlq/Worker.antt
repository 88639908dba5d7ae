-- ===== src/Dlq/Worker.antt =====
-- internal/dlq/worker.go: the ticks of the retry worker. What the relay call of an item gives, and the
-- clock, the random draw and the disk write that follow it, are the environment's, per item. The
-- interval, the timeouts and the log are not modelled.
pub mod Rounds
pub mod Ticks
pub mod Drain
pub mod Running
use smtp_to_max_relay.Prelude.{
  ℕ, ◌+◌, ◌/◌, Bool, true, false, List, [], ◌∷◌, Option, none, some, if◌then◌else◌,
}
use smtp_to_max_relay.Prelude.Result.{Result, ok, err}
use smtp_to_max_relay.Prelude.Text.{Text}
use smtp_to_max_relay.Dlq.Item.{Item, Store, StoreError}
use smtp_to_max_relay.Dlq.Store.{pick_due, mark_done, mark_retry}
use smtp_to_max_relay.Dlq.Queries.{Stats, stats, oldest_pending_age}
use smtp_to_max_relay.Dlq.Backoff.{Delays, second, worker_next_delay}

pub record Worker : Type 0 where
  pub delays : Delays
  pub max_retries : ℕ
  pub batch_size : ℕ

-- The counters that the worker writes, and the gauges of the backlog.
pub record Metrics : Type 0 where
  pub replayed : ℕ
  pub replay_failed : ℕ
  pub backlog : Stats
  pub oldest_pending_seconds : ℕ

-- `outcome` is the error of the relay call, if it has one.
pub record Attempt : Type 0 where
  pub outcome : Option Text
  pub now : ℕ
  pub draw : ℕ
  pub write : Option Text

-- The time of the next attempt at an item whose attempt has failed.
unfoldable pub next_attempt_at : Worker → Attempt → Item → ℕ
next_attempt_at w a item = a.now + worker_next_delay w.delays (item.attempt + 1) a.draw

replayed_item : Worker → Attempt → Option Text → Item → Store → Store
replayed_item w a none item s = (mark_done item.id a.now a.write s).0
replayed_item w a (some e) item s =
    (mark_retry item.id (next_attempt_at w a item) (some e) w.max_retries a.now a.write s).0

count_outcome : Option Text → Metrics → Metrics
count_outcome none m = record m { replayed = m.replayed + 1 }
count_outcome (some e) m = record m { replay_failed = m.replay_failed + 1 }

-- One round of the loop; an error of the store is only logged.
unfoldable pub replay_item : Worker → Attempt → Item → Store × Metrics → Store × Metrics
unfolding replayed_item count_outcome
replay_item w a item (s, m) = (replayed_item w a a.outcome item s, count_outcome a.outcome m)

unfoldable pub replay_items :
    Worker → (Text → Attempt) → List Item → Store × Metrics → Store × Metrics
replay_items w env [] state = state
replay_items w env (item ∷ items) state =
    replay_items w env items (replay_item w (env item.id) item state)

age_in_seconds : Option ℕ → ℕ
age_in_seconds none = 0
age_in_seconds (some age) = age / second

-- updateBacklogMetrics
unfoldable pub update_backlog_metrics : ℕ → Store × Metrics → Store × Metrics
unfolding age_in_seconds
update_backlog_metrics now (s, m) = (
  s,
  record m {
    backlog = stats s;
    oldest_pending_seconds = age_in_seconds (oldest_pending_age now s);
  },
)

after_pick :
    Worker → (Text → Attempt) → Metrics → Store × Result StoreError (List Item) → Store × Metrics
after_pick w env m (s, ok items) = replay_items w env items (s, m)
after_pick w env m (s, err e) = (s, m)

-- runOnce, with the clock at its start and end, and the result of PickDue's write
unfoldable pub run_once :
    Worker → (Text → Attempt) → ℕ → ℕ → Option Text → Store × Metrics → Store × Metrics
unfolding after_pick
run_once w env now later write (s, m) =
    update_backlog_metrics later (after_pick w env m (pick_due w.batch_size now write s))

-- What comes with one tick.
pub record Tick : Type 0 where
  pub attempts : Text → Attempt
  pub now : ℕ
  pub later : ℕ
  pub write : Option Text

-- Run, over the ticks that come until the context ends.
unfoldable pub run : Worker → List Tick → Store × Metrics → Store × Metrics
run w [] state = state
run w (t ∷ ts) state = run w ts (run_once w t.attempts t.now t.later t.write state)
