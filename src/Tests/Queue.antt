-- ===== src/Tests/Queue.antt =====
-- internal/dlq at concrete inputs.
use smtp_to_max_relay.Prelude.{
  ℕ, ◌^◌, Bool, true, false, not, List, [], ◌∷◌, Option, none, some, ◌≡◌, refl, arith, is_empty,
  all, ◌++◌, length, ◌+◌, ◌-◌, ◌≤◌, ◌<◌, inl, inr, ◌⊎◌, ◌≢◌, map, any,
}
use smtp_to_max_relay.Prelude.Result.{ok}
use smtp_to_max_relay.Prelude.Text.{Text, codes, contains}
use smtp_to_max_relay.Prelude.Assoc.{Assoc, lookup, keys, values}
use smtp_to_max_relay.Dlq.Item.{
  Item, Store, pending, processing, done, failed, not_found, io, is_live, is_failed, persist_locked,
}
use smtp_to_max_relay.Dlq.Store.{
  pick_due, enqueue, mark_done, mark_retry, finished, retried, contents, new_file_store,
  payload_fingerprint, due_entries, started, is_due,
}
use smtp_to_max_relay.Dlq.Store.Invariant.{
  IsStore, Call, run_calls, run_calls-IsStore, enqueues, picks, retries,
}
use smtp_to_max_relay.Dlq.Store.Picking.{pick_due_lem}
use smtp_to_max_relay.Dlq.Store.Enqueuing.{IsEnqueued, enqueue-IsEnqueued}
use smtp_to_max_relay.Dlq.Store.Fingerprint.{payload_fingerprint-injective}
use smtp_to_max_relay.Dlq.Store.Marking.{mark_retry_lem}
use smtp_to_max_relay.Dlq.Store.Recovery.{new_file_store-persist}
use smtp_to_max_relay.Dlq.Queries.{stats, oldest_pending_age}
use smtp_to_max_relay.Dlq.Queries.Laws.{how_many}
use smtp_to_max_relay.Dlq.Admin.Reports.{summary}
use smtp_to_max_relay.Dlq.Admin.Summary.{summary_lem}
use smtp_to_max_relay.Dlq.Backoff.{next_delay, Delays, worker_next_delay}
use smtp_to_max_relay.Dlq.Backoff.Bounds.{worker_next_delay_lem}
use smtp_to_max_relay.Dlq.Worker.{Worker, Attempt, Metrics, Tick, run_once, run}
use smtp_to_max_relay.Dlq.Worker.Ticks.{run_once_lem, run_once_strands}
use smtp_to_max_relay.Dlq.Worker.Drain.{IsSettled}
use smtp_to_max_relay.Dlq.Worker.Running.{chances, run-IsSettled}
use smtp_to_max_relay.Dlq.Admin.{Admin, replay_batch}
use smtp_to_max_relay.Dlq.Admin.Batch.{IsBatch, replay_batch-IsBatch}

-- A hash that does not collide.
abbrev plain_hash : Text → Text
plain_hash t = t

abbrev waiting_item : Item
waiting_item = record {
  id = codes "a";
  fingerprint = codes "f";
  recipient = codes "chatid1@r.l";
  raw_message = 72 ∷ 105 ∷ [];
  last_error = [];
  status = pending;
  attempt = 0;
  next_retry_at = 5;
  created_at = 3;
  updated_at = 3;
}

abbrev failed_item : Item
failed_item = record waiting_item {
  id = codes "b";
  fingerprint = codes "g";
  status = failed;
  attempt = 2;
}

abbrev two_items : Store
two_items = record {
  items = (codes "a", waiting_item) ∷ (codes "b", failed_item) ∷ [];
  disk = none;
}

two_items-IsStore : IsStore two_items.items
unfolding contains smtp_to_max_relay.Prelude.Text.text_eq
two_items-IsStore = record { distinct = (refl, (refl, tt)); own_id = (refl, (refl, tt)) }

abbrev loaded_items : Store
loaded_items = record {
  items = (codes "a", waiting_item) ∷ (codes "b", failed_item) ∷ [];
  disk = some (waiting_item ∷ failed_item ∷ []);
}

abbrev some_calls : List Call
some_calls =
    picks 10 6 none
    ∷ retries (codes "a") 9 (some (codes "down")) 3 7 (some (codes "disk full"))
    ∷ enqueues (codes "x") (72 ∷ []) none 8 (codes "c") none
    ∷ []

run_calls-IsStore_example : IsStore (run_calls plain_hash loaded_items some_calls).items
unfolding new_file_store smtp_to_max_relay.Prelude.Assoc.insert
    smtp_to_max_relay.Prelude.Text.text_eq
run_calls-IsStore_example =
    run_calls-IsStore plain_hash (contents (waiting_item ∷ failed_item ∷ [])) some_calls
      {s = loaded_items} refl

pick_due_lem_example : (pick_due 10 6 none two_items).1 ≡ ok (started 6 waiting_item ∷ [])
unfolding due_entries smtp_to_max_relay.Prelude.Sorting.sort_by
    smtp_to_max_relay.Prelude.Sorting.insert_by
pick_due_lem_example = (pick_due_lem 10 6 two_items two_items-IsStore.distinct).0

enqueue-IsEnqueued_example :
    IsEnqueued
      (payload_fingerprint plain_hash (codes "x") (72 ∷ []))
      (codes "x")
      (72 ∷ [])
      none
      8
      (codes "c")
      two_items
      (enqueue plain_hash (codes "x") (72 ∷ []) none 8 (codes "c") none two_items)
enqueue-IsEnqueued_example =
    enqueue-IsEnqueued plain_hash (codes "x") (72 ∷ []) none 8 (codes "c") two_items
      two_items-IsStore

payload_fingerprint-injective_example :
    (codes "x" ≡ codes "x") × (◌≡◌ {A = List ℕ} (72 ∷ []) (72 ∷ []))
payload_fingerprint-injective_example =
    payload_fingerprint-injective plain_hash (codes "x") (codes "x") (72 ∷ []) (72 ∷ [])
      (omega arith, tt) (omega arith, tt) (λ e. e) refl

mark_retry_lem_example :
    (mark_retry (codes "a") 20 none 3 9 (some (codes "disk full")) two_items).0.disk ≡ none
unfolding lookup smtp_to_max_relay.Prelude.Text.text_eq
mark_retry_lem_example =
    (((mark_retry_lem (codes "a") 20 none 3 9 (some (codes "disk full")) two_items).0.1 waiting_item
        refl).1
      (codes "disk full") refl).0

new_file_store-persist_example :
    (persist_locked none two_items).0.disk
    ≡ some (new_file_store-persist plain_hash two_items two_items-IsStore).0
new_file_store-persist_example = (new_file_store-persist plain_hash two_items two_items-IsStore).1

abbrev some_delays : Delays
some_delays = record { base_delay = 1000; max_delay = 300000; random_jitter = 10 }

abbrev some_worker : Worker
some_worker = record { delays = some_delays; max_retries = 3; batch_size = 10 }

abbrev no_metrics : Metrics
no_metrics = record {
  replayed = 0;
  replay_failed = 0;
  backlog = record { pending_count = 0; failed_count = 0; done_count = 0 };
  oldest_pending_seconds = 0;
}

abbrev success : Attempt
success = record { outcome = none; now = 7; draw = 0; write = none }

run_once_lem_example :
    (run_once some_worker (λ id. success) 6 8 none (two_items, no_metrics)).1.replayed
      + (run_once some_worker (λ id. success) 6 8 none (two_items, no_metrics)).1.replay_failed
    ≡ 1
unfolding due_entries smtp_to_max_relay.Prelude.Sorting.sort_by
    smtp_to_max_relay.Prelude.Sorting.insert_by
run_once_lem_example =
    (run_once_lem some_worker (λ id. success) 6 8 two_items no_metrics two_items-IsStore).2

run_once_strands_example :
    lookup
      (codes "a")
      (run_once some_worker
        (λ id. success)
        6
        8
        (some (codes "disk full"))
        (two_items, no_metrics)).0.items
    ≡ some (started 6 waiting_item)
unfolding lookup smtp_to_max_relay.Prelude.Text.text_eq contains due_entries
    smtp_to_max_relay.Prelude.Sorting.sort_by smtp_to_max_relay.Prelude.Sorting.insert_by
run_once_strands_example =
    (run_once_strands some_worker (λ id. success) 6 8 (codes "disk full") two_items no_metrics
      (codes "a") waiting_item two_items-IsStore.distinct refl refl).0

abbrev some_admin : Admin
some_admin = record { max_retries = 3; base_delay = 1000; max_delay = 300000 }

replay_batch-IsBatch_example :
    IsBatch some_admin
      (λ id. success)
      5
      (codes "only_failed")
      two_items
      (replay_batch some_admin (λ id. success) 5 (codes "only_failed") two_items)
replay_batch-IsBatch_example =
    replay_batch-IsBatch some_admin (λ id. success) 5 (codes "only_failed") two_items

abbrev failure : Attempt
failure = record { outcome = some (codes "down"); now = 7; draw = 0; write = none }

-- Three chances, and a tick at which the item is not due.
abbrev four_ticks : List Tick
four_ticks =
    record { attempts = λ id. failure; now = 6; later = 8; write = none }
    ∷ record { attempts = λ id. failure; now = 100; later = 101; write = none }
    ∷ record { attempts = λ id. failure; now = 400000; later = 400001; write = none }
    ∷ record { attempts = λ id. success; now = 800000; later = 800001; write = none }
    ∷ []

four_ticks-chances :
    chances some_worker waiting_item.next_retry_at four_ticks (two_items, no_metrics) ≡ 3
unfolding chances lookup smtp_to_max_relay.Prelude.Text.text_eq contains due_entries
    smtp_to_max_relay.Prelude.Sorting.sort_by smtp_to_max_relay.Prelude.Sorting.insert_by run_once
    smtp_to_max_relay.Dlq.Worker.update_backlog_metrics pick_due
    smtp_to_max_relay.Dlq.Worker.replay_items smtp_to_max_relay.Dlq.Worker.replay_item
    smtp_to_max_relay.Dlq.Store.start_all smtp_to_max_relay.Prelude.Assoc.insert
    smtp_to_max_relay.Dlq.Worker.next_attempt_at smtp_to_max_relay.Dlq.Backoff.shifted
    smtp_to_max_relay.Dlq.Backoff.rand_int63n smtp_to_max_relay.Dlq.Item.persisted
    smtp_to_max_relay.Dlq.Queries.count_items smtp_to_max_relay.Dlq.Queries.oldest_live mark_retry
    worker_next_delay persist_locked oldest_pending_age stats mark_done
four_ticks-chances = refl

run-IsSettled_example :
    (last : Item) × (lookup (codes "a") (run some_worker four_ticks (two_items, no_metrics)).0.items
      ≡ some last)
    × IsSettled last
unfolding lookup smtp_to_max_relay.Prelude.Text.text_eq
run-IsSettled_example =
    run-IsSettled some_worker (codes "a") four_ticks two_items no_metrics waiting_item
      two_items-IsStore refl refl (omega arith) (omega arith)
      (
        refl,
        omega arith,
        omega arith,
        omega arith,
        (
          refl,
          omega arith,
          omega arith,
          omega arith,
          (
            refl,
            omega arith,
            omega arith,
            omega arith,
            (refl, omega arith, omega arith, omega arith, tt),
          ),
        ),
      )
      (omega (arith, four_ticks-chances)) (omega (arith, four_ticks-chances))

worker_next_delay_lem_example : (next_delay 3 1000 300000 ≡ 4000) ⊎ (2 ^ 63 ≤ 4000)
worker_next_delay_lem_example = (worker_next_delay_lem some_delays 3 27 (omega arith)).1

summary_lem_example :
    (summary 10 two_items).counts.pending_count ≡ how_many is_live (values two_items.items)
summary_lem_example = (summary_lem 10 two_items (omega arith, (omega arith, tt))).0
