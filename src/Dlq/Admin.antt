-- ===== src/Dlq/Admin.antt =====
-- internal/dlq/admin.go: the administrator's replay commands, with a store and a relay function. The
-- environment gives for an item what its relay call, the clock behind it and the disk write
-- give. A reply is a constructor with what its text quotes.
pub mod Batch
pub mod Reports
pub mod Summary
use smtp_to_max_relay.Prelude.{
  ℕ, suc, ◌+◌, Bool, true, false, List, [], ◌∷◌, Option, none, some, if◌then◌else◌, ◌==◌, is_empty,
  length,
}
use smtp_to_max_relay.Prelude.Result.{Result, ok, err}
use smtp_to_max_relay.Prelude.Text.{Text, codes, text_eq, trim_space, to_lower}
use smtp_to_max_relay.Dlq.Item.{Status, Item, Store, StoreError, is_pending, is_failed}
use smtp_to_max_relay.Dlq.Store.{mark_done, mark_retry}
use smtp_to_max_relay.Dlq.Queries.{get, list}
use smtp_to_max_relay.Dlq.Backoff.{next_delay}
use smtp_to_max_relay.Dlq.Worker.{Attempt}

-- The durations are not negative.
pub record Admin : Type 0 where
  pub max_retries : ℕ
  pub base_delay : ℕ
  pub max_delay : ℕ

pub data ReplayReply : Type 0 where
  replay_usage : ReplayReply
  item_not_found : Text → ReplayReply
  replay_failed : Text → ReplayReply
  replay_failed_not_updated : Text → StoreError → ReplayReply
  sent_not_updated : StoreError → ReplayReply
  replay_done : Text → ReplayReply

after_failure : Text → Store × Result StoreError (Unit {0}) → Store × ReplayReply
after_failure e (s, ok _) = (s, replay_failed e)
after_failure e (s, err q) = (s, replay_failed_not_updated e q)

after_success : Text → Store × Result StoreError (Unit {0}) → Store × ReplayReply
after_success id (s, ok _) = (s, replay_done id)
after_success id (s, err q) = (s, sent_not_updated q)

-- Behind the relay call.
replayed_by_hand : Admin → Attempt → Option Text → Text → Item → Store → Store × ReplayReply
unfolding after_failure after_success
replayed_by_hand admin a none id item s = after_success id (mark_done item.id a.now a.write s)
replayed_by_hand admin a (some e) id item s =
    let next = a.now + next_delay (item.attempt + 1) admin.base_delay admin.max_delay in
    after_failure e (mark_retry item.id next (some e) admin.max_retries a.now a.write s)

found_or_not : Admin → (Text → Attempt) → Text → Option Item → Store → Store × ReplayReply
unfolding replayed_by_hand
found_or_not admin env id none s = (s, item_not_found id)
found_or_not admin env id (some item) s =
    let a = env item.id in replayed_by_hand admin a a.outcome id item s

-- Admin.Replay
unfoldable pub replay : Admin → (Text → Attempt) → Text → Store → Store × ReplayReply
unfolding found_or_not
replay admin env argument s =
    let id = trim_space argument in
    if is_empty id then (s, replay_usage) else found_or_not admin env id (get id s) s

-- parseReplayBatchMode: the statuses wanted
unfoldable pub parse_replay_batch_mode : Text → Option (Status → Bool)
parse_replay_batch_mode mode =
    let v = trim_space (to_lower mode) in
    if is_empty v
    then some is_pending
    else if text_eq v (codes "only_pending")
    then some is_pending
    else if text_eq v (codes "only_failed")
    then some is_failed
    else none

-- The loop that selects the items, with the number already selected.
unfoldable pub select_from : ℕ → ℕ → (Status → Bool) → List Item → List Item
select_from limit selected want [] = []
select_from limit selected want (item ∷ items) =
    let skipped = select_from limit selected want items in
    let more = select_from limit (selected + 1) want items in
    if want item.status then item ∷ (if selected + 1 == limit then [] else more) else skipped

pub data BatchReply : Type 0 where
  batch_usage nothing_to_replay : BatchReply
  batch_done : ℕ → ℕ → ℕ → BatchReply

abbrev pub is_replay_done : ReplayReply → Bool
is_replay_done (replay_done id) = true
is_replay_done _ = false

-- The loop that replays the selected items, with the counts of success and failure.
unfoldable pub replay_selected :
    Admin → (Text → Attempt) → List Item → Store → ℕ → ℕ → Store × (ℕ × ℕ)
unfolding replay
replay_selected admin env [] s ok_count fail_count = (s, (ok_count, fail_count))
replay_selected admin env (item ∷ items) s ok_count fail_count =
    let r = replay admin env item.id s in
    let good = is_replay_done r.1 in
    replay_selected admin env items r.0 (if good then ok_count + 1 else ok_count)
      (if good then fail_count else fail_count + 1)

batch_of : Admin → (Text → Attempt) → List Item → Store → Store × BatchReply
unfolding replay_selected
batch_of admin env [] s = (s, nothing_to_replay)
batch_of admin env (item ∷ items) s =
    let r = replay_selected admin env (item ∷ items) s 0 0 in
    (r.0, batch_done (suc (length items)) r.1.0 r.1.1)

batch_in_mode : Admin → (Text → Attempt) → ℕ → Option (Status → Bool) → Store → Store × BatchReply
unfolding batch_of
batch_in_mode admin env limit none s = (s, batch_usage)
batch_in_mode admin env limit (some want) s =
    batch_of admin env (select_from limit 0 want (list 1000000 s)) s

-- Admin.ReplayBatch
unfoldable pub replay_batch : Admin → (Text → Attempt) → ℕ → Text → Store → Store × BatchReply
unfolding batch_in_mode
replay_batch admin env limit mode s =
    if limit == 0
    then (s, batch_usage)
    else batch_in_mode admin env limit (parse_replay_batch_mode mode) s
