-- ===== src/Dlq/Worker/Ticks.antt =====
-- A whole tick of the worker: with a pick that is written, and with one that is not.
use smtp_to_max_relay.Prelude.{
  ℕ, suc, ◌+◌, Bool, true, false, List, [], ◌∷◌, map, Option, none, some, ◌≡◌, ◌≢◌, refl, ap, ◌∙◌,
  ◌⊎◌, inl, inr, arith, length, length-map,
}
use smtp_to_max_relay.Prelude.Result.{Result, ok, err}
use smtp_to_max_relay.Prelude.Text.{Text, contains}
use smtp_to_max_relay.Prelude.Assoc.{Assoc, lookup, keys, values, Distinct}
use smtp_to_max_relay.Dlq.Item.{Item, Store, StoreError, processing, io}
use smtp_to_max_relay.Dlq.Store.{pick_due, due_entries, started, is_due}
use smtp_to_max_relay.Dlq.Store.Invariant.{IsStore}
use smtp_to_max_relay.Dlq.Store.Due.{change_at}
use smtp_to_max_relay.Dlq.Store.Picking.{pick_due_lem, pick_due_failed}
use smtp_to_max_relay.Dlq.Worker.Rounds.{
  settled, settled_status, settle_at, replay_items-lookup, replay_items-count, started_entries,
  started-values, started-keys, started-Stored, started-OwnIds,
}
use smtp_to_max_relay.Dlq.Worker.{
  Worker, Metrics, Attempt, replay_items, after_pick, update_backlog_metrics, run_once,
}

length-values : (entries : Assoc Item) → length (values entries) ≡ length entries
length-values [] = refl
length-values (e ∷ entries) = ap suc (length-values entries)

-- The parts of a tick whose pick has given these items.
after_pick_ok :
    (w : Worker) (env : Text → Attempt) (m : Metrics)
    (picked : Store × Result StoreError (List Item)) (items : List Item)
    → picked.1 ≡ ok items
    → after_pick w env m picked ≡ replay_items w env items (picked.0, m)
unfolding after_pick
after_pick_ok w env m (s, ok xs) items e = ground arith
after_pick_ok w env m (s, err x) items e = cc

after_pick_err :
    (w : Worker) (env : Text → Attempt) (m : Metrics)
    (picked : Store × Result StoreError (List Item)) (e : StoreError)
    → picked.1 ≡ err e
    → after_pick w env m picked ≡ (picked.0, m)
unfolding after_pick
after_pick_err w env m (s, ok xs) e h = cc
after_pick_err w env m (s, err x) e h = refl

run_once-parts :
    (w : Worker) (env : Text → Attempt) (now later : ℕ) (write : Option Text) (s : Store)
    (m : Metrics)
    → let tried = after_pick w env m (pick_due w.batch_size now write s) in
      let (s', m') = run_once w env now later write (s, m) in
      (s' ≡ tried.0) × (m'.replayed ≡ tried.1.replayed) × (m'.replay_failed ≡ tried.1.replay_failed)
unfolding run_once update_backlog_metrics
run_once-parts w env now later write s m = (refl, refl, refl)

tick-lookup :
    (w : Worker) (env : Text → Attempt) (now later : ℕ) (s : Store) (m : Metrics) (k : Text)
    → IsStore s.items
    → let picked = due_entries w.batch_size now s.items in
      lookup k (run_once w env now later none (s, m)).0.items
      ≡ change_at
          (λ item. settled w (env k) (env k).outcome (started now item))
          (contains k (keys picked))
          (lookup k s.items)
tick-lookup w env now later s m k v =
    let picked = due_entries w.batch_size now s.items in
    let (returned, good, changed, _) = pick_due_lem w.batch_size now s v.distinct in
    let after = (pick_due w.batch_size now none s).0 in
    ap (λ (s : Store). lookup k s.items) (run_once-parts w env now later none s m).0
    ∙ ap (λ (r : Store × Metrics). lookup k r.0.items)
        (after_pick_ok w env m (pick_due w.batch_size now none s) _ returned)
    ∙ ap (λ (items : List Item). lookup k (replay_items w env items (after, m)).0.items)
        (started-values now picked)
    ∙ replay_items-lookup w env (started_entries now picked) after m k
        (rw (started-keys now picked) good.distinct)
        (started-Stored now s.items after.items picked good.stored (λ j here.
          changed j ∙ ap (λ (b : Bool). change_at (started now) b (lookup j s.items)) here))
        (started-OwnIds now s.items picked v good.stored)
    ∙ ap (λ (ks : List Text). settle_at w env k (contains k ks) (lookup k after.items))
        (started-keys now picked)
    ∙ ap (settle_at w env k (contains k (keys picked))) (changed k)
    ∙ twice (contains k (keys picked)) (lookup k s.items)
  where
    twice :
        (b : Bool) (o : Option Item)
        → settle_at w env k b (change_at (started now) b o)
          ≡ change_at (λ item. settled w (env k) (env k).outcome (started now item)) b o
    twice true none = refl
    twice true (some item) = refl
    twice false o = refl

tick-count :
    (w : Worker) (env : Text → Attempt) (now later : ℕ) (s : Store) (m : Metrics)
    → Distinct (keys s.items)
    → let m' = (run_once w env now later none (s, m)).1 in
      m'.replayed + m'.replay_failed
      ≡ m.replayed + m.replay_failed + length (due_entries w.batch_size now s.items)
tick-count w env now later s m d =
    let picked = due_entries w.batch_size now s.items in
    let (returned, _, _, _) = pick_due_lem w.batch_size now s d in
    let after = (pick_due w.batch_size now none s).0 in
    let items = map (started now) (values picked) in
    let tried = after_pick_ok w env m (pick_due w.batch_size now none s) items returned in
    let parts = run_once-parts w env now later none s m in
    omega (
      arith,
      parts.1,
      parts.2,
      ap (λ (r : Store × Metrics). r.1.replayed + r.1.replay_failed) tried,
      replay_items-count w env items after m,
      length-map (values picked) (started now),
      length-values picked,
    )

-- A tick whose pick is written changes exactly the items that PickDue takes: an item whose relay
-- call succeeds is done, any other has an attempt counted and is failed at the limit or pending at
-- the later time, so that none of them is left processing; the two counters grow by their number.
pub run_once_lem :
    (w : Worker) (env : Text → Attempt) (now later : ℕ) (s : Store) (m : Metrics)
    → IsStore s.items
    → let picked = due_entries w.batch_size now s.items in
      let (s', m') = run_once w env now later none (s, m) in
      ((k : Text)
        → lookup k s'.items
          ≡ change_at
              (λ item. settled w (env k) (env k).outcome (started now item))
              (contains k (keys picked))
              (lookup k s.items))
      × ((k : Text) (item : Item) → (settled w (env k) (env k).outcome item).status ≢ processing)
      × (m'.replayed + m'.replay_failed ≡ m.replayed + m.replay_failed + length picked)
run_once_lem w env now later s m v = (
  (λ k. tick-lookup w env now later s m k v),
  (λ k item. settled_status w (env k) (env k).outcome item),
  tick-count w env now later s m v.distinct,
)

not_empty_of_contains :
    (k : Text) (picked : Assoc Item) (r : Result StoreError (List Item)) (e : StoreError)
    → contains k (keys picked) ≡ true
    → (picked ≡ []) ⊎ (r ≡ err e)
    → r ≡ err e
unfolding contains
not_empty_of_contains k [] r e h o = cc
not_empty_of_contains k (x ∷ picked) r e h (inl f) = absurd (ground arith)
not_empty_of_contains k (x ∷ picked) r e h (inr f) = f

-- A tick whose pick cannot be written tries nothing and leaves the file as it was, and yet every
-- item that was to be picked is processing afterwards, so that no later pick finds it due. The
-- ids of the store are different.
pub run_once_strands :
    (w : Worker) (env : Text → Attempt) (now later : ℕ) (e : Text) (s : Store) (m : Metrics)
    (k : Text) (item : Item)
    → Distinct (keys s.items)
    → lookup k s.items ≡ some item
    → contains k (keys (due_entries w.batch_size now s.items)) ≡ true
    → let (s', m') = run_once w env now later (some e) (s, m) in
      (lookup k s'.items ≡ some (started now item))
      × ((t : ℕ) → is_due t (k, started now item) ≡ false)
      × (s'.disk ≡ s.disk)
      × (m'.replayed + m'.replay_failed ≡ m.replayed + m.replay_failed)
run_once_strands w env now later e s m k item d found here =
    let picked = pick_due w.batch_size now (some e) s in
    let (changed, disk_stays, failing) = pick_due_failed w.batch_size now e s k d in
    let failed =
      not_empty_of_contains k (due_entries w.batch_size now s.items) picked.1 (io e) here failing in
    let same = after_pick_err w env m picked (io e) failed in
    let parts = run_once-parts w env now later (some e) s m in
    (
      ap (λ (s : Store). lookup k s.items) parts.0
          ∙ ap (λ (r : Store × Metrics). lookup k r.0.items) same
          ∙ changed
          ∙ rw (here, found),
      (λ t. refl),
      ap (λ (s : Store). s.disk) parts.0 ∙ ap (λ (r : Store × Metrics). r.0.disk) same ∙ disk_stays,
      omega (
        arith,
        parts.1,
        parts.2,
        ap (λ (r : Store × Metrics). r.1.replayed + r.1.replay_failed) same,
      ),
    )
