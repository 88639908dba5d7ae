-- ===== src/Dlq/Worker/Running.antt =====
-- internal/dlq/worker.go, Run: an item under many ticks.
use smtp_to_max_relay.Prelude.{
  ℕ, suc, ◌+◌, ◌^◌, ◌≤◌, ◌<◌, Bool, true, false, ◌&&◌, List, [], ◌∷◌, none, some, ◌≡◌, refl, sym,
  subst, ◌∙◌, inl, inr, arith, length, filter, ltb, leb, if◌then◌else◌, Bool-cases, length-take,
}
use smtp_to_max_relay.Prelude.Text.{Text, contains}
use smtp_to_max_relay.Prelude.Assoc.{Assoc, lookup, keys}
use smtp_to_max_relay.Prelude.Sorting.{sort_by, length-sort_by}
use smtp_to_max_relay.Dlq.Item.{Item, Store, pending, retry_before}
use smtp_to_max_relay.Dlq.Store.{due_entries, is_due, limit_or, started}
use smtp_to_max_relay.Dlq.Store.Invariant.{IsStore}
use smtp_to_max_relay.Dlq.Store.Due.{change_at}
use smtp_to_max_relay.Dlq.Store.Picking.{due_left}
use smtp_to_max_relay.Dlq.Worker.{Worker, Metrics, Tick, run_once, run}
use smtp_to_max_relay.Dlq.Worker.Rounds.{settled}
use smtp_to_max_relay.Dlq.Worker.Ticks.{run_once_lem}
use smtp_to_max_relay.Dlq.Worker.Drain.{
  IsSettled, IsComing, longest_wait, settled-IsTried, picked-IsComing, chance-picked-IsComing,
  left-IsComing, chance-left-IsComing, picked_is_pending, run_once-IsStore,
}

-- The clock does not go back, from tick to tick and within a tick, and every pick is written.
abbrev pub IsSteady : Text → ℕ → List Tick → Type 0
IsSteady k from [] = Unit
IsSteady k from (t ∷ ts) =
    (t.write ≡ none)
    × (from ≤ t.now)
    × (t.now ≤ t.later)
    × ((t.attempts k).now ≤ t.later)
    × IsSteady k t.later ts

-- Fewer items are due than a tick takes.
abbrev pub is_calm : Worker → ℕ → Assoc Item → Bool
is_calm w now items = ltb (length (filter (is_due now) items)) (limit_or w.batch_size 10)

-- The chances that an item has: the calm ticks at which the longest wait since its last chance is over,
-- and its retry time for the first one.
unfoldable pub chances : Worker → ℕ → List Tick → Store × Metrics → ℕ
chances w due [] state = 0
chances w due (t ∷ ts) state =
    let next = run_once w t.attempts t.now t.later t.write state in
    let taken = chances w (t.later + longest_wait w) ts next in
    let missed = chances w due ts next in
    if leb due t.now && is_calm w t.now state.0.items then suc taken else missed

-- At a calm tick, what is due is picked.
calm_pick :
    (w : Worker) (now : ℕ) (k : Text) (s : Store) (item : Item)
    → IsStore s.items
    → lookup k s.items ≡ some item
    → is_calm w now s.items ≡ true
    → contains k (keys (due_entries w.batch_size now s.items)) ≡ false
    → item.status ≡ pending
    → now < item.next_retry_at
unfolding due_entries
calm_pick w now k s item v found calm left p = elim (Bool-cases (is_due now (k, item))) [
  | inr e ↦ ground (arith, e, p)
  | inl e ↦
      let full = (due_left w.batch_size now s.items k item v.distinct found e left).1 in
      absurd (
        ground (
          arith,
          calm,
          full,
          length-take (limit_or w.batch_size 10)
              (sort_by retry_before (filter (is_due now) s.items)),
          length-sort_by retry_before (filter (is_due now) s.items),
        ))
]

module _ (w : Worker) (k : Text) (pos : 0 < w.max_retries) (fits : longest_wait w ≤ 2 ^ 63) where
  -- What a tick leaves of the item.
  one_tick :
      (t : Tick) (state : Store × Metrics) (item : Item)
      → IsStore state.0.items
      → lookup k state.0.items ≡ some item
      → t.write ≡ none
      → lookup k (run_once w t.attempts t.now t.later t.write state).0.items
        ≡ change_at
            (λ i. settled w (t.attempts k) (t.attempts k).outcome (started t.now i))
            (contains k (keys (due_entries w.batch_size t.now state.0.items)))
            (some item)
  one_tick t (s, m) item v found written =
      rw (written, sym found) ((run_once_lem w t.attempts t.now t.later s m v).0 k)

  -- The item behind the tick.
  abbrev next_item : Tick → Bool → Item → Item
  next_item t picked item =
      if picked then settled w (t.attempts k) (t.attempts k).outcome (started t.now item) else item

  next_item-is :
      (t : Tick) (picked : Bool) (item : Item)
      → change_at
          (λ i. settled w (t.attempts k) (t.attempts k).outcome (started t.now i))
          picked
          (some item)
        ≡ some (next_item t picked item)
  next_item-is t true item = refl
  next_item-is t false item = refl

  next_item-IsComing :
      (t : Tick) (item : Item) (from due taken missed : ℕ) (picked chance : Bool)
      → from ≤ t.now
      → t.now ≤ t.later
      → (t.attempts k).now ≤ t.later
      → (picked ≡ true → item.status ≡ pending)
      → (chance ≡ true → due ≤ t.now)
      → (chance ≡ true → picked ≡ false → item.status ≡ pending → t.now < item.next_retry_at)
      → IsComing w due from (if chance then suc taken else missed) item
      → IsComing w
          (if chance then t.later + longest_wait w else due)
          t.later
          (if chance then taken else missed)
          (next_item t picked item)
  next_item-IsComing t item from due taken missed true true a b c was come not_due h =
      chance-picked-IsComing w item (next_item t true item) due from t.now (t.attempts k).now
        t.later a b c taken (was refl)
        (settled-IsTried w (t.attempts k) (t.attempts k).outcome t.now item pos fits) h
  next_item-IsComing t item from due taken missed true false a b c was come not_due h =
      picked-IsComing w item (next_item t true item) due from t.now (t.attempts k).now t.later a b c
        missed (was refl)
        (settled-IsTried w (t.attempts k) (t.attempts k).outcome t.now item pos fits) h
  next_item-IsComing t item from due taken missed false true a b c was come not_due h =
      chance-left-IsComing w item item due from t.now (t.attempts k).now t.later a b c taken
        (not_due refl refl) (come refl) h
  next_item-IsComing t item from due taken missed false false a b c was come not_due h =
      left-IsComing w item item due from t.now (t.attempts k).now t.later a b c missed h

  -- The chances behind a tick.
  chances_behind :
      (due : ℕ) (t : Tick) (ts : List Tick) (state : Store × Metrics)
      → let chance = leb due t.now && is_calm w t.now state.0.items in
        let next = run_once w t.attempts t.now t.later t.write state in
        (if chance then chances w (t.later + longest_wait w) ts next else chances w due ts next)
        ≡ chances w (if chance then t.later + longest_wait w else due) ts next
  chances_behind due t ts state =
      elim (Bool-cases (leb due t.now && is_calm w t.now state.0.items)) [
        | inl e ↦ rw e refl
        | inr e ↦ rw e refl
      ]

  at_last : (due from : ℕ) (item : Item) → IsComing w due from 0 item → IsSettled item
  at_last due from item (inl d) = d
  at_last due from item (inr (p, inl (_, some_left, _))) = absurd (omega (arith, some_left))
  at_last due from item (inr (p, inr (_, below, enough))) = absurd (omega (arith, below, enough))

  run-IsComing :
      (ts : List Tick) (state : Store × Metrics) (due from : ℕ) (item : Item)
      → IsStore state.0.items
      → lookup k state.0.items ≡ some item
      → IsSteady k from ts
      → IsComing w due from (chances w due ts state) item
      → (last : Item) × (lookup k (run w ts state).0.items ≡ some last) × IsSettled last
  unfolding run chances
  run-IsComing [] state due from item v found steady h = (item, found, at_last due from item h)
  run-IsComing (t ∷ ts) state due from item v found (written, a, b, c, steady) h =
      let items = state.0.items in
      let picked = contains k (keys (due_entries w.batch_size t.now items)) in
      let chance = leb due t.now && is_calm w t.now items in
      let next = run_once w t.attempts t.now t.later t.write state in
      let coming =
        next_item-IsComing t item from due (chances w (t.later + longest_wait w) ts next)
          (chances w due ts next) picked chance a b c
          (λ e. picked_is_pending w.batch_size t.now k state.0 item v found e)
          (λ e. ground (arith, e))
          (λ e left. calm_pick w t.now k state.0 item v found (ground (arith, e)) left) h in
      run-IsComing ts next (if chance then t.later + longest_wait w else due) t.later
        (next_item t picked item)
        (run_once-IsStore w t.attempts t.now t.later t.write state.0 state.1 v)
        (one_tick t state item v found written ∙ next_item-is t picked item) steady
        (subst
          (λ n.
            IsComing w (if chance then t.later + longest_wait w else due) t.later n
              (next_item t picked item))
          (chances_behind due t ts state) coming)

-- With a limit of retries, a pending item is done or failed behind any ticks of Run among which it has as
-- many chances as bring its attempts up to the limit, and at least one. A chance is a tick at which fewer
-- items are due than a tick takes, and which comes, for the first one, at the item's retry time or later,
-- and for any other one no sooner behind the last than the limit of the delay and the jitter together.
-- That the item is picked is not assumed, at a chance or at any other tick. The picks are written, the
-- clock does not go back, the limit and the jitter fit in an int64, and the ids of the store are well
-- formed.
pub run-IsSettled :
    (w : Worker) (k : Text) (ts : List Tick) (s : Store) (m : Metrics) (item : Item)
    → IsStore s.items
    → lookup k s.items ≡ some item
    → item.status ≡ pending
    → 0 < w.max_retries
    → longest_wait w ≤ 2 ^ 63
    → IsSteady k 0 ts
    → 0 < chances w item.next_retry_at ts (s, m)
    → w.max_retries ≤ item.attempt + chances w item.next_retry_at ts (s, m)
    → (last : Item) × (lookup k (run w ts (s, m)).0.items ≡ some last) × IsSettled last
run-IsSettled w k ts s m item v found p pos fits steady some_chances enough =
    run-IsComing w k pos fits ts (s, m) item.next_retry_at 0 item v found steady
      (inr (p, inl (omega arith, some_chances, enough)))
