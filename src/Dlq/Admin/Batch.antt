-- ===== src/Dlq/Admin/Batch.antt =====
-- internal/dlq/admin.go: what /replay_batch selects, and what it reports.
use smtp_to_max_relay.Prelude.{
  ℕ, zero, suc, ◌+◌, ◌-◌, ◌≤◌, ◌<◌, Bool, true, false, List, [], ◌∷◌, Option, none, some, ◌≡◌, refl,
  arith, if◌then◌else◌, ◌==◌, length, filter, take, length-take, Bool-cases, inl, inr, ap, sym, ◌∙◌,
  ◌⊎◌, ◌≢◌, ltb, is_empty,
}
use smtp_to_max_relay.Prelude.Text.{Text, codes, text_eq, trim_space, to_lower}
use smtp_to_max_relay.Prelude.Text.Laws.{text_eq_iff}
use smtp_to_max_relay.Prelude.Assoc.{values}
use smtp_to_max_relay.Prelude.Sorting.{sort_by}
use smtp_to_max_relay.Dlq.Item.{Status, Item, Store, is_pending, is_failed}
use smtp_to_max_relay.Dlq.Queries.{list}
use smtp_to_max_relay.Dlq.Worker.{Attempt}
use smtp_to_max_relay.Dlq.Admin.{
  Admin, ReplayReply, replay, parse_replay_batch_mode, select_from, BatchReply, batch_usage,
  nothing_to_replay, batch_done, is_replay_done, replay_selected, batch_of, batch_in_mode,
  replay_batch,
}

-- The loop selects the first wanted items, up to the limit.
select_from-take :
    (limit selected : ℕ) (want : Status → Bool) (items : List Item)
    → selected < limit
    → select_from limit selected want items
      ≡ take (limit - selected) (filter (λ item. want item.status) items)
unfolding select_from
select_from-take limit selected want [] h = take-nil (limit - selected)
  where
    take-nil : (n : ℕ) → ◌≡◌ {A = List Item} [] (take n [])
    take-nil zero = refl
    take-nil (suc n) = refl
select_from-take limit selected want (item ∷ items) h = elim (Bool-cases (want item.status)) [
  | inr e ↦ rw e (select_from-take limit selected want items h)
  | inl e ↦
      let next : limit - selected ≡ suc (limit - (selected + 1)) = omega (arith, h) in
      elim (Bool-cases (selected + 1 == limit)) [
        | inl l ↦
            let one : limit - selected ≡ suc zero = ground (arith, l, h) in rw (e, l, one) refl
        | inr l ↦
            let below : selected + 1 < limit = ground (arith, l, h) in
            rw (e, l, next)
              (ap (λ rest. item ∷ rest) (select_from-take limit (selected + 1) want items below))
      ]
]

-- What the mode's text asks for, without its case and outer spaces.
pub data IsMode (mode : Text) : Option (Status → Bool) → Type 0 where
  the_pending :
      (trim_space (to_lower mode) ≡ []) ⊎ (trim_space (to_lower mode) ≡ codes "only_pending")
      → IsMode mode (some is_pending)
  the_failed : trim_space (to_lower mode) ≡ codes "only_failed" → IsMode mode (some is_failed)
  unknown :
      trim_space (to_lower mode) ≢ []
      → trim_space (to_lower mode) ≢ codes "only_pending"
      → trim_space (to_lower mode) ≢ codes "only_failed"
      → IsMode mode none

not_equal : (s t : Text) → text_eq s t ≡ false → s ≢ t
not_equal s t h e = absurd (ground (arith, h, (text_eq_iff s t).1 e))

empty_text : (t : Text) → is_empty t ≡ true → t ≡ []
empty_text [] h = refl
empty_text (c ∷ t) h = cc

parse_replay_batch_mode-IsMode : (mode : Text) → IsMode mode (parse_replay_batch_mode mode)
unfolding parse_replay_batch_mode
parse_replay_batch_mode-IsMode mode =
    let v = trim_space (to_lower mode) in
    elim (Bool-cases (is_empty v)) [
      | inl e ↦ rw e (the_pending (inl (empty_text v e)))
      | inr e ↦ elim (Bool-cases (text_eq v (codes "only_pending"))) [
        | inl p ↦ rw (e, p) (the_pending (inr ((text_eq_iff v (codes "only_pending")).0 p)))
        | inr p ↦ elim (Bool-cases (text_eq v (codes "only_failed"))) [
          | inl f ↦ rw (e, p, f) (the_failed ((text_eq_iff v (codes "only_failed")).0 f))
          | inr f ↦
              rw (e, p, f)
                (unknown (λ empty. absurd (ground (arith, ap is_empty empty, e)))
                  (not_equal v (codes "only_pending") p) (not_equal v (codes "only_failed") f))
        ]
      ]
    ]

-- The items replayed one behind the other, each in the store that the one before it has left, with the
-- numbers of those that were done and of those that were not.
pub data Replays (admin : Admin) (env : Text → Attempt)
    : List Item → Store → Store → ℕ → ℕ → Type 0 where
  none_left : {s : Store} → Replays admin env [] s s zero zero
  one_done :
      (item : Item) {items : List Item} {s last : Store} {good bad : ℕ}
      → is_replay_done (replay admin env item.id s).1 ≡ true
      → Replays admin env items (replay admin env item.id s).0 last good bad
      → Replays admin env (item ∷ items) s last (suc good) bad
  one_not_done :
      (item : Item) {items : List Item} {s last : Store} {good bad : ℕ}
      → is_replay_done (replay admin env item.id s).1 ≡ false
      → Replays admin env items (replay admin env item.id s).0 last good bad
      → Replays admin env (item ∷ items) s last good (suc bad)

Replays-counts :
    (admin : Admin) (env : Text → Attempt) (items : List Item) (s last : Store) (good bad : ℕ)
    → Replays admin env items s last good bad
    → good + bad ≡ length items
Replays-counts admin env [] s last zero zero none_left = refl
Replays-counts admin env [] s last zero (suc bad) h = elim h [ ]
Replays-counts admin env [] s last (suc good) bad h = elim h [ ]
Replays-counts admin env (item ∷ items) s last (suc good) bad (one_done same d rest) =
    omega (arith, Replays-counts admin env items (replay admin env item.id s).0 last good bad rest)
Replays-counts admin env (item ∷ items) s last good (suc bad) (one_not_done same d rest) =
    omega (arith, Replays-counts admin env items (replay admin env item.id s).0 last good bad rest)

-- The loop's result: what was counted before is added.
abbrev Counted : Admin → (Text → Attempt) → List Item → Store → ℕ → ℕ → Store × (ℕ × ℕ) → Type 0
Counted admin env items s good bad r =
    (g : ℕ) × (b : ℕ) × Replays admin env items s r.0 g b × (r.1.0 ≡ good + g) × (r.1.1 ≡ bad + b)

replay_selected-Replays :
    (admin : Admin) (env : Text → Attempt) (items : List Item) (s : Store) (good bad : ℕ)
    → Counted admin env items s good bad (replay_selected admin env items s good bad)
unfolding replay_selected
replay_selected-Replays admin env [] s good bad = (0, 0, none_left, omega arith, omega arith)
replay_selected-Replays admin env (item ∷ items) s good bad =
    counted (is_replay_done r.1) refl (replay_selected-Replays admin env items r.0)
  where
    r : Store × ReplayReply
    r = replay admin env item.id s

    counted :
        (d : Bool)
        → is_replay_done r.1 ≡ d
        → ((x y : ℕ) → Counted admin env items r.0 x y (replay_selected admin env items r.0 x y))
        → Counted admin env (item ∷ items) s good bad (
            replay_selected admin env items r.0
              (if d then good + 1 else good)
              (if d then bad else bad + 1))
    counted true e later =
        let (g, b, all, gs, bs) = later (good + 1) bad in
        (suc g, b, one_done item e all, omega (arith, gs), bs)
    counted false e later =
        let (g, b, all, gs, bs) = later good (bad + 1) in
        (g, suc b, one_not_done item e all, gs, omega (arith, bs))

-- The items that a batch replays: of the million that changed last, the latest change first, the first
-- `limit` ones of a wanted status.
unfoldable pub batch_items : ℕ → (Status → Bool) → Store → List Item
batch_items limit want s = take limit (
    filter (λ item. want item.status)
      (take 1000000 (sort_by (λ a b. ltb b.updated_at a.updated_at) (values s.items))))

-- What a batch leaves: the usage, and nothing changed; no item, and nothing changed; or the items
-- replayed one behind the other, the store as the last one leaves it, and a report that counts
-- each of them once.
pub data IsBatch (admin : Admin) (env : Text → Attempt) (limit : ℕ) (mode : Text) (s : Store)
    : Store × BatchReply → Type 0 where
  refused : (limit ≡ 0) ⊎ IsMode mode none → IsBatch admin env limit mode s (s, batch_usage)
  no_items :
      (want : Status → Bool)
      → 0 < limit
      → IsMode mode (some want)
      → batch_items limit want s ≡ []
      → IsBatch admin env limit mode s (s, nothing_to_replay)
  replayed :
      (want : Status → Bool) (items : List Item) (last : Store) (good bad : ℕ)
      → IsMode mode (some want)
      → items ≡ batch_items limit want s
      → 0 < length items
      → length items ≤ limit
      → Replays admin env items s last good bad
      → good + bad ≡ length items
      → IsBatch admin env limit mode s (last, batch_done (length items) good bad)

batch_of-IsBatch :
    (admin : Admin) (env : Text → Attempt) (limit : ℕ) (mode : Text) (s : Store)
    (want : Status → Bool) (items : List Item)
    → 0 < limit
    → IsMode mode (some want)
    → items ≡ batch_items limit want s
    → IsBatch admin env limit mode s (batch_of admin env items s)
unfolding batch_of batch_items
batch_of-IsBatch admin env limit mode s want [] pos m e = no_items want pos m (sym e)
batch_of-IsBatch admin env limit mode s want (item ∷ items) pos m e =
    let r = replay_selected admin env (item ∷ items) s 0 0 in
    let (g, b, all, gs, bs) = replay_selected-Replays admin env (item ∷ items) s 0 0 in
    let good : r.1.0 ≡ g = omega (arith, gs) in
    let bad : r.1.1 ≡ b = omega (arith, bs) in
    let bounded : length (item ∷ items) ≤ limit = omega (
      arith,
      ap length e,
      length-take limit (
          filter (λ item. want item.status)
            (take 1000000 (sort_by (λ a b. ltb b.updated_at a.updated_at) (values s.items)))),
    ) in
    rw (good, bad)
      (replayed want (item ∷ items) r.0 g b m e (omega arith) bounded all
        (Replays-counts admin env (item ∷ items) s r.0 g b all))

-- A batch with no limit or an unknown mode changes nothing. The mode is the pending items, by default or by
-- name, or the failed ones. The batch replays the first `limit` items of that status, the latest change
-- first among the million that changed last, one behind the other, each in the store that the one before
-- it has left, changes nothing if there is none, and its report counts each item once, as done or not.
pub replay_batch-IsBatch :
    (admin : Admin) (env : Text → Attempt) (limit : ℕ) (mode : Text) (s : Store)
    → IsBatch admin env limit mode s (replay_batch admin env limit mode s)
unfolding replay_batch batch_in_mode batch_items list
replay_batch-IsBatch admin env limit mode s = elim (Bool-cases (limit == 0)) [
  | inl e ↦ rw e (refused (inl (ground arith)))
  | inr e ↦ rw e (
      in_mode (ground (arith, e)) (parse_replay_batch_mode mode)
        (parse_replay_batch_mode-IsMode mode))
]
  where
    in_mode :
        0 < limit
        → (o : Option (Status → Bool)) → IsMode mode o
        → IsBatch admin env limit mode s (batch_in_mode admin env limit o s)
    in_mode h none m = refused (inr m)
    in_mode h (some want) m = batch_of-IsBatch admin env limit mode s want _ h m (
        select_from-take limit 0 want (list 1000000 s) h
        ∙ ap (λ n. take n (filter (λ item. want item.status) (list 1000000 s))) (omega arith))
