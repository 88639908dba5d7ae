-- ===== src/Dlq/Store/Picking.antt =====
-- What PickDue takes, and what it leaves.
use smtp_to_max_relay.Prelude.{
  ℕ, zero, suc, Bool, true, false, List, [], ◌∷◌, none, some, ◌≡◌, refl, ap, ◌∙◌, ◌⊎◌, inl, inr,
  arith, filter, take, drop, length, take-append-drop, All, map,
}
use smtp_to_max_relay.Prelude.Result.{ok, err}
use smtp_to_max_relay.Prelude.Text.{Text, contains}
use smtp_to_max_relay.Prelude.Assoc.{Assoc, lookup, keys, values, Distinct}
use smtp_to_max_relay.Prelude.Assoc.Entries.{
  contains-keys-sort_by, contains-keys-append, All-at_key, contains-keys-filter-true, All-drop,
}
use smtp_to_max_relay.Prelude.Sorting.{IsSorted}
use smtp_to_max_relay.Dlq.Item.{Item, Store, io, retry_before, persisted}
use smtp_to_max_relay.Dlq.Store.{
  is_due, limit_or, due_entries, started, start_all, pick_entries, pick_due,
}
use smtp_to_max_relay.Dlq.Store.Due.{
  change_at, start_all-lookup, IsPick, ordered, ordered-IsSorted, ordered-Stored,
  due_entries-IsPick,
}

-- Nothing behind the cut is to be tried before what is in front of it.
sorted_split :
    {A : Type 0} (before : A → A → Bool) (n : ℕ) (xs : List A)
    → IsSorted before xs
    → All (λ e. All (λ x. before e x ≡ false) (take n xs)) (drop n xs)
sorted_split {A = A} before zero xs h = nothing xs
  where
    nothing : (ys : List A) → All (λ e. All (λ x. before e x ≡ false) []) ys
    nothing [] = tt
    nothing (y ∷ ys) = (tt, nothing ys)
sorted_split {A = A} before (suc n) [] h = tt
sorted_split {A = A} before (suc n) (x ∷ xs) h =
    both (drop n xs) (All-drop (λ y. before y x ≡ false) n xs h.0) (sorted_split before n xs h.1)
  where
    both :
        (ys : List A)
        → All (λ y. before y x ≡ false) ys
        → All (λ e. All (λ z. before e z ≡ false) (take n xs)) ys
        → All (λ e. All (λ z. before e z ≡ false) (x ∷ take n xs)) ys
    both [] a b = tt
    both (y ∷ ys) a b = ((a.0, b.0), both ys a.1 b.1)

drop_full {ℓ} : {A : Type ℓ} (n : ℕ) (xs : List A) → (length (take n xs) ≡ n) ⊎ (drop n xs ≡ [])
drop_full zero xs = inl refl
drop_full (suc n) [] = inr refl
drop_full (suc n) (x ∷ xs) = elim (drop_full n xs) [ inl e ↦ inl (ap suc e) | inr e ↦ inr e ]

-- An item that is due and not picked has had no earlier time than any that is, and the pick is full.
pub due_left :
    (limit now : ℕ) (items : Assoc Item) (k : Text) (item : Item)
    → Distinct (keys items)
    → lookup k items ≡ some item
    → is_due now (k, item) ≡ true
    → contains k (keys (due_entries limit now items)) ≡ false
    → All (λ e. retry_before (k, item) e ≡ false) (due_entries limit now items)
      × (length (due_entries limit now items) ≡ limit_or limit 10)
unfolding due_entries
due_left limit now items k item d found due left = (
  All-at_key (λ e. All (λ x. retry_before e x ≡ false) (take n xs)) k items (drop n xs)
      (All-drop _ n xs (ordered-Stored now items d))
      (sorted_split retry_before n xs (ordered-IsSorted now items)) behind found,
  full (drop_full n xs),
)
  where
    n : ℕ
    n = limit_or limit 10

    xs : Assoc Item
    xs = ordered now items

    present : contains k (keys xs) ≡ true
    present =
        contains-keys-sort_by retry_before k (filter (is_due now) items)
        ∙ contains-keys-filter-true (is_due now) k items found due

    behind : contains k (keys (drop n xs)) ≡ true
    behind = ground (
      arith,
      ap (λ (l : Assoc Item). contains k (keys l)) (take-append-drop n xs),
      contains-keys-append k (take n xs) (drop n xs),
      present,
    )

    full : ((length (take n xs) ≡ n) ⊎ (drop n xs ≡ [])) → length (take n xs) ≡ n
    full (inl e) = e
    full (inr e) =
        absurd (ground (arith, ap (λ (l : Assoc Item). contains k (keys l)) e, none_there, behind))
      where
        none_there : contains k [] ≡ false
        none_there = unfold contains in refl

pick_entries_lem :
    (now : ℕ) (entries : Assoc Item) (s : Store)
    → ((pick_entries now entries none s).0.items ≡ start_all now entries s.items)
      × ((pick_entries now entries none s).1 ≡ ok (map (started now) (values entries)))
unfolding pick_entries start_all persisted
pick_entries_lem now [] s = (refl, refl)
pick_entries_lem now (e ∷ entries) s = (refl, refl)

-- When its write fails, PickDue returns the error, if it has picked anything, and leaves the file as
-- it was, but the picked items are processing in memory all the same. The store's ids are
-- different.
pub pick_due_failed :
    (limit now : ℕ) (e : Text) (s : Store) (k : Text)
    → Distinct (keys s.items)
    → let picked = due_entries limit now s.items in
      let (after, result) = pick_due limit now (some e) s in
      (lookup k after.items ≡ change_at (started now) (contains k (keys picked)) (lookup k s.items))
      × (after.disk ≡ s.disk)
      × ((picked ≡ []) ⊎ (result ≡ err (io e)))
unfolding pick_due
pick_due_failed limit now e s k d =
    let good = due_entries-IsPick limit now s.items d in
    let changed =
      start_all-lookup now (due_entries limit now s.items) s.items k good.distinct good.stored in
    failed_entries (due_entries limit now s.items) changed
  where
    failed_entries :
        (entries : Assoc Item)
        → lookup k (start_all now entries s.items)
          ≡ change_at (started now) (contains k (keys entries)) (lookup k s.items)
        → let (after, result) = pick_entries now entries (some e) s in
          (lookup k after.items
            ≡ change_at (started now) (contains k (keys entries)) (lookup k s.items))
          × (after.disk ≡ s.disk)
          × ((entries ≡ []) ⊎ (result ≡ err (io e)))
    failed_entries [] h = unfold pick_entries start_all in (h, refl, inl refl)
    failed_entries (x ∷ entries) h = unfold pick_entries persisted in (h, refl, inr refl)

-- PickDue, when its write succeeds, returns the picked items as processing; in the store it has
-- changed exactly those, and it leaves a due item behind only if the pick is full of items whose
-- retry time is no later. The picked items are stored and due, at most `limit` (10 for 0), no two
-- have one id, and an earlier retry time comes first. The store's ids are different.
pub pick_due_lem :
    (limit now : ℕ) (s : Store)
    → Distinct (keys s.items)
    → let (after, result) = pick_due limit now none s in
      let picked = due_entries limit now s.items in
      (result ≡ ok (map (started now) (values picked)))
      × IsPick limit now s.items picked
      × ((k : Text)
          → lookup k after.items
            ≡ change_at (started now) (contains k (keys picked)) (lookup k s.items))
      × ((k : Text) (item : Item)
          → lookup k s.items ≡ some item
          → is_due now (k, item) ≡ true
          → contains k (keys picked) ≡ false
          → All (λ e. retry_before (k, item) e ≡ false) picked
            × (length picked ≡ limit_or limit 10))
unfolding pick_due
pick_due_lem limit now s d =
    let picked = due_entries limit now s.items in
    let good = due_entries-IsPick limit now s.items d in
    let (stored, returned) = pick_entries_lem now picked s in
    (
      returned,
      good,
      (λ k. ap (lookup k) stored ∙ start_all-lookup now picked s.items k good.distinct good.stored),
      (λ k item. due_left limit now s.items k item d),
    )
