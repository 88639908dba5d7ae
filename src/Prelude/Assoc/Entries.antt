-- ===== src/Prelude/Assoc/Entries.antt =====
-- Entries of a map: what is looked up, kept by filtering, sorting and taking.
use Prim.Native.Nat.{ℕ, zero, suc}
use mathlib.Core.Path.{◌≡◌, refl, subst, ◌∙◌}
use mathlib.Core.Logic.{inl, inr}
use mathlib.Core.Bool.{Bool, true, false, ◌||◌}
use mathlib.Core.Option.{none, some}
use mathlib.Core.List.{List, [], ◌∷◌, ◌++◌}
use native.Mathlib.Omega.{arith}
use smtp_to_max_relay.Prelude.Tests.{Bool-cases}
use smtp_to_max_relay.Prelude.Lists.{filter, take, drop, All}
use smtp_to_max_relay.Prelude.Sorting.{insert_by, sort_by}
use smtp_to_max_relay.Prelude.Text.{Text, text_eq, contains}
use smtp_to_max_relay.Prelude.Text.Laws.{text_eq_iff, text_eq_refl}
use smtp_to_max_relay.Prelude.Assoc.{Assoc, lookup, insert, delete, keys, Distinct, lookup-insert}

module _ {ℓ} {V : Type ℓ} where
  -- Each entry is what the map holds at its key.
  abbrev pub Stored : Assoc V → Assoc V → Type ℓ
  Stored m = All (λ e. lookup e.0 m ≡ some e.1)

  pub lookup_absent : (k : Text) (m : Assoc V) → contains k (keys m) ≡ false → lookup k m ≡ none
  unfolding lookup contains
  lookup_absent k [] h = refl
  lookup_absent k ((j, v) ∷ m) h = ground (arith, lookup_absent k m)

  pub contains_of_lookup :
      (k : Text) (m : Assoc V) {v : V} → lookup k m ≡ some v → contains k (keys m) ≡ true
  unfolding lookup contains
  contains_of_lookup k [] h = cc
  contains_of_lookup k ((j, w) ∷ m) {v} h = ground (arith, contains_of_lookup k m {v = v})

  -- Adding an entry under another key in front or in place keeps what is stored.
  Stored-cons :
      (k : Text) (v : V) (m entries : Assoc V)
      → contains k (keys entries) ≡ false
      → Stored m entries
      → Stored ((k, v) ∷ m) entries
  unfolding lookup contains
  Stored-cons k v m [] h s = tt
  Stored-cons k v m ((j, w) ∷ entries) h s =
      ground (arith, Stored-cons k v m entries, text_eq_iff k j, text_eq_iff j k)

  pub Stored-insert :
      (k : Text) (v : V) (m entries : Assoc V)
      → contains k (keys entries) ≡ false
      → Stored m entries
      → Stored (insert k v m) entries
  unfolding contains
  Stored-insert k v m [] h s = tt
  Stored-insert k v m ((j, w) ∷ entries) h s =
      ground (
        arith,
        Stored-insert k v m entries,
        lookup-insert k j v m,
        text_eq_iff k j,
        text_eq_iff j k,
      )

  pub Stored-self : (m : Assoc V) → Distinct (keys m) → Stored m m
  unfolding lookup
  Stored-self [] d = tt
  Stored-self ((k, v) ∷ m) d = (rw (text_eq_refl k), Stored-cons k v m m d.0 (Stored-self m d.1))

  contains-keys-filter :
      (p : Text × V → Bool) (k : Text) (m : Assoc V)
      → contains k (keys m) ≡ false
      → contains k (keys (filter p m)) ≡ false
  unfolding contains
  contains-keys-filter p k [] h = h
  contains-keys-filter p k ((j, v) ∷ m) h = ground (arith, contains-keys-filter p k m)

  pub filter-Distinct :
      (p : Text × V → Bool) (m : Assoc V) → Distinct (keys m) → Distinct (keys (filter p m))
  filter-Distinct p [] d = tt
  filter-Distinct p ((j, v) ∷ m) d =
      ground (arith, filter-Distinct p m d.1, contains-keys-filter p j m d.0)

  contains-keys-insert_by :
      (before : Text × V → Text × V → Bool) (k : Text) (e : Text × V) (m : Assoc V)
      → contains k (keys (insert_by before e m)) ≡ (text_eq e.0 k || contains k (keys m))
  unfolding contains insert_by
  contains-keys-insert_by before k e [] = refl
  contains-keys-insert_by before k e (x ∷ m) = ground (arith, contains-keys-insert_by before k e m)

  pub contains-keys-sort_by :
      (before : Text × V → Text × V → Bool) (k : Text) (m : Assoc V)
      → contains k (keys (sort_by before m)) ≡ contains k (keys m)
  unfolding contains sort_by
  contains-keys-sort_by before k [] = refl
  contains-keys-sort_by before k (e ∷ m) = ground (
    arith,
    contains-keys-insert_by before k e (sort_by before m),
    contains-keys-sort_by before k m,
  )

  insert_by-Distinct :
      (before : Text × V → Text × V → Bool) (e : Text × V) (m : Assoc V)
      → contains e.0 (keys m) ≡ false
      → Distinct (keys m)
      → Distinct (keys (insert_by before e m))
  unfolding insert_by contains
  insert_by-Distinct before e [] h d = (refl, tt)
  insert_by-Distinct before e (x ∷ m) h d = ground (
    arith,
    insert_by-Distinct before e m,
    contains-keys-insert_by before x.0 e m,
    text_eq_iff e.0 x.0,
    text_eq_iff x.0 e.0,
  )

  pub sort_by-Distinct :
      (before : Text × V → Text × V → Bool) (m : Assoc V)
      → Distinct (keys m)
      → Distinct (keys (sort_by before m))
  unfolding sort_by
  sort_by-Distinct before [] d = tt
  sort_by-Distinct before (e ∷ m) d =
      insert_by-Distinct before e (sort_by before m) (contains-keys-sort_by before e.0 m ∙ d.0)
        (sort_by-Distinct before m d.1)

  contains-keys-take :
      (n : ℕ) (k : Text) (m : Assoc V)
      → contains k (keys m) ≡ false
      → contains k (keys (take n m)) ≡ false
  unfolding contains
  contains-keys-take zero k m h = refl
  contains-keys-take (suc n) k [] h = refl
  contains-keys-take (suc n) k (e ∷ m) h = ground (arith, contains-keys-take n k m)

  pub take-Distinct : (n : ℕ) (m : Assoc V) → Distinct (keys m) → Distinct (keys (take n m))
  take-Distinct zero m d = tt
  take-Distinct (suc n) [] d = tt
  take-Distinct (suc n) (e ∷ m) d = (contains-keys-take n e.0 m d.0, take-Distinct n m d.1)

  pub contains-keys-append :
      (k : Text) (m n : Assoc V)
      → contains k (keys (m ++ n)) ≡ (contains k (keys m) || contains k (keys n))
  unfolding contains
  contains-keys-append k [] n = refl
  contains-keys-append k (e ∷ m) n = ground (arith, contains-keys-append k m n)

  -- What holds of every stored entry holds of what the map has at a key of theirs.
  pub All-at_key {κ} :
      (P : Text × V → Type κ) (k : Text) (m entries : Assoc V) {v : V}
      → Stored m entries
      → All P entries
      → contains k (keys entries) ≡ true
      → lookup k m ≡ some v
      → P (k, v)
  unfolding contains
  All-at_key P k m [] s h c e = absurd (ground arith)
  All-at_key P k m ((j, w) ∷ entries) {v} s h c e = elim (Bool-cases (text_eq j k)) [
    | inl same ↦
        let same_key : j ≡ k = (text_eq_iff j k).0 same in
        let same_value : w ≡ v = ground (arith, s.0, e) in rw (← same_key, ← same_value) h.0
    | inr other ↦ All-at_key P k m entries s.1 h.1 (ground arith) e
  ]

  pub contains-keys-filter-true :
      (p : Text × V → Bool) (k : Text) (m : Assoc V) {v : V}
      → lookup k m ≡ some v
      → p (k, v) ≡ true
      → contains k (keys (filter p m)) ≡ true
  unfolding contains lookup
  contains-keys-filter-true p k [] h e = cc
  contains-keys-filter-true p k ((j, w) ∷ m) {v} h e =
      ground (arith, contains-keys-filter-true p k m {v = v}, text_eq_iff j k)

pub All-take {ℓ κ} :
    {A : Type ℓ} (P : A → Type κ) (n : ℕ) (xs : List A) → All P xs → All P (take n xs)
All-take P zero xs h = tt
All-take P (suc n) [] h = tt
All-take P (suc n) (x ∷ xs) h = (h.0, All-take P n xs h.1)

pub All-drop {ℓ κ} :
    {A : Type ℓ} (P : A → Type κ) (n : ℕ) (xs : List A) → All P xs → All P (drop n xs)
All-drop P zero xs h = h
All-drop P (suc n) [] h = tt
All-drop P (suc n) (x ∷ xs) h = All-drop P n xs h.1

pub All-insert {ℓ κ} :
    {V : Type ℓ} (P : Text × V → Type κ) (k : Text) (v : V) (m : Assoc V)
    → P (k, v)
    → All P m
    → All P (insert k v m)
unfolding insert
All-insert P k v [] p h = (p, tt)
All-insert P k v ((j, w) ∷ m) p h = elim (Bool-cases (text_eq j k)) [
  | inl same ↦ rw same (p, h.1)
  | inr other ↦ rw other (h.0, All-insert P k v m p h.1)
]

pub keys-insert_old {ℓ} :
    {V : Type ℓ} (k : Text) (v : V) (m : Assoc V)
    → contains k (keys m) ≡ true
    → keys (insert k v m) ≡ keys m
unfolding insert contains
keys-insert_old k v [] h = cc
keys-insert_old k v ((j, w) ∷ m) h = ground (arith, keys-insert_old k v m, text_eq_iff j k)

pub All-delete {ℓ κ} :
    {V : Type ℓ} (P : Text × V → Type κ) (k : Text) (m : Assoc V) → All P m → All P (delete k m)
unfolding delete
All-delete P k [] h = tt
All-delete P k ((j, w) ∷ m) h = elim (Bool-cases (text_eq j k)) [
  | inl same ↦ rw same (All-delete P k m h.1)
  | inr other ↦ rw other (h.0, All-delete P k m h.1)
]

pub All-lookup {ℓ κ} :
    {V : Type ℓ} (P : Text × V → Type κ) (k : Text) (m : Assoc V) {v : V}
    → lookup k m ≡ some v
    → All P m
    → P (k, v)
unfolding lookup
All-lookup P k [] found h = cc
All-lookup P k ((j, w) ∷ m) {v} found h = elim (Bool-cases (text_eq j k)) [
  | inl e ↦
      let is : w ≡ v = ground (arith, rw e at found) in
      subst (λ u. P (k, u)) is (subst (λ i. P (i, w)) ((text_eq_iff j k).0 e) h.0)
  | inr e ↦ All-lookup P k m (rw e at found) h.1
]
