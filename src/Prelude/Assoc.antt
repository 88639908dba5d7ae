-- ===== src/Prelude/Assoc.antt =====
-- A Go map keyed by strings, as an association list. Iteration follows the list: a theorem about
-- every list covers every iteration order.
pub mod Entries
use mathlib.Core.Path.{◌≡◌, refl}
use mathlib.Core.Bool.{false}
use mathlib.Core.Option.{Option, none, some}
use mathlib.Core.List.{List, [], ◌∷◌}
use native.Mathlib.Omega.{arith}
use smtp_to_max_relay.Prelude.Tests.{if◌then◌else◌}
use smtp_to_max_relay.Prelude.Text.{Text, text_eq, contains}
use smtp_to_max_relay.Prelude.Text.Laws.{text_eq_iff}

abbrev pub Assoc {ℓ} : Type ℓ → Type ℓ
Assoc V = List (Text × V)

module _ {ℓ} {V : Type ℓ} where
  unfoldable pub lookup : Text → Assoc V → Option V
  lookup k [] = none
  lookup k ((j, v) ∷ m) = if text_eq j k then some v else lookup k m

  -- m[k] = v
  unfoldable pub insert : Text → V → Assoc V → Assoc V
  insert k v [] = (k, v) ∷ []
  insert k v ((j, w) ∷ m) =
      let rest = insert k v m in if text_eq j k then (k, v) ∷ m else (j, w) ∷ rest

  -- delete(m, k)
  unfoldable pub delete : Text → Assoc V → Assoc V
  delete k [] = []
  delete k ((j, v) ∷ m) = let rest = delete k m in if text_eq j k then rest else (j, v) ∷ rest

  abbrev pub keys : Assoc V → List Text
  keys [] = []
  keys ((k, v) ∷ m) = k ∷ keys m

  abbrev pub values : Assoc V → List V
  values [] = []
  values ((k, v) ∷ m) = v ∷ values m

  pub lookup-insert :
      (k j : Text) (v : V) (m : Assoc V)
      → lookup j (insert k v m) ≡ (if text_eq k j then some v else lookup j m)
  unfolding lookup insert
  lookup-insert k j v [] = refl
  lookup-insert k j v ((i, w) ∷ m) =
      ground (arith, text_eq_iff k j, text_eq_iff i k, text_eq_iff i j, lookup-insert k j v m)

  pub lookup-delete :
      (k j : Text) (m : Assoc V)
      → lookup j (delete k m) ≡ (if text_eq k j then none else lookup j m)
  unfolding lookup delete
  lookup-delete k j [] = ground arith
  lookup-delete k j ((i, w) ∷ m) =
      ground (arith, text_eq_iff k j, text_eq_iff i k, text_eq_iff i j, lookup-delete k j m)

-- No two entries are equal.
abbrev pub Distinct : List Text → Type 0
Distinct [] = Unit
Distinct (x ∷ xs) = (contains x xs ≡ false) × Distinct xs

module _ {ℓ} {V : Type ℓ} where
  contains-keys-insert :
      (t k : Text) (v : V) (m : Assoc V)
      → contains t (keys m) ≡ false
      → text_eq k t ≡ false
      → contains t (keys (insert k v m)) ≡ false
  unfolding insert contains
  contains-keys-insert t k v [] h e = ground arith
  contains-keys-insert t k v ((j, w) ∷ m) h e = ground (arith, contains-keys-insert t k v m)

  pub insert-Distinct :
      (k : Text) (v : V) (m : Assoc V) → Distinct (keys m) → Distinct (keys (insert k v m))
  unfolding insert contains
  insert-Distinct k v [] h = (refl, tt)
  insert-Distinct k v ((j, w) ∷ m) h = ground (
    arith,
    insert-Distinct k v m h.1,
    contains-keys-insert j k v m h.0,
    text_eq_iff j k,
    text_eq_iff k j,
  )

  contains-keys-delete :
      (t k : Text) (m : Assoc V)
      → contains t (keys m) ≡ false
      → contains t (keys (delete k m)) ≡ false
  unfolding delete contains
  contains-keys-delete t k [] h = h
  contains-keys-delete t k ((j, w) ∷ m) h = ground (arith, contains-keys-delete t k m)

  pub delete-Distinct : (k : Text) (m : Assoc V) → Distinct (keys m) → Distinct (keys (delete k m))
  unfolding delete contains
  delete-Distinct k [] h = tt
  delete-Distinct k ((j, w) ∷ m) h =
      ground (arith, delete-Distinct k m h.1, contains-keys-delete j k m h.0)
