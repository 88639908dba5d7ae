-- ===== src/Metrics/Top.antt =====
-- internal/metrics/collector.go: topK gives the largest counts.
use smtp_to_max_relay.Prelude.{
  ℕ, zero, suc, ◌≤◌, Bool, true, false, List, [], ◌∷◌, ◌++◌, some, ◌≡◌, ap, ◌∙◌, ◌⊎◌, inl, inr,
  arith, length, take, drop, Bool-cases, length-take, take-append-drop, All,
}
use smtp_to_max_relay.Prelude.Text.{Text, contains}
use smtp_to_max_relay.Prelude.Text.Laws.{text_before_asym, text_before_trans}
use smtp_to_max_relay.Prelude.Assoc.{Assoc, lookup, keys, Distinct}
use smtp_to_max_relay.Prelude.Assoc.Entries.{
  Stored, Stored-self, All-take, All-drop, All-at_key, contains_of_lookup, contains-keys-sort_by,
  contains-keys-append,
}
use smtp_to_max_relay.Prelude.Sorting.{sort_by, IsSorted, sort_by-IsSorted, All-sort_by}
use smtp_to_max_relay.Metrics.Report.{count_before, top_k}

count_before_asym : (a b : Text × ℕ) → count_before a b ≡ true → count_before b a ≡ false
count_before_asym a b h = ground (arith, h, text_before_asym a.0 b.0)

count_before_trans :
    (a b c : Text × ℕ)
    → count_before b a ≡ false
    → count_before c b ≡ false
    → count_before c a ≡ false
count_before_trans a b c h k = ground (arith, h, k, text_before_trans a.0 b.0 c.0)

sorted : (m : Assoc ℕ) → IsSorted count_before (sort_by count_before m)
sorted m = sort_by-IsSorted count_before count_before_asym count_before_trans m

-- Nothing behind the cut is before what is in front of it.
IsSorted-cut {ℓ} :
    {A : Type ℓ} (before : A → A → Bool) (n : ℕ) (xs : List A)
    → IsSorted before xs
    → All (λ x. All (λ y. before y x ≡ false) (drop n xs)) (take n xs)
IsSorted-cut before zero xs h = tt
IsSorted-cut before (suc n) [] h = tt
IsSorted-cut before (suc n) (x ∷ xs) h =
    (All-drop (λ y. before y x ≡ false) n xs h.0, IsSorted-cut before n xs h.1)

IsSorted-take {ℓ} :
    {A : Type ℓ} (before : A → A → Bool) (n : ℕ) (xs : List A)
    → IsSorted before xs
    → IsSorted before (take n xs)
IsSorted-take before zero xs h = tt
IsSorted-take before (suc n) [] h = tt
IsSorted-take before (suc n) (x ∷ xs) h =
    (All-take (λ y. before y x ≡ false) n xs h.0, IsSorted-take before n xs h.1)

-- An entry of the map is taken, or everything taken counts at least as much.
abbrev pub IsTop : Assoc ℕ → ℕ → Assoc ℕ → Type 0
IsTop m n top =
    (length top ≤ n)
    × Stored m top
    × IsSorted count_before top
    × ((k : Text) (v : ℕ)
        → lookup k m ≡ some v
        → (contains k (keys top) ≡ true) ⊎ All (λ e. v ≤ e.1) top)

pub All-map {ℓ κ} :
    {A : Type ℓ} (P Q : A → Type κ) (xs : List A) → ((x : A) → P x → Q x) → All P xs → All Q xs
All-map P Q [] f h = tt
All-map P Q (x ∷ xs) f h = (f x h.0, All-map P Q xs f h.1)

pub top_k-IsTop : (m : Assoc ℕ) (n : ℕ) → Distinct (keys m) → IsTop m n (top_k m n)
unfolding top_k
top_k-IsTop m n d =
    let s = sort_by count_before m in
    let stored : Stored m s =
      All-sort_by count_before (λ e. lookup e.0 m ≡ some e.1) m (Stored-self m d) in
    (
      ground (arith, length-take n s),
      All-take (λ e. lookup e.0 m ≡ some e.1) n s stored,
      IsSorted-take count_before n s (sorted m),
      λ k v found. elim (Bool-cases (contains k (keys (take n s)))) [
        | inl e ↦ inl e
        | inr e ↦ inr (
            All-map _ (λ e. v ≤ e.1) (take n s)
              (λ x h. below x k v (
                All-at_key (λ y. count_before y x ≡ false) k m (drop n s)
                  (All-drop (λ e. lookup e.0 m ≡ some e.1) n s stored) h (behind k v found e)
                  found))
              (IsSorted-cut count_before n s (sorted m)))
      ],
    )
  where
    below : (x : Text × ℕ) (k : Text) (v : ℕ) → count_before (k, v) x ≡ false → v ≤ x.1
    below x k v h = ground (arith, h)

    behind :
        (k : Text) (v : ℕ)
        → lookup k m ≡ some v
        → contains k (keys (take n (sort_by count_before m))) ≡ false
        → contains k (keys (drop n (sort_by count_before m))) ≡ true
    behind k v found e =
        let s = sort_by count_before m in
        let all_of : contains k (keys (take n s ++ drop n s)) ≡ true =
          ap (λ l. contains k (keys l)) (take-append-drop n s)
          ∙ contains-keys-sort_by count_before k m
          ∙ contains_of_lookup k m {v = v} found in
        ground (arith, all_of, e, contains-keys-append k (take n s) (drop n s))
