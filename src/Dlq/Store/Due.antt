-- ===== src/Dlq/Store/Due.antt =====
-- internal/dlq/store.go: the due items in their order, and what starting them changes.
use smtp_to_max_relay.Prelude.{
  ℕ, zero, suc, ◌≤◌, Bool, true, false, List, [], ◌∷◌, Option, none, some, ◌≡◌, ◌∙◌, arith, filter,
  take, length, length-take, All, All-filter,
}
use smtp_to_max_relay.Prelude.Text.{Text, contains}
use smtp_to_max_relay.Prelude.Text.Laws.{text_eq_iff}
use smtp_to_max_relay.Prelude.Assoc.{Assoc, lookup, insert, keys, Distinct, lookup-insert}
use smtp_to_max_relay.Prelude.Assoc.Entries.{
  Stored, Stored-self, Stored-insert, filter-Distinct, sort_by-Distinct, take-Distinct, All-take,
}
use smtp_to_max_relay.Prelude.Sorting.{sort_by, IsSorted, All-sort_by, sort_by-IsSorted}
use smtp_to_max_relay.Dlq.Item.{Item, retry_before}
use smtp_to_max_relay.Dlq.Store.{is_due, limit_or, due_entries, started, start_all}

abbrev pub change_at : (Item → Item) → Bool → Option Item → Option Item
change_at f true (some item) = some (f item)
change_at f true none = none
change_at f false found = found

pub start_all-lookup :
    (now : ℕ) (entries items : Assoc Item) (k : Text)
    → Distinct (keys entries)
    → Stored items entries
    → lookup k (start_all now entries items)
      ≡ change_at (started now) (contains k (keys entries)) (lookup k items)
unfolding start_all contains
start_all-lookup now [] items k d s = ground arith
start_all-lookup now ((id, item) ∷ entries) items k d s =
    start_all-lookup now entries (insert id (started now item) items) k d.1
      (Stored-insert id (started now item) items entries d.0 s.1)
    ∙ ground (arith, lookup-insert id k (started now item) items, text_eq_iff id k, s.0, d.0)

pub All-filter_test {ℓ} :
    {A : Type ℓ} (p : A → Bool) (xs : List A) → All (λ x. p x ≡ true) (filter p xs)
All-filter_test p [] = tt
All-filter_test p (x ∷ xs) = ground (arith, All-filter_test p xs)

-- The picked entries: stored, due, different, within the limit and the most overdue first.
pub record IsPick (limit now : ℕ) (items entries : Assoc Item) : Type 0 where
  pub stored : Stored items entries
  pub due : All (λ e. is_due now e ≡ true) entries
  pub distinct : Distinct (keys entries)
  pub bounded : length entries ≤ limit_or limit 10
  pub sorted : IsSorted retry_before entries

pub take-IsSorted {ℓ} :
    {A : Type ℓ} (before : A → A → Bool) (n : ℕ) (xs : List A)
    → IsSorted before xs
    → IsSorted before (take n xs)
take-IsSorted before zero xs h = tt
take-IsSorted before (suc n) [] h = tt
take-IsSorted before (suc n) (x ∷ xs) h =
    (All-take (λ y. before y x ≡ false) n xs h.0, take-IsSorted before n xs h.1)

abbrev pub ordered : ℕ → Assoc Item → Assoc Item
ordered now items = sort_by retry_before (filter (is_due now) items)

pub ordered-IsSorted : (now : ℕ) (items : Assoc Item) → IsSorted retry_before (ordered now items)
ordered-IsSorted now items =
    sort_by-IsSorted retry_before (λ a b h. ground arith) (λ a b c h k. ground arith)
      (filter (is_due now) items)

pub ordered-Stored :
    (now : ℕ) (items : Assoc Item) → Distinct (keys items) → Stored items (ordered now items)
ordered-Stored now items d =
    All-sort_by retry_before _ (filter (is_due now) items)
      (All-filter _ (is_due now) items (Stored-self items d))

pub ordered-due :
    (now : ℕ) (items : Assoc Item) → All (λ e. is_due now e ≡ true) (ordered now items)
ordered-due now items =
    All-sort_by retry_before _ (filter (is_due now) items) (All-filter_test (is_due now) items)

pub ordered-Distinct :
    (now : ℕ) (items : Assoc Item) → Distinct (keys items) → Distinct (keys (ordered now items))
ordered-Distinct now items d =
    sort_by-Distinct retry_before (filter (is_due now) items) (filter-Distinct (is_due now) items d)

pub due_entries-IsPick :
    (limit now : ℕ) (items : Assoc Item)
    → Distinct (keys items)
    → IsPick limit now items (due_entries limit now items)
unfolding due_entries
due_entries-IsPick limit now items d =
    let n = limit_or limit 10 in
    let all_due = ordered now items in
    record {
      stored = All-take _ n all_due (ordered-Stored now items d);
      due = All-take _ n all_due (ordered-due now items);
      distinct = take-Distinct n all_due (ordered-Distinct now items d);
      bounded = omega (arith, length-take n all_due);
      sorted = take-IsSorted retry_before n all_due (ordered-IsSorted now items);
    }
