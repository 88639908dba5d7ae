-- ===== src/Dlq/Queries/Laws.antt =====
-- The statistics and the age of the backlog, against their meaning.
use smtp_to_max_relay.Prelude.{
  ℕ, ◌+◌, ◌≤◌, ◌<◌, Bool, true, false, ◌&&◌, ◌||◌, List, [], ◌∷◌, none, some, ◌≡◌, refl, arith,
  if◌then◌else◌, ltb, ◌==◌, ◌⊎◌, inl, inr, Bool-cases, filter, length, All, any,
}
use smtp_to_max_relay.Prelude.Assoc.{values}
use smtp_to_max_relay.Dlq.Item.{
  Item, Status, pending, processing, failed, done, other, Store, is_live, is_failed, is_done,
}
use smtp_to_max_relay.Dlq.Queries.{
  Stats, count_status, count_items, stats, oldest_live, oldest_pending_age, time_sub,
}

abbrev pub how_many : (Item → Bool) → List Item → ℕ
how_many p items = length (filter p items)

count_one :
    (st : Stats) (status : Status) (item : Item) (items : List Item)
    → item.status ≡ status
    → ((count_status status st).pending_count + how_many is_live items
        ≡ st.pending_count + how_many is_live (item ∷ items))
      × ((count_status status st).failed_count + how_many (λ i. is_failed i.status) items
          ≡ st.failed_count + how_many (λ i. is_failed i.status) (item ∷ items))
      × ((count_status status st).done_count + how_many (λ i. is_done i.status) items
          ≡ st.done_count + how_many (λ i. is_done i.status) (item ∷ items))
unfolding count_status
count_one st pending item items e = rw e (omega arith, omega arith, omega arith)
count_one st processing item items e = rw e (omega arith, omega arith, omega arith)
count_one st failed item items e = rw e (omega arith, omega arith, omega arith)
count_one st done item items e = rw e (omega arith, omega arith, omega arith)
count_one st (other status) item items e = rw e (omega arith, omega arith, omega arith)

count_items_lem :
    (st : Stats) (items : List Item)
    → ((count_items st items).pending_count ≡ st.pending_count + how_many is_live items)
      × ((count_items st items).failed_count
          ≡ st.failed_count + how_many (λ i. is_failed i.status) items)
      × ((count_items st items).done_count ≡ st.done_count + how_many (λ i. is_done i.status) items)
unfolding count_items
count_items_lem st [] = (omega arith, omega arith, omega arith)
count_items_lem st (item ∷ items) =
    let rest = count_items_lem (count_status item.status st) items in
    let one = count_one st item.status item items refl in
    (omega (arith, rest.0, one.0), omega (arith, rest.1, one.1), omega (arith, rest.2, one.2))

-- Stats counts the items to be delivered, the failed and the done ones.
pub stats_lem :
    (s : Store)
    → ((stats s).pending_count ≡ how_many is_live (values s.items))
      × ((stats s).failed_count ≡ how_many (λ i. is_failed i.status) (values s.items))
      × ((stats s).done_count ≡ how_many (λ i. is_done i.status) (values s.items))
unfolding stats
stats_lem s =
    let counts =
      count_items_lem (record { pending_count = 0; failed_count = 0; done_count = 0 })
        (values s.items) in
    (omega (arith, counts.0), omega (arith, counts.1), omega (arith, counts.2))

abbrev pub AllCreated : List Item → Type 0
AllCreated = All (λ i. 0 < i.created_at)

oldest_live-le :
    (oldest : ℕ) (items : List Item)
    → AllCreated items
    → 0 < oldest
    → (oldest_live oldest items ≤ oldest) × (0 < oldest_live oldest items)
unfolding oldest_live
oldest_live-le oldest [] h pos = (omega arith, omega arith)
oldest_live-le oldest (item ∷ items) h pos =
    ground
      (arith, oldest_live-le oldest items h.1 pos, oldest_live-le item.created_at items h.1 h.0)

oldest_live-All :
    (oldest : ℕ) (items : List Item)
    → AllCreated items
    → All
        (λ i.
          is_live i ≡ true
          → (oldest_live oldest items ≤ i.created_at) × (0 < oldest_live oldest items))
        items
unfolding oldest_live
oldest_live-All oldest [] h = tt
oldest_live-All oldest (item ∷ items) h = (
  (λ live.
      ground
        (arith, oldest_live-le oldest items h.1, oldest_live-le item.created_at items h.1 h.0)),
  oldest_live-All
      (if is_live item && (oldest == 0 || ltb item.created_at oldest)
        then item.created_at
        else oldest)
      items h.1,
)

oldest_live-none :
    (oldest : ℕ) (items : List Item) → any is_live items ≡ false → oldest_live oldest items ≡ oldest
unfolding oldest_live
oldest_live-none oldest [] h = refl
oldest_live-none oldest (item ∷ items) h = ground (arith, oldest_live-none oldest items)

-- The time that is found is an item's, or the one that was given.
oldest_live-is_created :
    (oldest : ℕ) (items : List Item)
    → (oldest_live oldest items ≡ oldest)
      ⊎ (any (λ i. is_live i && (i.created_at == oldest_live oldest items)) items ≡ true)
unfolding oldest_live
oldest_live-is_created oldest [] = inl refl
oldest_live-is_created oldest (item ∷ items) =
    ground
      (arith, oldest_live-is_created oldest items, oldest_live-is_created item.created_at items)

-- The time is that of the oldest item to be delivered.
abbrev pub IsOldest : ℕ → List Item → Type 0
IsOldest oldest items =
    (any (λ i. is_live i && (i.created_at == oldest)) items ≡ true)
    × All (λ i. is_live i ≡ true → oldest ≤ i.created_at) items

oldest_live-positive :
    (oldest : ℕ) (items : List Item)
    → AllCreated items
    → any is_live items ≡ true
    → 0 < oldest_live oldest items
unfolding oldest_live
oldest_live-positive oldest [] h live = cc
oldest_live-positive oldest (item ∷ items) h live = ground (
  arith,
  oldest_live-positive oldest items h.1,
  oldest_live-positive item.created_at items h.1,
  oldest_live-le oldest items h.1,
  oldest_live-le item.created_at items h.1 h.0,
)

All-first :
    (oldest : ℕ) (items : List Item)
    → All (λ i. is_live i ≡ true → (oldest ≤ i.created_at) × (0 < oldest)) items
    → All (λ i. is_live i ≡ true → oldest ≤ i.created_at) items
All-first oldest [] h = tt
All-first oldest (item ∷ items) h = ((λ live. (h.0 live).0), All-first oldest items h.1)

oldest_live-IsOldest :
    (items : List Item)
    → AllCreated items
    → any is_live items ≡ true
    → IsOldest (oldest_live 0 items) items
oldest_live-IsOldest items h live =
    let pos = oldest_live-positive 0 items h live in
    (
      elim (oldest_live-is_created 0 items) [
        | inl z ↦ absurd (omega (arith, z, pos))
        | inr found ↦ found
      ],
      All-first (oldest_live 0 items) items (oldest_live-All 0 items h),
    )

-- There is no age exactly if there is no item to be delivered; otherwise it is that of the oldest one, up to
-- the largest duration. Every item has a time of creation.
pub oldest_pending_age_lem :
    (now : ℕ) (s : Store)
    → AllCreated (values s.items)
    → ((any is_live (values s.items) ≡ false) × (oldest_pending_age now s ≡ none))
      ⊎ ((oldest : ℕ) × IsOldest oldest (values s.items)
          × (oldest_pending_age now s ≡ some (time_sub now oldest)))
unfolding oldest_pending_age
oldest_pending_age_lem now s h = elim (Bool-cases (any is_live (values s.items))) [
  | inr e ↦ inl (e, ground (arith, oldest_live-none 0 (values s.items) e))
  | inl e ↦
      let pos = oldest_live-positive 0 (values s.items) h e in
      inr (
        oldest_live 0 (values s.items),
        oldest_live-IsOldest (values s.items) h e,
        ground (arith, pos),
      )
]
