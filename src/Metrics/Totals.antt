-- ===== src/Metrics/Totals.antt =====
-- internal/metrics/collector.go: what BuildLastDaysReport counts.
use smtp_to_max_relay.Prelude.{
  ℕ, suc, ◌+◌, ◌-◌, ◌*◌, ◌≤◌, Bool, true, not, List, [], ◌∷◌, some, ◌≡◌, refl, sym, subst, ◌∙◌, ◌⊎◌,
  inl, inr, arith, if◌then◌else◌, ltb, length, filter, take, Bool-cases, Option-cases, length-take,
  All,
}
use smtp_to_max_relay.Prelude.Text.{Text, text_eq, contains}
use smtp_to_max_relay.Prelude.Text.Laws.{text_eq_iff}
use smtp_to_max_relay.Prelude.Assoc.{
  Assoc, lookup, insert, lookup-insert, keys, Distinct, insert-Distinct,
}
use smtp_to_max_relay.Prelude.Assoc.Entries.{Stored, Stored-self, All-take}
use smtp_to_max_relay.Prelude.Sorting.{sort_by, IsSorted, All-sort_by}
use smtp_to_max_relay.Metrics.{DeliveryEvent, Collector}
use smtp_to_max_relay.Metrics.Top.{IsTop, top_k-IsTop, All-map}
use smtp_to_max_relay.Metrics.Report.{
  RecipientStats, Aggregates, count_at, stats_at, no_stats, add_one, add_outcome, label_of,
  aggregate, aggregate_since, nothing_counted, one_day, days_or_week, build_last_days_report,
  report_of, top_k, top_recipient_stats, count_before, stats_before,
}

-- How many events pass a test.
abbrev pub how_many : (DeliveryEvent → Bool) → List DeliveryEvent → ℕ
how_many p evs = length (filter p evs)

abbrev pub recent : ℕ → List DeliveryEvent → List DeliveryEvent
recent since evs = filter (λ ev. not (ltb ev.at since)) evs

abbrev pub stats_of : List DeliveryEvent → RecipientStats
stats_of evs = record {
  total = length evs;
  delivered = how_many (λ ev. ev.key.delivered) evs;
  failed = how_many (λ ev. not ev.key.delivered) evs;
}

-- One behind the other.
aggregate_all : List DeliveryEvent → Aggregates → Aggregates
aggregate_all [] a = a
aggregate_all (ev ∷ evs) a = aggregate_all evs (aggregate ev a)

aggregate_since-recent :
    (since : ℕ) (evs : List DeliveryEvent) (a : Aggregates)
    → aggregate_since since evs a ≡ aggregate_all (recent since evs) a
unfolding aggregate_since aggregate_all
aggregate_since-recent since [] a = refl
aggregate_since-recent since (ev ∷ evs) a = elim (Bool-cases (ltb ev.at since)) [
  | inl e ↦ rw e (aggregate_since-recent since evs a)
  | inr e ↦ rw e (aggregate_since-recent since evs (aggregate ev a))
]

shift : (n m : ℕ) → n + 1 + m ≡ n + suc m
shift n m = omega arith

plus : RecipientStats → RecipientStats → RecipientStats
plus s t = record {
  total = s.total + t.total;
  delivered = s.delivered + t.delivered;
  failed = s.failed + t.failed;
}

plus_nothing : (s : RecipientStats) → s ≡ plus s (stats_of [])
unfolding plus
plus_nothing s =
    let t : s.total ≡ s.total + 0 = omega arith in
    let d : s.delivered ≡ s.delivered + 0 = omega arith in
    let f : s.failed ≡ s.failed + 0 = omega arith in cc

add_outcome-plus :
    (ev : DeliveryEvent) (evs : List DeliveryEvent) (s : RecipientStats)
    → plus (add_outcome ev.key.delivered s) (stats_of evs) ≡ plus s (stats_of (ev ∷ evs))
unfolding add_outcome plus
add_outcome-plus ev evs s = elim (Bool-cases ev.key.delivered) [
  | inl e ↦
      let d = how_many (λ ev. ev.key.delivered) evs in
      rw (e, shift s.total (length evs), shift s.delivered d) refl
  | inr e ↦
      let f = how_many (λ ev. not ev.key.delivered) evs in
      rw (e, shift s.total (length evs), shift s.failed f) refl
]

count_at-add_one :
    (k j : Text) (m : Assoc ℕ)
    → count_at j (add_one k m) ≡ (if text_eq k j then count_at j m + 1 else count_at j m)
unfolding add_one
count_at-add_one k j m = elim (Bool-cases (text_eq k j)) [
  | inl e ↦
      let same : k ≡ j = (text_eq_iff k j).0 e in
      rw (lookup-insert k j (count_at k m + 1) m, e, same, count_at) refl
  | inr e ↦ rw (lookup-insert k j (count_at k m + 1) m, e, count_at) refl
]

stats_at-insert :
    (k j : Text) (v : RecipientStats) (m : Assoc RecipientStats)
    → stats_at j (insert k v m) ≡ (if text_eq k j then v else stats_at j m)
stats_at-insert k j v m = elim (Bool-cases (text_eq k j)) [
  | inl e ↦ rw (lookup-insert k j v m, e, stats_at) refl
  | inr e ↦ rw (lookup-insert k j v m, e, stats_at) refl
]

abbrev from_address : Text → DeliveryEvent → Bool
from_address k ev = text_eq ev.key.address k

abbrev to_recipient : Text → DeliveryEvent → Bool
to_recipient k ev = text_eq (label_of ev.key) k

all_events_lem :
    (evs : List DeliveryEvent) (a : Aggregates)
    → (aggregate_all evs a).all_events ≡ plus a.all_events (stats_of evs)
unfolding aggregate_all aggregate
all_events_lem [] a = plus_nothing a.all_events
all_events_lem (ev ∷ evs) a =
    all_events_lem evs (aggregate ev a) ∙ add_outcome-plus ev evs a.all_events

by_address_lem :
    (k : Text) (evs : List DeliveryEvent) (a : Aggregates)
    → count_at k (aggregate_all evs a).by_address
      ≡ count_at k a.by_address + how_many (from_address k) evs
unfolding aggregate_all aggregate
by_address_lem k [] a = omega arith
by_address_lem k (ev ∷ evs) a =
    by_address_lem k evs (aggregate ev a) ∙ elim (Bool-cases (text_eq ev.key.address k)) [
      | inl e ↦
          rw (count_at-add_one ev.key.address k a.by_address, e) (shift (count_at k a.by_address) _)
      | inr e ↦ rw (count_at-add_one ev.key.address k a.by_address, e) refl
    ]

recipient_agg_lem :
    (k : Text) (evs : List DeliveryEvent) (a : Aggregates)
    → stats_at k (aggregate_all evs a).recipient_agg
      ≡ plus (stats_at k a.recipient_agg) (stats_of (filter (to_recipient k) evs))
unfolding aggregate_all aggregate
recipient_agg_lem k [] a = plus_nothing (stats_at k a.recipient_agg)
recipient_agg_lem k (ev ∷ evs) a =
    recipient_agg_lem k evs (aggregate ev a) ∙ elim (Bool-cases (text_eq (label_of ev.key) k)) [
      | inl e ↦
          let same : label_of ev.key ≡ k = (text_eq_iff (label_of ev.key) k).0 e in
          rw (stats_at-insert (label_of ev.key) k _ a.recipient_agg, e, same)
            (add_outcome-plus ev (filter (to_recipient k) evs) (stats_at k a.recipient_agg))
      | inr e ↦ rw (stats_at-insert (label_of ev.key) k _ a.recipient_agg, e) refl
    ]

-- Every name stands once in each map.
aggregate_all-Distinct :
    (evs : List DeliveryEvent) (a : Aggregates)
    → Distinct (keys a.by_address)
    → Distinct (keys a.recipient_agg)
    → Distinct (keys (aggregate_all evs a).by_address)
      × Distinct (keys (aggregate_all evs a).recipient_agg)
unfolding aggregate_all aggregate add_one
aggregate_all-Distinct [] a d e = (d, e)
aggregate_all-Distinct (ev ∷ evs) a d e =
    aggregate_all-Distinct evs (aggregate ev a)
      (insert-Distinct ev.key.address (count_at ev.key.address a.by_address + 1) a.by_address d)
      (insert-Distinct (label_of ev.key)
        (add_outcome ev.key.delivered (stats_at (label_of ev.key) a.recipient_agg)) a.recipient_agg
        e)

All-Stored {ℓ κ} :
    {V : Type ℓ} (P : Text × V → Type κ) (m entries : Assoc V)
    → ((k : Text) (v : V) → lookup k m ≡ some v → P (k, v))
    → Stored m entries
    → All P entries
All-Stored P m [] h s = tt
All-Stored P m ((k, v) ∷ entries) h s = (h k v s.0, All-Stored P m entries h s.1)

stats_sum :
    (evs : List DeliveryEvent)
    → (stats_of evs).total ≡ (stats_of evs).delivered + (stats_of evs).failed
stats_sum [] = refl
stats_sum (ev ∷ evs) = ground (arith, stats_sum evs)

nothing_plus : (s : RecipientStats) → plus no_stats s ≡ s
unfolding plus
nothing_plus s =
    let t : 0 + s.total ≡ s.total = omega arith in
    let d : 0 + s.delivered ≡ s.delivered = omega arith in
    let f : 0 + s.failed ≡ s.failed = omega arith in cc

count_at-some : (k : Text) (m : Assoc ℕ) (v : ℕ) → lookup k m ≡ some v → count_at k m ≡ v
count_at-some k m v e = rw (e, count_at) refl

stats_at-some :
    (k : Text) (m : Assoc RecipientStats) (v : RecipientStats)
    → lookup k m ≡ some v
    → stats_at k m ≡ v
stats_at-some k m v e = rw (e, stats_at) refl

module _ (evs : List DeliveryEvent) where
  abbrev totals : Aggregates
  totals = aggregate_all evs nothing_counted

  counts_are : totals.all_events ≡ stats_of evs
  counts_are = all_events_lem evs nothing_counted ∙ nothing_plus (stats_of evs)

  address_count : (k : Text) → count_at k totals.by_address ≡ how_many (from_address k) evs
  unfolding lookup
  address_count k =
      let zero_more : 0 + how_many (from_address k) evs ≡ how_many (from_address k) evs =
        omega arith in
      by_address_lem k evs nothing_counted ∙ zero_more

  recipient_stats :
      (k : Text) → stats_at k totals.recipient_agg ≡ stats_of (filter (to_recipient k) evs)
  unfolding lookup
  recipient_stats k =
      recipient_agg_lem k evs nothing_counted
      ∙ nothing_plus (stats_of (filter (to_recipient k) evs))

  addresses_counted :
      (top : Assoc ℕ)
      → Stored totals.by_address top
      → All (λ e. e.1 ≡ how_many (from_address e.0) evs) top
  addresses_counted top s =
      All-Stored (λ e. e.1 ≡ how_many (from_address e.0) evs) totals.by_address top
        (λ k v found. sym (count_at-some k totals.by_address v found) ∙ address_count k) s

  recipients_counted :
      (top : Assoc RecipientStats)
      → Stored totals.recipient_agg top
      → All (λ e. e.1 ≡ stats_of (filter (to_recipient e.0) evs)) top
  recipients_counted top s =
      All-Stored (λ e. e.1 ≡ stats_of (filter (to_recipient e.0) evs)) totals.recipient_agg top
        (λ k v found. sym (stats_at-some k totals.recipient_agg v found) ∙ recipient_stats k) s

  not_listed :
      (top : Assoc ℕ) (n : ℕ)
      → IsTop totals.by_address n top
      → (k : Text)
      → (contains k (keys top) ≡ true) ⊎ All (λ e. how_many (from_address k) evs ≤ e.1) top
  not_listed top n is k = elim (Option-cases (lookup k totals.by_address)) [
    | inl e ↦
        let unseen : how_many (from_address k) evs ≡ 0 =
          sym (address_count k) ∙ rw (e, count_at) refl in
        inr (
          All-map _ (λ e. how_many (from_address k) evs ≤ e.1) top (λ x h. omega (arith, unseen))
            is.1)
    | inr (v, e) ↦
        let seen : v ≡ how_many (from_address k) evs =
          sym (count_at-some k totals.by_address v e) ∙ address_count k in
        subst (λ n. (contains k (keys top) ≡ true) ⊎ All (λ e. n ≤ e.1) top) seen (is.3 k v e)
  ]

-- The report of the last days counts just the events that are not older, the delivered ones and the failed ones,
-- and they are all. The addresses listed are at most five, each with the number of its events, and no
-- other has more; the higher number comes first. The recipients listed are at most five, each with
-- what was delivered to it and what failed.
pub build_last_days_report_lem :
    (now days : ℕ) (c : Collector)
    → let evs = recent (now - days_or_week days * one_day) c.delivery_events in
      let r = build_last_days_report now days c in
      (r.counts ≡ stats_of evs)
      × (r.counts.total ≡ r.counts.delivered + r.counts.failed)
      × (length r.top_addresses ≤ 5)
      × All (λ e. e.1 ≡ how_many (from_address e.0) evs) r.top_addresses
      × IsSorted count_before r.top_addresses
      × ((k : Text)
          → (contains k (keys r.top_addresses) ≡ true)
            ⊎ All (λ e. how_many (from_address k) evs ≤ e.1) r.top_addresses)
      × (length r.top_stats ≤ 5)
      × All (λ e. e.1 ≡ stats_of (filter (to_recipient e.0) evs)) r.top_stats
unfolding build_last_days_report report_of top_recipient_stats
build_last_days_report_lem now days c =
    let since = now - days_or_week days * one_day in
    let evs = recent since c.delivery_events in
    let a = aggregate_all evs nothing_counted in
    let d = aggregate_all-Distinct evs nothing_counted tt tt in
    let top = top_k-IsTop a.by_address 5 d.0 in
    rw (aggregate_since-recent since c.delivery_events nothing_counted) (
      counts_are evs,
      rw (counts_are evs) (stats_sum evs),
      top.0,
      addresses_counted evs (top_k a.by_address 5) top.1,
      top.2,
      not_listed evs (top_k a.by_address 5) 5 top,
      ground (arith, length-take 5 (sort_by stats_before a.recipient_agg)),
      recipients_counted evs (take 5 (sort_by stats_before a.recipient_agg)) (
          All-take (λ e. lookup e.0 a.recipient_agg ≡ some e.1) 5 _
            (All-sort_by stats_before (λ e. lookup e.0 a.recipient_agg ≡ some e.1) a.recipient_agg
              (Stored-self a.recipient_agg d.1))),
    )
