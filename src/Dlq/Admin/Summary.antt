-- ===== src/Dlq/Admin/Summary.antt =====
-- internal/dlq/admin.go: what /dlq shows.
use native.Mathlib.Nat.{mul-mod_left}
use smtp_to_max_relay.Prelude.{
  ℕ, ◌+◌, ◌-◌, ◌*◌, ◌/◌, ◌%◌, ◌≤◌, ◌<◌, ◌⊎◌, inl, inr, false, none, some, ◌≡◌, refl, arith, any,
  if◌then◌else◌, ltb, Bool-cases,
}
use smtp_to_max_relay.Prelude.Assoc.{values}
use smtp_to_max_relay.Dlq.Item.{Store, is_live, is_failed, is_done}
use smtp_to_max_relay.Dlq.Queries.{time_sub, max_duration}
use smtp_to_max_relay.Dlq.Queries.Laws.{
  how_many, AllCreated, IsOldest, stats_lem, oldest_pending_age_lem,
}
use smtp_to_max_relay.Dlq.Admin.Reports.{summary, round_to_seconds}

-- The full second that is nearest to the time, half a second up, or the largest duration when that second
-- is above it.
abbrev pub IsRounded : ℕ → ℕ → Type 0
IsRounded time shown =
    (shown ≤ time + 500000000)
    × (time < shown + 500000000)
    × ((shown % 1000000000 ≡ 0) ⊎ (shown ≡ max_duration))

round_to_seconds-IsRounded :
    (time : ℕ) → time ≤ max_duration → IsRounded time (round_to_seconds time)
round_to_seconds-IsRounded time h =
    let rounded = (time + 500000000) / 1000000000 * 1000000000 in
    elim (Bool-cases (ltb max_duration rounded)) [
      | inl e ↦ rw e (ground (arith, e), omega (arith, h), inr refl)
      | inr e ↦ rw e (
        omega arith,
        omega arith,
        inl (mul-mod_left ((time + 500000000) / 1000000000) 1000000000),
      )
    ]

-- The summary counts the items to be delivered, the failed ones and the done ones. It shows no age just if no
-- item is to be delivered. Otherwise the age is the time since the creation of the oldest such item, 0 if
-- that is still to come and at most the largest duration, rounded to the nearest full second, or to the
-- largest duration when that second is above it. Every item has a time of creation.
pub summary_lem :
    (now : ℕ) (s : Store)
    → AllCreated (values s.items)
    → let t = summary now s in
      (t.counts.pending_count ≡ how_many is_live (values s.items))
      × (t.counts.failed_count ≡ how_many (λ i. is_failed i.status) (values s.items))
      × (t.counts.done_count ≡ how_many (λ i. is_done i.status) (values s.items))
      × (((any is_live (values s.items) ≡ false) × (t.oldest_pending ≡ none))
          ⊎ ((oldest : ℕ) × (age : ℕ) × IsOldest oldest (values s.items)
              × (t.oldest_pending ≡ some age)
              × IsRounded
                  (if ltb max_duration (now - oldest) then max_duration else now - oldest)
                  age))
unfolding summary
summary_lem now s h =
    let counts = stats_lem s in
    (
      counts.0,
      counts.1,
      counts.2,
      elim (oldest_pending_age_lem now s h) [
        | inl (none_live, e) ↦ inl (none_live, rw e refl)
        | inr (oldest, is_oldest, e) ↦ inr (
          oldest,
          round_to_seconds (time_sub now oldest),
          is_oldest,
          rw e refl,
          round_to_seconds-IsRounded (time_sub now oldest) (ground arith),
        )
      ],
    )
