-- ===== src/Metrics/Deliveries.antt =====
-- internal/metrics/collector.go: what the collector has of the deliveries that were observed.
use smtp_to_max_relay.Prelude.{
  ℕ, zero, suc, ◌+◌, ◌-◌, ◌≤◌, true, false, List, [], ◌∷◌, ◌++◌, ◌≡◌, ◌↔◌, refl, sym, subst, ap,
  ◌∙◌, inl, inr, arith, if◌then◌else◌, ltb, length, drop, filter, map, Bool-cases, length-append,
  length-drop, length-map,
}
use mathlib.Core.List.{append-nil}
use smtp_to_max_relay.Prelude.Text.Laws.{text_eq_iff, text_eq_refl}
use smtp_to_max_relay.Prelude.Decimal.{word}
use smtp_to_max_relay.Metrics.{
  DeliveryKey, DeliveryEvent, Collector, key_eq, bump, plus_one, kept_events, observe_key,
  new_collector, max_stored_delivery_events,
}

-- A time and a key for each delivery, the first one in front.
unfoldable pub observe_keys : List (ℕ × DeliveryKey) → Collector → Collector
observe_keys [] c = c
observe_keys ((now, key) ∷ obs) c = observe_keys obs (observe_key now key c)

abbrev pub event_of : ℕ × DeliveryKey → DeliveryEvent
event_of (now, key) = record { at = now; key = key }

abbrev pub last_events : List DeliveryEvent → List DeliveryEvent
last_events events = drop (length events - max_stored_delivery_events) events

kept_events-last : (events : List DeliveryEvent) → kept_events events ≡ last_events events
unfolding kept_events
kept_events-last events = elim (Bool-cases (ltb max_stored_delivery_events (length events))) [
  | inl e ↦ rw e refl
  | inr e ↦
      let none_over : length events - max_stored_delivery_events ≡ 0 = ground (arith, e) in
      rw (e, none_over) refl
]

drop-append_le {ℓ} :
    {A : Type ℓ} (n : ℕ) (xs ys : List A) → n ≤ length xs → drop n xs ++ ys ≡ drop n (xs ++ ys)
drop-append_le zero xs ys h = refl
drop-append_le (suc n) [] ys h = absurd (omega (arith, h))
drop-append_le (suc n) (x ∷ xs) ys h = drop-append_le n xs ys (omega (arith, h))

drop_nothing {ℓ} : {A : Type ℓ} (n : ℕ) → drop {A = A} n [] ≡ []
drop_nothing zero = refl
drop_nothing (suc n) = refl

drop-drop {ℓ} : {A : Type ℓ} (m n : ℕ) (xs : List A) → drop m (drop n xs) ≡ drop (n + m) xs
drop-drop m zero xs = let none_more : m ≡ 0 + m = omega arith in ap (λ n. drop n xs) none_more
drop-drop m (suc n) [] = drop_nothing m ∙ sym (drop_nothing (suc n + m))
drop-drop m (suc n) (x ∷ xs) =
    let sums : suc (n + m) ≡ suc n + m = omega arith in
    drop-drop m n xs ∙ ap (λ n. drop n (x ∷ xs)) sums

-- Keeping the last events as they come is keeping the last of them all.
last_events-step :
    (events : List DeliveryEvent) (ev : DeliveryEvent)
    → kept_events (last_events events ++ (ev ∷ [])) ≡ last_events (events ++ (ev ∷ []))
last_events-step events ev =
    let over : ℕ = length events - max_stored_delivery_events in
    let all_of : List DeliveryEvent = events ++ (ev ∷ []) in
    let len : length all_of ≡ length events + 1 = length-append events (ev ∷ []) in
    rw (drop-append_le over events (ev ∷ []) (omega arith), kept_events-last (drop over all_of))
      (drop-drop (length (drop over all_of) - max_stored_delivery_events) over all_of
        ∙ ap (λ n. drop n all_of) (rw (length-drop over all_of, len) (omega arith)))

append_step {ℓ} : {A : Type ℓ} (xs ys : List A) (x : A) → (xs ++ (x ∷ [])) ++ ys ≡ xs ++ (x ∷ ys)
append_step [] ys x = refl
append_step (z ∷ xs) ys x = ap (λ l. z ∷ l) (append_step xs ys x)

events_after :
    (obs : List (ℕ × DeliveryKey)) (c : Collector) (events : List DeliveryEvent)
    → c.delivery_events ≡ last_events events
    → (observe_keys obs c).delivery_events ≡ last_events (events ++ map event_of obs)
unfolding observe_keys observe_key
events_after [] c events h = h ∙ ap (λ l. last_events l) (sym (append-nil events))
events_after ((now, key) ∷ obs) c events h =
    let ev = event_of (now, key) in
    events_after obs (observe_key now key c) (events ++ (ev ∷ []))
      (rw h (last_events-step events ev))
    ∙ ap (λ l. last_events l) (append_step events (map event_of obs) ev)

key_eq_iff : (j k : DeliveryKey) → (key_eq j k ≡ true) ↔ (j ≡ k)
unfolding key_eq
key_eq_iff j k = (same, λ e. subst (λ x. key_eq j x ≡ true) e self)
  where
    same : key_eq j k ≡ true → j ≡ k
    same h =
        let a : j.address ≡ k.address = ground (arith, h, text_eq_iff j.address k.address) in
        let d : j.delivered ≡ k.delivered = ground (arith, h) in
        let m : j.max_recipient ≡ k.max_recipient =
          ground (arith, h, text_eq_iff j.max_recipient k.max_recipient) in
        let n : j.recipient_name ≡ k.recipient_name =
          ground (arith, h, text_eq_iff j.recipient_name k.recipient_name) in
        cc

    self : key_eq j j ≡ true
    self =
        ground (
          arith,
          text_eq_refl j.address,
          text_eq_refl j.max_recipient,
          text_eq_refl j.recipient_name,
        )

-- What the map has for a key; a missing one reads as 0.
unfoldable pub count_for : DeliveryKey → List (DeliveryKey × ℕ) → ℕ
count_for k [] = 0
count_for k ((j, n) ∷ m) = if key_eq j k then n else count_for k m

count_for-bump :
    (j k : DeliveryKey) (m : List (DeliveryKey × ℕ))
    → count_for k (bump j m) ≡ (if key_eq j k then plus_one (count_for k m) else count_for k m)
unfolding count_for bump
count_for-bump j k [] = refl
count_for-bump j k ((i, n) ∷ m) = elim (Bool-cases (key_eq i j)) [
  | inl e ↦ let same : i ≡ j = (key_eq_iff i j).0 e in rw (e, same) (ground arith)
  | inr e ↦
      rw (e, count_for-bump j k m)
        (elim (Bool-cases (key_eq j k)) [
          | inl f ↦
              let other : key_eq i k ≡ false = apart i j k e ((key_eq_iff j k).0 f) in
              rw (f, other) refl
          | inr f ↦ rw f refl
        ])
]
  where
    apart : (i j k : DeliveryKey) → key_eq i j ≡ false → j ≡ k → key_eq i k ≡ false
    apart i j k e same = subst (λ x. key_eq i x ≡ false) same e

-- The observations of a key.
abbrev pub times_seen : DeliveryKey → List (ℕ × DeliveryKey) → ℕ
times_seen k obs = length (filter (λ o. key_eq o.1 k) obs)

count_after :
    (k : DeliveryKey) (obs : List (ℕ × DeliveryKey)) (c : Collector) (n : ℕ)
    → count_for k c.delivery_by_address ≡ word n
    → count_for k (observe_keys obs c).delivery_by_address ≡ word (n + times_seen k obs)
unfolding observe_keys observe_key
count_after k [] c n h = h ∙ omega arith
count_after k ((now, key) ∷ obs) c n h = elim (Bool-cases (key_eq key k)) [
  | inl e ↦ rw e (
      count_after k obs (observe_key now key c) (n + 1)
        (count_for-bump key k c.delivery_by_address ∙ rw (e, h) (omega arith))
      ∙ ap (λ m. word m) (sums (times_seen k obs)))
  | inr e ↦ rw e (
      count_after k obs (observe_key now key c) n
        (count_for-bump key k c.delivery_by_address ∙ rw e h))
]
  where
    sums : (m : ℕ) → n + 1 + m ≡ n + suc m
    sums m = omega arith

-- Of any deliveries that a new collector has observed, it keeps the last 50000, in order, and counts under each
-- key, mod 2^64, how often it was observed.
pub observe_keys_lem :
    (obs : List (ℕ × DeliveryKey)) (k : DeliveryKey)
    → let c = observe_keys obs new_collector in
      (c.delivery_events ≡ drop (length obs - max_stored_delivery_events) (map event_of obs))
      × (count_for k c.delivery_by_address ≡ word (times_seen k obs))
unfolding new_collector count_for
observe_keys_lem obs k = (
  events_after obs new_collector [] refl ∙ rw (length-map obs event_of) refl,
  count_after k obs new_collector 0 refl ∙ ap (λ n. word n) from_zero,
)
  where
    from_zero : 0 + times_seen k obs ≡ times_seen k obs
    from_zero = omega arith
