-- ===== src/Smtp/Listen/Slots.antt =====
-- internal/smtp/server.go: the sessions that run at a time.
use smtp_to_max_relay.Prelude.{
  ℕ, suc, ◌+◌, ◌-◌, ◌≤◌, ◌<◌, ◌^◌, Bool, true, false, not, List, [], ◌∷◌, Option, none, some, ◌≡◌,
  refl, ap, subst, inl, inr, arith, ltb, ◌==◌, filter, length, is_empty, All, All-filter,
  length-filter-le, if-cases, Bool-cases, Option-cases,
}
use smtp_to_max_relay.Prelude.Text.{Text}
use smtp_to_max_relay.Prelude.Decimal.{word}
use smtp_to_max_relay.Smtp.Listen.{
  Phase, accepting, waiting, closing, returned, Listener, new_listener, Event, accepted, slot_taken,
  context_done, all_done, accept_failed, session_done, after_accept_error, start_session,
  is_running, end_session, in_phase, step, run,
}

-- No two are equal.
abbrev pub Different : List ℕ → Type 0
Different [] = Unit
Different (i ∷ ids) = (is_running i ids ≡ false) × Different ids

-- A state behind n events.
pub record IsListener (n : ℕ) (l : Listener) : Type 0 where
  pub within_limit : length l.running ≤ l.max_sessions
  pub known : All (λ i. i ≤ l.session_seq) l.running
  pub different : Different l.running
  pub counted : l.session_seq ≤ n
  pub finished : (e : Option Text) → l.phase ≡ returned e → l.running ≡ []

not_yet : (id : ℕ) (ids : List ℕ) → All (λ i. i < id) ids → is_running id ids ≡ false
not_yet id [] h = refl
not_yet id (i ∷ ids) h = ground (arith, h.0, not_yet id ids h.1)

All-le : (m n : ℕ) (ids : List ℕ) → m ≤ n → All (λ i. i ≤ m) ids → All (λ i. i ≤ n) ids
All-le m n [] le h = tt
All-le m n (i ∷ ids) le h = (omega (arith, le, h.0), All-le m n ids le h.1)

All-lt : (m : ℕ) (ids : List ℕ) → All (λ i. i ≤ m) ids → All (λ i. i < m + 1) ids
All-lt m [] h = tt
All-lt m (i ∷ ids) h = (omega (arith, h.0), All-lt m ids h.1)

is_running-filter :
    (p : ℕ → Bool) (id : ℕ) (ids : List ℕ)
    → is_running id ids ≡ false
    → is_running id (filter p ids) ≡ false
is_running-filter p id [] h = refl
is_running-filter p id (i ∷ ids) h = ground (arith, is_running-filter p id ids, h)

filter-Different : (p : ℕ → Bool) (ids : List ℕ) → Different ids → Different (filter p ids)
filter-Different p [] h = tt
filter-Different p (i ∷ ids) h =
    ground (arith, filter-Different p ids h.1, is_running-filter p i ids h.0)

some-injective : {a b : Listener} → ◌≡◌ {A = Option Listener} (some a) (some b) → a ≡ b
some-injective h = cc

nothing_left : (ids : List ℕ) → is_empty ids ≡ true → ids ≡ []
nothing_left [] h = refl
nothing_left (i ∷ ids) h = cc

module _ (n : ℕ) where
  -- A state with the same sessions, in a phase that is not the last.
  moved :
      (phase : Phase) (cancelled : Bool) (l : Listener)
      → ((e : Option Text) → phase ≡ returned e → l.running ≡ [])
      → IsListener n l
      → IsListener (suc n) (record l { phase = phase; cancelled = cancelled })
  moved phase cancelled l f v = record {
    within_limit = v.within_limit;
    known = v.known;
    different = v.different;
    counted = omega (arith, v.counted);
    finished = f;
  }

  start_session-IsListener :
      (l : Listener)
      → n < 2 ^ 64 - 1
      → length l.running < l.max_sessions
      → IsListener n l
      → IsListener (suc n) (start_session l)
  unfolding start_session
  start_session-IsListener l h room v =
      let id : word (l.session_seq + 1) ≡ l.session_seq + 1 = omega (arith, h, v.counted) in
      rw id (record {
        within_limit = room;
        known =
            (omega arith, All-le l.session_seq (l.session_seq + 1) l.running (omega arith) v.known);
        different = (
          not_yet (l.session_seq + 1) l.running (All-lt l.session_seq l.running v.known),
          v.different,
        );
        counted = omega (arith, v.counted);
        finished = λ e x. cc;
      })

  end_session-IsListener :
      (id : ℕ) (l next : Listener)
      → IsListener n l
      → end_session id l ≡ some next
      → IsListener (suc n) next
  unfolding end_session
  end_session-IsListener id l next v h = elim (Bool-cases (is_running id l.running)) [
    | inr e ↦ absurd (ground (arith, rw e at h))
    | inl e ↦
        let others = λ (i : ℕ). not (i == id) in
        let is : record l { running = filter others l.running } ≡ next =
          ground (arith, rw e at h) in
        subst (λ x. IsListener (suc n) x) is
          (record {
            within_limit = omega (arith, length-filter-le others l.running, v.within_limit);
            known = All-filter (λ i. i ≤ l.session_seq) others l.running v.known;
            different = filter-Different others l.running v.different;
            counted = omega (arith, v.counted);
            finished = λ x last. ap (λ ids. filter others ids) (v.finished x last);
          })
  ]

  after_accept_error-IsListener :
      (temporary : Bool) (e : Text) (l : Listener)
      → l.phase ≡ accepting
      → IsListener n l
      → IsListener (suc n) (after_accept_error temporary e l)
  unfolding after_accept_error
  after_accept_error-IsListener temporary e l here v =
      if-cases (λ x. IsListener (suc n) x) l.cancelled
        (λ x. moved (closing none) l.cancelled l (λ e y. cc) v)
        (λ x.
          if-cases (λ y. IsListener (suc n) y) temporary
            (λ y. moved l.phase l.cancelled l v.finished v)
            (λ y. moved (closing (some e)) l.cancelled l (λ e y. cc) v))

  in_phase-IsListener :
      (phase : Phase) (event : Event) (l next : Listener)
      → l.phase ≡ phase
      → n < 2 ^ 64 - 1
      → IsListener n l
      → in_phase phase event l ≡ some next
      → IsListener (suc n) next
  unfolding in_phase
  in_phase-IsListener accepting accepted l next here b v h =
      subst (λ x. IsListener (suc n) x) (some-injective h)
        (moved waiting l.cancelled l (λ e x. cc) v)
  in_phase-IsListener accepting slot_taken l next here b v h = cc
  in_phase-IsListener accepting context_done l next here b v h = cc
  in_phase-IsListener accepting all_done l next here b v h = cc
  in_phase-IsListener accepting (accept_failed temporary e) l next here b v h =
      subst (λ x. IsListener (suc n) x) (some-injective h)
        (after_accept_error-IsListener temporary e l here v)
  in_phase-IsListener accepting (session_done id) l next here b v h = cc
  in_phase-IsListener waiting accepted l next here b v h = cc
  in_phase-IsListener waiting slot_taken l next here b v h =
      elim (Bool-cases (ltb (length l.running) l.max_sessions)) [
        | inl x ↦
            subst (λ x. IsListener (suc n) x) (some-injective (rw x at h))
              (start_session-IsListener l b (ground (arith, x)) v)
        | inr x ↦ absurd (ground (arith, rw x at h))
      ]
  in_phase-IsListener waiting context_done l next here b v h = cc
  in_phase-IsListener waiting all_done l next here b v h = cc
  in_phase-IsListener waiting (accept_failed temporary e) l next here b v h = cc
  in_phase-IsListener waiting (session_done id) l next here b v h = cc
  in_phase-IsListener (closing why) accepted l next here b v h = cc
  in_phase-IsListener (closing why) slot_taken l next here b v h = cc
  in_phase-IsListener (closing why) context_done l next here b v h = cc
  in_phase-IsListener (closing why) all_done l next here b v h =
      elim (Bool-cases (is_empty l.running)) [
        | inl x ↦
            subst (λ x. IsListener (suc n) x) (some-injective (rw x at h))
              (moved (returned why) l.cancelled l (λ e y. nothing_left l.running x) v)
        | inr x ↦ absurd (ground (arith, rw x at h))
      ]
  in_phase-IsListener (closing why) (accept_failed temporary e) l next here b v h = cc
  in_phase-IsListener (closing why) (session_done id) l next here b v h = cc
  in_phase-IsListener (returned why) accepted l next here b v h = cc
  in_phase-IsListener (returned why) slot_taken l next here b v h = cc
  in_phase-IsListener (returned why) context_done l next here b v h = cc
  in_phase-IsListener (returned why) all_done l next here b v h = cc
  in_phase-IsListener (returned why) (accept_failed temporary e) l next here b v h = cc
  in_phase-IsListener (returned why) (session_done id) l next here b v h = cc

  step-IsListener :
      (event : Event) (l next : Listener)
      → n < 2 ^ 64 - 1
      → IsListener n l
      → step event l ≡ some next
      → IsListener (suc n) next
  unfolding step
  step-IsListener context_done l next b v h =
      subst (λ x. IsListener (suc n) x) (some-injective h) (moved l.phase true l v.finished v)
  step-IsListener (session_done id) l next b v h = end_session-IsListener id l next v h
  step-IsListener accepted l next b v h = in_phase-IsListener l.phase accepted l next refl b v h
  step-IsListener slot_taken l next b v h = in_phase-IsListener l.phase slot_taken l next refl b v h
  step-IsListener all_done l next b v h = in_phase-IsListener l.phase all_done l next refl b v h
  step-IsListener (accept_failed temporary e) l next b v h =
      in_phase-IsListener l.phase (accept_failed temporary e) l next refl b v h

run-from :
    (events : List Event) (n : ℕ) (l last : Listener)
    → n + length events < 2 ^ 64
    → IsListener n l
    → run events l ≡ some last
    → IsListener (n + length events) last
unfolding run
run-from [] n l last b v h =
    let here : n ≡ n + 0 = omega arith in
    subst (λ m. IsListener m last) here (subst (λ x. IsListener n x) (some-injective h) v)
run-from (event ∷ events) n l last b v h = elim (Option-cases (step event l)) [
  | inl e ↦ absurd (ground (arith, rw (run, e) at h))
  | inr (next, e) ↦
      let sums : suc n + length events ≡ n + suc (length events) = omega arith in
      subst (λ m. IsListener m last) sums
        (run-from events (suc n) next last (omega (arith, b))
          (step-IsListener n event l next (omega (arith, b)) v e) (rw (run, e) at h))
]

-- Of any events from the start on, fewer than 2^64: the sessions that run are at most as many as the limit says,
-- no two of them have one id, which is never that of a later session, and ListenAndServe has not
-- returned as long as one runs.
pub run-IsListener :
    (max_sessions : ℕ) (events : List Event) {last : Listener}
    → length events < 2 ^ 64
    → run events (new_listener max_sessions) ≡ some last
    → IsListener (length events) last
unfolding new_listener
run-IsListener max_sessions events {last} b h =
    let sums : 0 + length events ≡ length events = omega arith in
    subst (λ m. IsListener m last) sums
      (run-from events 0 (new_listener max_sessions) last (omega (arith, b, sums)) fresh h)
  where
    fresh : IsListener 0 (new_listener max_sessions)
    fresh = record {
      within_limit = omega arith;
      known = tt;
      different = tt;
      counted = omega arith;
      finished = λ e x. refl;
    }
