-- ===== src/Metrics/Latencies.antt =====
-- internal/metrics/collector.go: what the collector has of the latencies that were observed.
use smtp_to_max_relay.Prelude.{
  ℕ, suc, ◌+◌, false, List, [], ◌∷◌, Option, none, some, ◌≡◌, refl, ap, ◌∙◌, inl, inr, arith,
  if◌then◌else◌, leb, is_empty, length, map, Bool-cases,
}
use smtp_to_max_relay.Prelude.Text.{Text, text_eq, trim_space, to_lower}
use smtp_to_max_relay.Prelude.Text.Laws.{text_eq_iff, text_eq_refl}
use smtp_to_max_relay.Prelude.Assoc.{lookup, lookup-insert}
use smtp_to_max_relay.Prelude.Decimal.{word}
use smtp_to_max_relay.Metrics.{
  LatencyHistogram, Collector, latency_bucket_upper_bounds, plus_one, count_buckets, observe_in,
  histogram_or_new, at_least_zero, observe_latency, new_collector,
}

-- A new collector after these calls, a stage and a duration each, the last one in front.
unfoldable pub observe_latencies : List (Text × ℕ) → Collector
observe_latencies [] = new_collector
observe_latencies ((stage, d) ∷ obs) = observe_latency stage d (observe_latencies obs)

abbrev pub stage_name : Text → Text
stage_name stage = trim_space (to_lower stage)

-- The durations of a stage; a negative one is 0.
unfoldable pub durations : Text → List (Text × ℕ) → List ℕ
durations name [] = []
durations name ((stage, d) ∷ obs) =
    let rest = durations name obs in
    if text_eq (stage_name stage) name then at_least_zero d ∷ rest else rest

unfoldable pub at_most : ℕ → List ℕ → ℕ
at_most ub [] = 0
at_most ub (d ∷ ds) = let rest = at_most ub ds in if leb d ub then suc rest else rest

unfoldable pub sum_of : List ℕ → ℕ
sum_of [] = 0
sum_of (d ∷ ds) = d + sum_of ds

-- The histogram of these durations, by its definition: each bucket has those up to its bound.
unfoldable pub histogram_of : List ℕ → LatencyHistogram
histogram_of ds = record {
  buckets = map (λ ub. word (at_most ub ds)) latency_bucket_upper_bounds;
  sum = sum_of ds;
  count = word (length ds);
}

count_buckets-at_most :
    (d : ℕ) (ubs ds : List ℕ)
    → count_buckets d ubs (map (λ ub. word (at_most ub ds)) ubs)
      ≡ map (λ ub. word (at_most ub (d ∷ ds))) ubs
unfolding count_buckets at_most
count_buckets-at_most d [] ds = refl
count_buckets-at_most d (ub ∷ ubs) ds =
    rw (count_buckets-at_most d ubs ds)
      (ap (λ x. x ∷ map (λ ub. word (at_most ub (d ∷ ds))) ubs) here)
  where
    here :
        (if leb d ub then plus_one (word (at_most ub ds)) else word (at_most ub ds))
        ≡ word (at_most ub (d ∷ ds))
    here = elim (Bool-cases (leb d ub)) [ inl e ↦ rw e (omega arith) | inr e ↦ rw e refl ]

observe_in-histogram_of :
    (d : ℕ) (ds : List ℕ) → observe_in d (histogram_of ds) ≡ histogram_of (d ∷ ds)
unfolding observe_in histogram_of sum_of
observe_in-histogram_of d ds =
    let buckets = count_buckets-at_most d latency_bucket_upper_bounds ds in
    let sum : sum_of ds + d ≡ d + sum_of ds = omega arith in
    let calls : plus_one (word (length ds)) ≡ word (suc (length ds)) = omega arith in
    rw (buckets, sum, calls) refl

-- The histogram of a stage, if it has a duration.
abbrev expected : List ℕ → Option LatencyHistogram
expected ds = if is_empty ds then none else some (histogram_of ds)

histogram-expected : (ds : List ℕ) → histogram_or_new (expected ds) ≡ histogram_of ds
unfolding histogram_of at_most sum_of
histogram-expected [] = refl
histogram-expected (d ∷ ds) = refl

observe_same :
    (stage : Text) (d : ℕ) (c : Collector) (name : Text)
    → is_empty name ≡ false
    → stage_name stage ≡ name
    → (ds : List ℕ) → lookup name c.latencies ≡ expected ds
    → lookup name (observe_latency stage d c).latencies ≡ some (histogram_of (at_least_zero d ∷ ds))
unfolding observe_latency
observe_same stage d c name ne same ds h =
    rw (same, ne)
      (lookup-insert name name _ c.latencies
        ∙ rw
            (
              text_eq_refl name,
              h,
              histogram-expected ds,
              observe_in-histogram_of (at_least_zero d) ds,
            )
            refl)

observe_other :
    (stage : Text) (d : ℕ) (c : Collector) (name : Text)
    → text_eq (stage_name stage) name ≡ false
    → lookup name (observe_latency stage d c).latencies ≡ lookup name c.latencies
unfolding observe_latency
observe_other stage d c name f = elim (Bool-cases (is_empty (stage_name stage))) [
  | inl e ↦ rw e refl
  | inr e ↦ rw e (lookup-insert (stage_name stage) name _ c.latencies ∙ rw f refl)
]

-- The histogram that a new collector has for a stage, after any calls, is that of the stage's durations: each
-- bucket counts those up to its bound, and the sum and the count are of all of them; the counts are
-- mod 2^64, and a stage without durations has no histogram. Names count in lower case without outer
-- spaces, and a blank one is no stage.
pub observe_latencies_lem :
    (obs : List (Text × ℕ)) (name : Text)
    → is_empty name ≡ false
    → lookup name (observe_latencies obs).latencies
      ≡ (if is_empty (durations name obs) then none else some (histogram_of (durations name obs)))
unfolding observe_latencies durations new_collector lookup
observe_latencies_lem [] name ne = refl
observe_latencies_lem ((stage, d) ∷ obs) name ne =
    elim (Bool-cases (text_eq (stage_name stage) name)) [
      | inl f ↦
          let same : stage_name stage ≡ name = (text_eq_iff (stage_name stage) name).0 f in
          rw f (
            observe_same stage d (observe_latencies obs) name ne same (durations name obs)
              (observe_latencies_lem obs name ne))
      | inr f ↦
          rw f (
            observe_other stage d (observe_latencies obs) name f
            ∙ observe_latencies_lem obs name ne)
    ]
