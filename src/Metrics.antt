-- ===== src/Metrics.antt =====
-- internal/metrics/collector.go: the collector's state and what changes it. A uint64 counts mod 2^64. A
-- latency is the residue of an int64 of nanoseconds, compared with the bounds of the buckets in
-- nanoseconds; the float64 that the code compares orders them in the same way. Its sum is kept
-- exactly, without the rounding of floats. Times are nanoseconds since year 1.
pub mod Lines
pub mod Report
pub mod Deliveries
pub mod Latencies
pub mod Top
pub mod Totals
use smtp_to_max_relay.Prelude.{
  ℕ, ◌+◌, ◌-◌, ◌*◌, Bool, true, false, not, ◌&&◌, List, [], ◌∷◌, ◌++◌, Option, none, some,
  if◌then◌else◌, ltb, leb, is_empty, length, drop,
}
use smtp_to_max_relay.Prelude.Text.{Text, text_eq, trim_space, to_lower}
use smtp_to_max_relay.Prelude.Assoc.{Assoc, lookup, insert}
use smtp_to_max_relay.Prelude.Decimal.{word, is_negative}

pub record DeliveryKey : Type 0 where
  pub address : Text
  pub delivered : Bool
  pub max_recipient : Text
  pub recipient_name : Text

pub record DeliveryEvent : Type 0 where
  pub at : ℕ
  pub key : DeliveryKey

pub record LatencyHistogram : Type 0 where
  pub buckets : List ℕ
  pub sum : ℕ
  pub count : ℕ

-- The counters that only grow, and the values that are set.
pub record Counters : Type 0 where
  pub received : ℕ
  pub relayed : ℕ
  pub failed : ℕ
  pub text_sent : ℕ
  pub files_sent : ℕ
  pub dlq_enqueued : ℕ
  pub dlq_replayed : ℕ
  pub dlq_replay_failed : ℕ
  pub dlq_pending : ℕ
  pub dlq_failed : ℕ
  pub dlq_done : ℕ
  pub dlq_oldest_sec : ℕ
  pub max_send_rate_limited : ℕ
  pub max_send_queue_depth : ℕ
  pub max_send_queue_drop : ℕ

pub record Collector : Type 0 where
  pub counters : Counters
  pub delivery_by_address : List (DeliveryKey × ℕ)
  pub delivery_events : List DeliveryEvent
  pub latencies : Assoc LatencyHistogram

abbrev no_counts : Counters
no_counts = record {
  received = 0;
  relayed = 0;
  failed = 0;
  text_sent = 0;
  files_sent = 0;
  dlq_enqueued = 0;
  dlq_replayed = 0;
  dlq_replay_failed = 0;
  dlq_pending = 0;
  dlq_failed = 0;
  dlq_done = 0;
  dlq_oldest_sec = 0;
  max_send_rate_limited = 0;
  max_send_queue_depth = 0;
  max_send_queue_drop = 0;
}

unfoldable pub new_collector : Collector
new_collector = record {
  counters = no_counts;
  delivery_by_address = [];
  delivery_events = [];
  latencies = [];
}

abbrev pub plus_one : ℕ → ℕ
plus_one n = word (n + 1)

-- The methods Inc*, each of which adds to one counter, and the methods Set*.
pub data Count : Type 0 where
  inc_received inc_relayed inc_failed inc_text_sent inc_files_sent : Count
  inc_dlq_enqueued inc_dlq_replayed inc_dlq_replay_failed : Count
  inc_max_send_rate_limited inc_max_send_queue_dropped : Count
  set_max_send_queue_depth : ℕ → Count
  set_dlq_backlog : ℕ → ℕ → ℕ → ℕ → Count

unfoldable pub count : Count → Counters → Counters
count inc_received c = record c { received = plus_one c.received }
count inc_relayed c = record c { relayed = plus_one c.relayed }
count inc_failed c = record c { failed = plus_one c.failed }
count inc_text_sent c = record c { text_sent = plus_one c.text_sent }
count inc_files_sent c = record c { files_sent = plus_one c.files_sent }
count inc_dlq_enqueued c = record c { dlq_enqueued = plus_one c.dlq_enqueued }
count inc_dlq_replayed c = record c { dlq_replayed = plus_one c.dlq_replayed }
count inc_dlq_replay_failed c = record c { dlq_replay_failed = plus_one c.dlq_replay_failed }
count inc_max_send_rate_limited c = record c {
  max_send_rate_limited = plus_one c.max_send_rate_limited;
}
count inc_max_send_queue_dropped c = record c {
  max_send_queue_drop = plus_one c.max_send_queue_drop;
}
count (set_max_send_queue_depth v) c = record c { max_send_queue_depth = v }
count (set_dlq_backlog p f d oldest) c = record c {
  dlq_pending = p;
  dlq_failed = f;
  dlq_done = d;
  dlq_oldest_sec = oldest;
}

abbrev pub bool_eq : Bool → Bool → Bool
bool_eq a b = if a then b else not b

unfoldable pub key_eq : DeliveryKey → DeliveryKey → Bool
key_eq j k =
    text_eq j.address k.address
    && bool_eq j.delivered k.delivered
    && text_eq j.max_recipient k.max_recipient
    && text_eq j.recipient_name k.recipient_name

-- c.deliveryByAddress[key]++
unfoldable pub bump : DeliveryKey → List (DeliveryKey × ℕ) → List (DeliveryKey × ℕ)
bump k [] = (k, 1) ∷ []
bump k ((j, n) ∷ m) =
    let rest = bump k m in if key_eq j k then (j, plus_one n) ∷ m else (j, n) ∷ rest

abbrev pub max_stored_delivery_events : ℕ
max_stored_delivery_events = 50000

-- The last of them, if there are too many.
unfoldable pub kept_events : List DeliveryEvent → List DeliveryEvent
kept_events events =
    if ltb max_stored_delivery_events (length events)
    then drop (length events - max_stored_delivery_events) events
    else events

unfoldable pub delivery_key : Text → Bool → Text → Text → DeliveryKey
delivery_key address delivered max_recipient_id recipient_name = record {
  address = trim_space (to_lower address);
  delivered = delivered;
  max_recipient = trim_space max_recipient_id;
  recipient_name = trim_space recipient_name;
}

-- ObserveDelivery, with the key of its arguments and the clock
unfoldable pub observe_key : ℕ → DeliveryKey → Collector → Collector
observe_key now key c = record c {
  delivery_by_address = bump key c.delivery_by_address;
  delivery_events = kept_events (c.delivery_events ++ (record { at = now; key = key } ∷ []));
}

unfoldable pub observe_delivery : ℕ → Text → Bool → Text → Text → Collector → Collector
observe_delivery now address delivered max_recipient_id recipient_name c =
    observe_key now (delivery_key address delivered max_recipient_id recipient_name) c

-- 0.01, 0.05, 0.1, 0.25, 0.5, 1, 2, 5 and 10 seconds
abbrev pub latency_bucket_upper_bounds : List ℕ
latency_bucket_upper_bounds =
    10000000 ∷ 50000000 ∷ 100000000 ∷ 250000000 ∷ 500000000 ∷ 1000000000 ∷ 2000000000 ∷ 5000000000
    ∷ 10000000000 ∷ []

abbrev pub new_histogram : LatencyHistogram
new_histogram = record { buckets = 0 ∷ 0 ∷ 0 ∷ 0 ∷ 0 ∷ 0 ∷ 0 ∷ 0 ∷ 0 ∷ []; sum = 0; count = 0 }

-- The loop over the bounds.
unfoldable pub count_buckets : ℕ → List ℕ → List ℕ → List ℕ
count_buckets d [] buckets = buckets
count_buckets d (ub ∷ ubs) [] = []
count_buckets d (ub ∷ ubs) (b ∷ buckets) =
    (if leb d ub then plus_one b else b) ∷ count_buckets d ubs buckets

unfoldable pub observe_in : ℕ → LatencyHistogram → LatencyHistogram
observe_in d h = record {
  buckets = count_buckets d latency_bucket_upper_bounds h.buckets;
  sum = h.sum + d;
  count = plus_one h.count;
}

abbrev pub histogram_or_new : Option LatencyHistogram → LatencyHistogram
histogram_or_new none = new_histogram
histogram_or_new (some h) = h

abbrev pub at_least_zero : ℕ → ℕ
at_least_zero d = if is_negative d then 0 else d

-- ObserveLatency
unfoldable pub observe_latency : Text → ℕ → Collector → Collector
observe_latency stage d c =
    let name = trim_space (to_lower stage) in
    if is_empty name then c else record c {
      latencies =
          insert name (observe_in (at_least_zero d) (histogram_or_new (lookup name c.latencies)))
            c.latencies;
    }
