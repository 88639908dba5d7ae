-- ===== src/Metrics/Lines.antt =====
-- internal/metrics/collector.go: the lines of the deliveries and the latencies. A line is a value with its
-- labels, as escapeLabel gives them, and its number; %q and the decimal point are left to the text.
use smtp_to_max_relay.Prelude.{
  ℕ, Bool, true, false, not, ◌&&◌, List, [], ◌∷◌, ◌++◌, if◌then◌else◌, ◌==◌, map,
}
use smtp_to_max_relay.Prelude.Text.{Text, codes, text_eq, text_before}
use smtp_to_max_relay.Prelude.Sorting.{sort_by}
use smtp_to_max_relay.Metrics.{
  Counters, DeliveryKey, LatencyHistogram, Collector, bool_eq, latency_bucket_upper_bounds,
}

unfoldable pub escape_rune : ℕ → Text
escape_rune r =
    if r == 0x5c
    then 0x5c ∷ 0x5c ∷ []
    else if r == 0x22
    then 0x5c ∷ 0x22 ∷ []
    else if r == 10
    then 0x5c ∷ b'n' ∷ []
    else r ∷ []

unfoldable pub escape_label : Text → Text
escape_label [] = []
escape_label (r ∷ v) = escape_rune r ++ escape_label v

abbrev pub bool_label : Bool → Text
bool_label true = codes "true"
bool_label false = codes "false"

unfoldable pub key_before : DeliveryKey → DeliveryKey → Bool
key_before j k =
    if not (text_eq j.address k.address)
    then text_before j.address k.address
    else if not (bool_eq j.delivered k.delivered)
    then not j.delivered && k.delivered
    else if not (text_eq j.max_recipient k.max_recipient)
    then text_before j.max_recipient k.max_recipient
    else text_before j.recipient_name k.recipient_name

pub record DeliveryLine : Type 0 where
  pub address : Text
  pub delivered : Text
  pub max_recipient_id : Text
  pub max_recipient_name : Text
  pub value : ℕ

abbrev delivery_line : DeliveryKey × ℕ → DeliveryLine
delivery_line (k, n) = record {
  address = escape_label k.address;
  delivered = bool_label k.delivered;
  max_recipient_id = escape_label k.max_recipient;
  max_recipient_name = escape_label k.recipient_name;
  value = n;
}

-- deliveryMetricLines
unfoldable pub delivery_metric_lines : Collector → List DeliveryLine
delivery_metric_lines c =
    map delivery_line (sort_by (λ a b. key_before a.0 b.0) c.delivery_by_address)

-- The lines of a stage: a bucket by its bound, the bucket of all, the sum and the count.
pub data LatencyLine : Type 0 where
  bucket : Text → ℕ → ℕ → LatencyLine
  bucket_inf sum count : Text → ℕ → LatencyLine

bucket_lines : Text → List ℕ → List ℕ → List LatencyLine
bucket_lines stage [] buckets = []
bucket_lines stage (ub ∷ ubs) [] = []
bucket_lines stage (ub ∷ ubs) (b ∷ buckets) = bucket stage ub b ∷ bucket_lines stage ubs buckets

stage_lines : Text → LatencyHistogram → List LatencyLine
unfolding bucket_lines
stage_lines stage h =
    bucket_lines stage latency_bucket_upper_bounds h.buckets
    ++ (bucket_inf stage h.count ∷ sum stage h.sum ∷ count stage h.count ∷ [])

all_stages : List (Text × LatencyHistogram) → List LatencyLine
unfolding stage_lines
all_stages [] = []
all_stages ((stage, h) ∷ stages) = stage_lines (escape_label stage) h ++ all_stages stages

-- latencyMetricLines
unfoldable pub latency_metric_lines : Collector → List LatencyLine
unfolding all_stages
latency_metric_lines c = all_stages (sort_by (λ a b. text_before a.0 b.0) c.latencies)

-- The lines of the counters, in order.
unfoldable pub counter_lines : Counters → List (Text × ℕ)
counter_lines c =
    (codes "smtp_relay_received_total", c.received)
    ∷ (codes "smtp_relay_relayed_total", c.relayed)
    ∷ (codes "smtp_relay_failed_total", c.failed)
    ∷ (codes "smtp_relay_text_sent_total", c.text_sent)
    ∷ (codes "smtp_relay_files_sent_total", c.files_sent)
    ∷ (codes "smtp_relay_dlq_enqueued_total", c.dlq_enqueued)
    ∷ (codes "smtp_relay_dlq_replayed_total", c.dlq_replayed)
    ∷ (codes "smtp_relay_dlq_replay_failed_total", c.dlq_replay_failed)
    ∷ (codes "smtp_relay_dlq_pending", c.dlq_pending)
    ∷ (codes "smtp_relay_dlq_failed", c.dlq_failed)
    ∷ (codes "smtp_relay_dlq_done", c.dlq_done)
    ∷ (codes "smtp_relay_dlq_oldest_pending_seconds", c.dlq_oldest_sec)
    ∷ (codes "max_send_rate_limited_total", c.max_send_rate_limited)
    ∷ (codes "max_send_queue_depth", c.max_send_queue_depth)
    ∷ (codes "max_send_queue_dropped_total", c.max_send_queue_drop)
    ∷ []

-- Handler: what a request is answered with
pub record MetricsPage : Type 0 where
  pub counters : List (Text × ℕ)
  pub deliveries : List DeliveryLine
  pub latencies : List LatencyLine

unfoldable pub handler : Collector → MetricsPage
handler c = record {
  counters = counter_lines c.counters;
  deliveries = delivery_metric_lines c;
  latencies = latency_metric_lines c;
}
