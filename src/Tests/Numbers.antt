-- ===== src/Tests/Numbers.antt =====
-- internal/metrics at concrete inputs.
use smtp_to_max_relay.Prelude.{
  ℕ, Bool, true, false, List, [], ◌∷◌, Option, none, some, ◌≡◌, refl, arith, ◌≤◌, ◌+◌,
  if◌then◌else◌, length,
}
use smtp_to_max_relay.Prelude.Text.{Text, codes}
use smtp_to_max_relay.Prelude.Assoc.{lookup}
use smtp_to_max_relay.Metrics.{
  DeliveryKey, Collector, LatencyHistogram, new_collector, delivery_key,
}
use smtp_to_max_relay.Metrics.Report.{build_last_days_report, DaysReport}
use smtp_to_max_relay.Metrics.Deliveries.{observe_keys, observe_keys_lem, count_for}
use smtp_to_max_relay.Metrics.Latencies.{observe_latencies, observe_latencies_lem, histogram_of}
use smtp_to_max_relay.Metrics.Totals.{build_last_days_report_lem}

abbrev ops_key : DeliveryKey
ops_key = delivery_key (codes " Ops@R.l") true (codes "12") (codes "ops")

abbrev lost_key : DeliveryKey
lost_key = record ops_key { delivered = false }

abbrev two_days : List (ℕ × DeliveryKey)
two_days = (86400000000000, ops_key) ∷ (172800000000000, lost_key) ∷ (172800000000001, ops_key) ∷ []

observe_keys_lem_example :
    count_for ops_key (observe_keys two_days new_collector).delivery_by_address ≡ 2
unfolding smtp_to_max_relay.Metrics.key_eq smtp_to_max_relay.Prelude.Text.text_eq delivery_key
    smtp_to_max_relay.Prelude.Text.trim_right smtp_to_max_relay.Prelude.Text.trim_left
    smtp_to_max_relay.Prelude.Text.is_space smtp_to_max_relay.Prelude.Text.lower_rune
observe_keys_lem_example = (observe_keys_lem two_days ops_key).1

abbrev timed : List (Text × ℕ)
timed = (codes "Send ", 60000000) ∷ (codes "parse", 1000) ∷ (codes "send", 20000000000) ∷ []

observe_latencies_lem_example :
    lookup (codes "send") (observe_latencies timed).latencies
    ≡ some (histogram_of (60000000 ∷ 20000000000 ∷ []))
unfolding smtp_to_max_relay.Metrics.Latencies.durations smtp_to_max_relay.Prelude.Text.text_eq
    smtp_to_max_relay.Prelude.Text.trim_right smtp_to_max_relay.Prelude.Text.trim_left
    smtp_to_max_relay.Prelude.Text.is_space smtp_to_max_relay.Prelude.Text.lower_rune
observe_latencies_lem_example = observe_latencies_lem timed (codes "send") refl

abbrev last_day : DaysReport
last_day = build_last_days_report 172800000000002 1 (observe_keys two_days new_collector)

build_last_days_report_lem_example :
    last_day.counts.total ≡ last_day.counts.delivered + last_day.counts.failed
build_last_days_report_lem_example =
    (build_last_days_report_lem 172800000000002 1 (observe_keys two_days new_collector)).1

last_day-counts : last_day.counts.total ≡ 2
unfolding build_last_days_report smtp_to_max_relay.Metrics.Report.aggregate_since observe_keys
    smtp_to_max_relay.Metrics.observe_key smtp_to_max_relay.Metrics.kept_events new_collector
    smtp_to_max_relay.Metrics.Report.aggregate smtp_to_max_relay.Metrics.Report.add_outcome
    delivery_key
last_day-counts = refl
