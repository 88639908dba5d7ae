-- ===== src/Metrics/Report.antt =====
-- internal/metrics/collector.go: BuildLastDaysReport. The report is the record of the numbers that its text
-- shows, with the keys of its lists.
use smtp_to_max_relay.Prelude.{
  ℕ, ◌+◌, ◌-◌, ◌*◌, Bool, true, false, not, List, [], ◌∷◌, ◌++◌, none, some, if◌then◌else◌, ltb,
  ◌==◌, is_empty, take, length,
}
use smtp_to_max_relay.Prelude.Text.{Text, codes, text_before, trim_space}
use smtp_to_max_relay.Prelude.Assoc.{Assoc, lookup, insert}
use smtp_to_max_relay.Prelude.Sorting.{sort_by}
use smtp_to_max_relay.Metrics.{DeliveryKey, DeliveryEvent, Collector}

pub record RecipientStats : Type 0 where
  pub total : ℕ
  pub delivered : ℕ
  pub failed : ℕ

pub record Aggregates : Type 0 where
  pub all_events : RecipientStats
  pub by_address : Assoc ℕ
  pub by_recipient : Assoc ℕ
  pub recipient_agg : Assoc RecipientStats

-- A missing key reads as the zero value.
abbrev pub count_at : Text → Assoc ℕ → ℕ
count_at k m = elim (lookup k m) [ none ↦ 0 | some n ↦ n ]

abbrev pub no_stats : RecipientStats
no_stats = record { total = 0; delivered = 0; failed = 0 }

abbrev pub stats_at : Text → Assoc RecipientStats → RecipientStats
stats_at k m = elim (lookup k m) [ none ↦ no_stats | some s ↦ s ]

unfoldable pub add_one : Text → Assoc ℕ → Assoc ℕ
add_one k m = insert k (count_at k m + 1) m

unfoldable pub add_outcome : Bool → RecipientStats → RecipientStats
add_outcome true s = record s { total = s.total + 1; delivered = s.delivered + 1 }
add_outcome false s = record s { total = s.total + 1; failed = s.failed + 1 }

abbrev pub or_unknown : Text → Text
or_unknown v = if is_empty (trim_space v) then codes "unknown" else trim_space v

unfoldable pub format_recipient_label : Text → Text → Text
format_recipient_label name id = or_unknown name ++ (codes " (id=" ++ (or_unknown id ++ codes ")"))

abbrev pub label_of : DeliveryKey → Text
label_of k = format_recipient_label k.recipient_name k.max_recipient

unfoldable pub aggregate : DeliveryEvent → Aggregates → Aggregates
aggregate ev a =
    let label = label_of ev.key in
    record {
      all_events = add_outcome ev.key.delivered a.all_events;
      by_address = add_one ev.key.address a.by_address;
      by_recipient = if ev.key.delivered then add_one label a.by_recipient else a.by_recipient;
      recipient_agg =
          insert label (add_outcome ev.key.delivered (stats_at label a.recipient_agg))
            a.recipient_agg;
    }

-- The loop over the events.
unfoldable pub aggregate_since : ℕ → List DeliveryEvent → Aggregates → Aggregates
aggregate_since since [] a = a
aggregate_since since (ev ∷ evs) a =
    aggregate_since since evs (if ltb ev.at since then a else aggregate ev a)

abbrev pub count_before : Text × ℕ → Text × ℕ → Bool
count_before a b = if not (a.1 == b.1) then ltb b.1 a.1 else text_before a.0 b.0

abbrev pub stats_before : Text × RecipientStats → Text × RecipientStats → Bool
stats_before a b =
    if not (a.1.total == b.1.total) then ltb b.1.total a.1.total else text_before a.0 b.0

-- topK and topRecipientStats, where the limit is positive
unfoldable pub top_k : Assoc ℕ → ℕ → Assoc ℕ
top_k m k = take k (sort_by count_before m)

unfoldable pub top_recipient_stats : Assoc RecipientStats → ℕ → Assoc RecipientStats
top_recipient_stats m k = take k (sort_by stats_before m)

pub record DaysReport : Type 0 where
  pub days : ℕ
  pub counts : RecipientStats
  pub top_addresses : Assoc ℕ
  pub top_recipients : Assoc ℕ
  pub unique_recipients : ℕ
  pub top_stats : Assoc RecipientStats

abbrev pub nothing_counted : Aggregates
nothing_counted = record {
  all_events = no_stats;
  by_address = [];
  by_recipient = [];
  recipient_agg = [];
}

abbrev pub one_day : ℕ
one_day = 24 * 3600 * 1000000000

unfoldable pub report_of : ℕ → Aggregates → DaysReport
report_of days a = record {
  days = days;
  counts = a.all_events;
  top_addresses = top_k a.by_address 5;
  top_recipients = top_k a.by_recipient 5;
  unique_recipients = length a.recipient_agg;
  top_stats = top_recipient_stats a.recipient_agg 5;
}

abbrev pub days_or_week : ℕ → ℕ
days_or_week days = if days == 0 then 7 else days

-- BuildLastDaysReport; a negative number of days is 0.
unfoldable pub build_last_days_report : ℕ → ℕ → Collector → DaysReport
unfolding report_of
build_last_days_report now days c =
    let since = now - days_or_week days * one_day in
    report_of (days_or_week days) (aggregate_since since c.delivery_events nothing_counted)
