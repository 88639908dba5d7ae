-- ===== src/Dlq/Admin/Reports.antt =====
-- internal/dlq/admin.go: the administrator's commands that only read, with a store. A text is a value with
-- what it quotes; the dry run is given as the function that the command calls.
use smtp_to_max_relay.Prelude.{
  ℕ, ◌+◌, ◌*◌, ◌/◌, ltb, List, Option, none, some, if◌then◌else◌, leb, is_empty, length, take, map,
}
use smtp_to_max_relay.Prelude.Result.{Result, ok, err}
use smtp_to_max_relay.Prelude.Text.{Text, codes, trim_space}
use smtp_to_max_relay.Prelude.Sorting.{sort_by}
use smtp_to_max_relay.Dlq.Item.{Status, Item, Store, updated_after}
use smtp_to_max_relay.Dlq.Queries.{Stats, max_duration, stats, oldest_pending_age, get, list}

-- Duration.Round(time.Second) of a duration that is not negative: half a second is rounded up, and
-- what is then too large is the largest duration.
abbrev pub round_to_seconds : ℕ → ℕ
round_to_seconds age =
    let rounded = (age + 500000000) / 1000000000 * 1000000000 in
    if ltb max_duration rounded then max_duration else rounded

-- `none` is "нет".
abbrev pub rounded_age : Option ℕ → Option ℕ
rounded_age none = none
rounded_age (some age) = some (round_to_seconds age)

pub record SummaryText : Type 0 where
  pub counts : Stats
  pub oldest_pending : Option ℕ

-- Admin.Summary
unfoldable pub summary : ℕ → Store → SummaryText
summary now s = record { counts = stats s; oldest_pending = rounded_age (oldest_pending_age now s) }

unfoldable pub short_id : Text → Text
short_id id = if leb (length id) 12 then id else take 12 id

-- fallback(v, "-")
unfoldable pub or_dash : Text → Text
or_dash v = if is_empty (trim_space v) then codes "-" else v

pub record ListLine : Type 0 where
  pub id : Text
  pub status : Status
  pub attempts : ℕ
  pub updated : ℕ
  pub error : Text

list_line : Item → ListLine
unfolding short_id or_dash
list_line item = record {
  id = short_id item.id;
  status = item.status;
  attempts = item.attempt;
  updated = item.updated_at;
  error = or_dash item.last_error;
}

pub data ListText : Type 0 where
  dlq_is_empty : ListText
  latest_items : List ListLine → ListText

-- Admin.List; a limit that is not positive is 0.
unfoldable pub list_text : ℕ → Store → ListText
unfolding list_line
list_text limit s =
    let items = list limit s in
    if is_empty items
    then dlq_is_empty
    else latest_items (map list_line (sort_by updated_after items))

pub record ItemText : Type 0 where
  pub id : Text
  pub recipient : Text
  pub status : Status
  pub attempts : ℕ
  pub last_error : Text
  pub next_retry_at : ℕ
  pub created_at : ℕ
  pub updated_at : ℕ

item_text : Item → ItemText
unfolding or_dash
item_text item = record {
  id = item.id;
  recipient = item.recipient;
  status = item.status;
  attempts = item.attempt;
  last_error = or_dash item.last_error;
  next_retry_at = item.next_retry_at;
  created_at = item.created_at;
  updated_at = item.updated_at;
}

pub data ShowText : Type 0 where
  show_usage : ShowText
  no_such_item : Text → ShowText
  item_shown : ItemText → ShowText

shown_or_not : Text → Option Item → ShowText
unfolding item_text
shown_or_not id none = no_such_item id
shown_or_not id (some item) = item_shown (item_text item)

-- Admin.Show
unfoldable pub show : Text → Store → ShowText
unfolding shown_or_not
show argument s =
    let id = trim_space argument in if is_empty id then show_usage else shown_or_not id (get id s)

pub data DryText : Type 0 where
  dry_usage : DryText
  dry_no_item dry_failed : Text → DryText
  dry_ok : Text → Text → DryText

dry_reply : Text → Result Text Text → DryText
dry_reply id (ok msg) = dry_ok id msg
dry_reply id (err e) = dry_failed e

module _ (dry_run : Text → List ℕ → Result Text Text) where
  tried_dry : Text → Option Item → DryText
  unfolding dry_reply
  tried_dry id none = dry_no_item id
  tried_dry id (some item) = dry_reply id (dry_run item.recipient item.raw_message)

  -- Admin.ReplayDry
  unfoldable pub replay_dry : Text → Store → DryText
  unfolding tried_dry
  replay_dry argument s =
      let id = trim_space argument in if is_empty id then dry_usage else tried_dry id (get id s)
