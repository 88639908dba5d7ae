-- ===== src/Dlq/Queries.antt =====
-- internal/dlq/store.go: the operations of FileStore that only read.
pub mod Laws
use smtp_to_max_relay.Prelude.{
  ℕ, suc, ◌+◌, ◌-◌, ◌/◌, ◌%◌, ◌^◌, Bool, true, false, not, ◌&&◌, ◌||◌, List, [], ◌∷◌, ◌++◌, Option,
  none, some, if◌then◌else◌, ltb, leb, ◌==◌, is_empty, filter, take, length, map,
}
use smtp_to_max_relay.Prelude.Result.{Result, ok, err}
use smtp_to_max_relay.Prelude.Text.{Text, codes, text_eq}
use smtp_to_max_relay.Prelude.Assoc.{Assoc, lookup, insert, values}
use smtp_to_max_relay.Prelude.Sorting.{sort_by}
use smtp_to_max_relay.Dlq.Item.{
  Status, pending, processing, done, failed, other, Item, Store, StoreError, not_found, io,
  is_pending, is_processing, is_failed, is_done, is_live, retry_before, created_before,
  updated_after, persist_locked, persisted, put_item,
}
use smtp_to_max_relay.Dlq.Store.{limit_or}

pub record Stats : Type 0 where
  pub pending_count : ℕ
  pub failed_count : ℕ
  pub done_count : ℕ

count_status : Status → Stats → Stats
count_status pending st = record st { pending_count = st.pending_count + 1 }
count_status processing st = record st { pending_count = st.pending_count + 1 }
count_status failed st = record st { failed_count = st.failed_count + 1 }
count_status done st = record st { done_count = st.done_count + 1 }
count_status (other status) st = st

unfoldable pub count_items : Stats → List Item → Stats
unfolding count_status
count_items st [] = st
count_items st (item ∷ items) = count_items (count_status item.status st) items

-- FileStore.Stats
unfoldable pub stats : Store → Stats
unfolding count_items
stats s =
    count_items (record { pending_count = 0; failed_count = 0; done_count = 0 }) (values s.items)

-- The loop over the items; `oldest` is the zero time until an item is found.
unfoldable pub oldest_live : ℕ → List Item → ℕ
oldest_live oldest [] = oldest
oldest_live oldest (item ∷ items) =
    oldest_live
      (if is_live item && (oldest == 0 || ltb item.created_at oldest)
        then item.created_at
        else oldest)
      items

-- The largest time.Duration; Time.Sub gives it for any longer time.
abbrev pub max_duration : ℕ
max_duration = 2 ^ 63 - 1

abbrev pub time_sub : ℕ → ℕ → ℕ
time_sub now then_at = if ltb max_duration (now - then_at) then max_duration else now - then_at

-- FileStore.OldestPendingAge; `none` is `(0, false)`.
unfoldable pub oldest_pending_age : ℕ → Store → Option ℕ
unfolding oldest_live
oldest_pending_age now s =
    let oldest = oldest_live 0 (values s.items) in
    if oldest == 0 then none else if ltb now oldest then some 0 else some (time_sub now oldest)

-- FileStore.Get
unfoldable pub get : Text → Store → Option Item
get id s = lookup id s.items

-- FileStore.List
unfoldable pub list : ℕ → Store → List Item
list limit s = take (limit_or limit 20) (sort_by updated_after (values s.items))
