-- ===== src/Dlq/Item.antt =====
-- internal/dlq/store.go: the items, the state of the store, and how it is written to disk.
-- Times are nanoseconds since year 1, so 0 is the zero time. A map is iterated in the order of its
-- list.
use smtp_to_max_relay.Prelude.{
  ℕ, ◌+◌, ◌-◌, ◌/◌, ◌%◌, Bool, true, false, ◌||◌, List, [], ◌∷◌, ◌++◌, Option, none, some,
  if◌then◌else◌, ltb,
}
use smtp_to_max_relay.Prelude.Result.{Result, ok, err}
use smtp_to_max_relay.Prelude.Text.{Text}
use smtp_to_max_relay.Prelude.Assoc.{Assoc, insert, values}
use smtp_to_max_relay.Prelude.Sorting.{sort_by}

-- A string; the file may hold any, and every one but the four of the code is `other`.
pub data Status : Type 0 where
  pending processing done failed : Status
  other : Text → Status

pub record Item : Type 0 where
  pub id : Text
  pub fingerprint : Text
  pub recipient : Text
  pub raw_message : List ℕ
  pub last_error : Text
  pub status : Status
  pub attempt : ℕ
  pub next_retry_at : ℕ
  pub created_at : ℕ
  pub updated_at : ℕ

-- The map, and what the file at `path` holds.
pub record Store : Type 0 where
  pub items : Assoc Item
  pub disk : Option (List Item)

pub data StoreError : Type 0 where
  not_found : Text → StoreError
  io : Text → StoreError

abbrev pub is_pending : Status → Bool
is_pending pending = true
is_pending _ = false

abbrev pub is_processing : Status → Bool
is_processing processing = true
is_processing _ = false

abbrev pub is_failed : Status → Bool
is_failed failed = true
is_failed _ = false

abbrev pub is_done : Status → Bool
is_done done = true
is_done _ = false

-- Pending or processing: still to be delivered.
abbrev pub is_live : Item → Bool
is_live item = is_pending item.status || is_processing item.status

abbrev pub created_before : Item → Item → Bool
created_before a b = ltb a.created_at b.created_at

abbrev pub retry_before : Text × Item → Text × Item → Bool
retry_before a b = ltb a.1.next_retry_at b.1.next_retry_at

abbrev pub updated_after : Item → Item → Bool
updated_after a b = ltb b.updated_at a.updated_at

-- persistLocked: the temporary file is renamed onto the old one, or the old one stays. `none`
-- stands for a write that succeeds.
unfoldable pub persist_locked : Option Text → Store → Store × Option StoreError
persist_locked none s = (record s { disk = some (sort_by created_before (values s.items)) }, none)
persist_locked (some e) s = (s, some (io e))

abbrev pub result_or {ℓ} : {A : Type ℓ} → Option StoreError → A → Result StoreError A
result_or none a = ok a
result_or (some e) a = err e

unfoldable pub persisted {ℓ} : {A : Type ℓ} → Option Text → Store → A → Store × Result StoreError A
unfolding persist_locked
persisted disk_write s a =
    let (s', failure) = persist_locked disk_write s in (s', result_or failure a)

abbrev pub put_item : Item → Store → Store
put_item item s = record s { items = insert item.id item s.items }

unfoldable pub hex_digit : ℕ → ℕ
hex_digit n = if ltb n 10 then b'0' + n else b'a' + (n - 10)

-- %x of a byte slice
unfoldable pub hex : List ℕ → Text
unfolding hex_digit
hex [] = []
hex (b ∷ bs) = hex_digit (b / 16) ∷ hex_digit (b % 16) ∷ hex bs

-- What payloadFingerprint hands to SHA-256.
unfoldable pub fingerprint_input : Text → List ℕ → Text
fingerprint_input recipient raw = recipient ++ (b'|' ∷ hex raw)
