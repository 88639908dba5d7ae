-- ===== src/Dlq/Store.antt =====
-- internal/dlq/store.go: the operations of FileStore that write. A method takes the clock reading, the
-- new id and the result of the disk write that it would get, and returns the new store with its
-- result; it holds the mutex throughout. Limits that are not positive are 0.
pub mod Invariant
pub mod Due
pub mod Picking
pub mod Enqueuing
pub mod Fingerprint
pub mod Marking
pub mod Recovery
use smtp_to_max_relay.Prelude.{
  ℕ, suc, ◌+◌, ◌-◌, ◌/◌, ◌%◌, Bool, true, false, not, ◌&&◌, ◌||◌, List, [], ◌∷◌, ◌++◌, Option, none,
  some, if◌then◌else◌, ltb, leb, ◌==◌, is_empty, filter, take, length, map,
}
use smtp_to_max_relay.Prelude.Result.{Result, ok, err}
use smtp_to_max_relay.Prelude.Text.{Text, codes, text_eq}
use smtp_to_max_relay.Prelude.Assoc.{Assoc, lookup, insert, values}
use smtp_to_max_relay.Prelude.Sorting.{sort_by}
use smtp_to_max_relay.Dlq.Item.{
  Status, pending, processing, done, failed, Item, Store, StoreError, not_found, io, is_pending,
  is_processing, is_failed, is_done, is_live, retry_before, created_before, updated_after,
  persist_locked, persisted, put_item, hex, fingerprint_input,
}

-- Still to be delivered, with this fingerprint.
abbrev pub is_duplicate : Text → Item → Bool
is_duplicate fingerprint existing =
    not (is_empty existing.fingerprint)
    && text_eq existing.fingerprint fingerprint
    && is_live existing

unfoldable pub find_live : Text → Assoc Item → Option Item
find_live fingerprint [] = none
find_live fingerprint ((id, existing) ∷ items) =
    if is_duplicate fingerprint existing then some existing else find_live fingerprint items

abbrev pub error_or : Option Text → Text → Text
error_or none old = old
error_or (some e) old = e

new_item : Text → Text → Text → List ℕ → Option Text → ℕ → Item
new_item id fingerprint recipient raw last_err now = record {
  id = id;
  fingerprint = fingerprint;
  recipient = recipient;
  raw_message = raw;
  last_error = error_or last_err [];
  status = pending;
  attempt = 0;
  next_retry_at = now;
  created_at = now;
  updated_at = now;
}

enqueue_at :
    Option Item → Item → Option Text → ℕ → Option Text → Store → Store × Result StoreError Item
unfolding persisted
enqueue_at none item last_err now disk_write s = persisted disk_write (put_item item s) item
enqueue_at (some existing) item last_err now disk_write s =
    let touched = record existing {
      last_error = error_or last_err existing.last_error;
      updated_at = now;
    } in
    persisted disk_write (put_item touched s) touched

module _ (sha256_hex : Text → Text) where
  unfoldable pub payload_fingerprint : Text → List ℕ → Text
  payload_fingerprint recipient raw = sha256_hex (fingerprint_input recipient raw)

  -- FileStore.Enqueue
  unfoldable pub enqueue :
      Text → List ℕ → Option Text → ℕ → Text → Option Text → Store → Store × Result StoreError Item
  unfolding enqueue_at new_item payload_fingerprint
  enqueue recipient raw last_err now new_id disk_write s =
      let fingerprint = payload_fingerprint recipient raw in
      enqueue_at (find_live fingerprint s.items)
        (new_item new_id fingerprint recipient raw last_err now) last_err now disk_write s

  -- One round of the loop of `load`.
  unfoldable pub recovered : Item → Item
  recovered item = record item {
    fingerprint =
        if is_empty item.fingerprint
        then payload_fingerprint item.recipient item.raw_message
        else item.fingerprint;
    status = if is_processing item.status then pending else item.status;
  }

  unfoldable pub load_items : Assoc Item → List Item → Assoc Item
  unfolding recovered
  load_items items [] = items
  load_items items (item ∷ rest) = load_items (insert item.id (recovered item) items) rest

-- What reading the file and decoding it gives.
pub data StoreFile : Type 0 where
  missing empty : StoreFile
  unreadable malformed : Text → StoreFile
  contents : List Item → StoreFile

module _ (sha256_hex : Text → Text) where
  -- NewFileStore; an error gives no store. The file stays as it is.
  unfoldable pub new_file_store : StoreFile → Result StoreError Store
  unfolding load_items
  new_file_store missing = ok (record { items = []; disk = none })
  new_file_store empty = ok (record { items = []; disk = some [] })
  new_file_store (unreadable e) = err (io e)
  new_file_store (malformed e) = err (io e)
  new_file_store (contents saved) =
      ok (record { items = load_items sha256_hex [] saved; disk = some saved })

abbrev pub is_due : ℕ → Text × Item → Bool
is_due now e = is_pending e.1.status && leb e.1.next_retry_at now

abbrev pub limit_or : ℕ → ℕ → ℕ
limit_or limit default = if limit == 0 then default else limit

-- The entries that PickDue takes, in order.
unfoldable pub due_entries : ℕ → ℕ → Assoc Item → Assoc Item
due_entries limit now items =
    take (limit_or limit 10) (sort_by retry_before (filter (is_due now) items))

abbrev pub started : ℕ → Item → Item
started now item = record item { status = processing; updated_at = now }

unfoldable pub start_all : ℕ → Assoc Item → Assoc Item → Assoc Item
start_all now [] items = items
start_all now ((id, item) ∷ entries) items =
    start_all now entries (insert id (started now item) items)

pick_entries : ℕ → Assoc Item → Option Text → Store → Store × Result StoreError (List Item)
unfolding persisted
pick_entries now [] disk_write s = (s, ok [])
pick_entries now (e ∷ entries) disk_write s =
    persisted disk_write (record s { items = start_all now (e ∷ entries) s.items })
      (map (started now) (values (e ∷ entries)))

-- FileStore.PickDue
unfoldable pub pick_due : ℕ → ℕ → Option Text → Store → Store × Result StoreError (List Item)
unfolding pick_entries
pick_due limit now disk_write s = pick_entries now (due_entries limit now s.items) disk_write s

mark :
    Text → (Item → Item) → Option Item → Option Text → Store → Store × Result StoreError (Unit {0})
unfolding persisted
mark id change none disk_write s = (s, err (not_found id))
mark id change (some item) disk_write s =
    persisted disk_write (record s { items = insert id (change item) s.items }) tt

abbrev pub finished : ℕ → Item → Item
finished now item = record item { status = done; updated_at = now }

-- FileStore.MarkDone
unfoldable pub mark_done : Text → ℕ → Option Text → Store → Store × Result StoreError (Unit {0})
unfolding mark
mark_done id now disk_write s = mark id (finished now) (lookup id s.items) disk_write s

abbrev pub is_exhausted : ℕ → ℕ → Bool
is_exhausted max_retries attempt = ltb 0 max_retries && leb max_retries attempt

abbrev pub retried : ℕ → Option Text → ℕ → ℕ → Item → Item
retried next_retry_at last_err max_retries now item =
    let tried = record item {
      last_error = error_or last_err item.last_error;
      attempt = item.attempt + 1;
      updated_at = now;
    } in
    if is_exhausted max_retries (item.attempt + 1)
    then record tried { status = failed }
    else record tried { status = pending; next_retry_at = next_retry_at }

-- FileStore.MarkRetry
unfoldable pub mark_retry :
    Text → ℕ → Option Text → ℕ → ℕ → Option Text → Store → Store × Result StoreError (Unit {0})
unfolding mark
mark_retry id next_retry_at last_err max_retries now disk_write s =
    mark id (retried next_retry_at last_err max_retries now) (lookup id s.items) disk_write s
