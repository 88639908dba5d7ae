-- ===== src/Dlq/Store/Marking.antt =====
-- What MarkDone and MarkRetry change.
use smtp_to_max_relay.Prelude.{
  ℕ, ◌+◌, ◌≤◌, ◌<◌, Option, none, some, ◌≡◌, refl, ◌⊎◌, arith, if◌then◌else◌,
}
use smtp_to_max_relay.Prelude.Result.{Result, ok, err}
use smtp_to_max_relay.Prelude.Text.{Text, text_eq}
use smtp_to_max_relay.Prelude.Assoc.{lookup, insert, lookup-insert}
use smtp_to_max_relay.Dlq.Item.{Item, Store, StoreError, not_found, io, pending, failed, persisted}
use smtp_to_max_relay.Dlq.Store.{mark, mark_done, finished, mark_retry, retried, error_or}

-- The one item has changed, in memory at least; on disk too, if the write went well.
abbrev pub IsMarked :
    Text → (Item → Item) → Option Text → Store → Store × Result StoreError (Unit {0}) → Type 0
IsMarked id change write s (after, result) =
    (lookup id s.items ≡ none → (after ≡ s) × (result ≡ err (not_found id)))
    × ((item : Item)
        → lookup id s.items ≡ some item
        → ((k : Text)
            → lookup k after.items
              ≡ (if text_eq id k then some (change item) else lookup k s.items))
          × ((e : Text) → write ≡ some e → (after.disk ≡ s.disk) × (result ≡ err (io e)))
          × (write ≡ none → result ≡ ok tt))

mark-IsMarked :
    (id : Text) (change : Item → Item) (write : Option Text) (s : Store)
    → IsMarked id change write s (mark id change (lookup id s.items) write s)
unfolding mark persisted
mark-IsMarked id change write s = (
  (λ e. rw e (refl, refl)),
  (λ item e. rw e (
    (λ k. changed write item k),
    (λ e' f. failing write item e' f),
    (λ f. going_well write item f),
  )),
)
  where
    after : Option Text → Item → Store × Result StoreError (Unit {0})
    after w item = persisted w (record s { items = insert id (change item) s.items }) tt

    changed :
        (w : Option Text) (item : Item) (k : Text)
        → lookup k (after w item).0.items
          ≡ (if text_eq id k then some (change item) else lookup k s.items)
    changed none item k = lookup-insert id k (change item) s.items
    changed (some e) item k = lookup-insert id k (change item) s.items

    failing :
        (w : Option Text) (item : Item) (e : Text)
        → w ≡ some e
        → ((after w item).0.disk ≡ s.disk) × ((after w item).1 ≡ err (io e))
    failing none item e f = cc
    failing (some x) item e f = (refl, cc)

    going_well : (w : Option Text) (item : Item) → w ≡ none → (after w item).1 ≡ ok tt
    going_well none item f = refl
    going_well (some x) item f = cc

-- What MarkRetry makes of an item.
pub record IsRetried (next_retry_at : ℕ) (last_err : Option Text) (max_retries : ℕ) (old new : Item)
    : Type 0 where
  pub attempt_is : new.attempt ≡ old.attempt + 1
  pub error_is : new.last_error ≡ error_or last_err old.last_error
  pub same_item :
      (new.id ≡ old.id) × (new.recipient ≡ old.recipient) × (new.raw_message ≡ old.raw_message)
  -- With a limit, the attempt that reaches it is the last one.
  pub gives_up :
      0 < max_retries
      → max_retries ≤ new.attempt
      → (new.status ≡ failed) × (new.next_retry_at ≡ old.next_retry_at)
  pub tries_again :
      (max_retries ≡ 0) ⊎ (new.attempt < max_retries)
      → (new.status ≡ pending) × (new.next_retry_at ≡ next_retry_at)

retried-IsRetried :
    (next_retry_at : ℕ) (last_err : Option Text) (max_retries now : ℕ) (item : Item)
    → IsRetried next_retry_at last_err max_retries item
        (retried next_retry_at last_err max_retries now item)
retried-IsRetried next_retry_at last_err max_retries now item = record {
  attempt_is = ground arith;
  error_is = ground arith;
  same_item = (ground arith, ground arith, ground arith);
  gives_up = λ h k. (ground arith, ground arith);
  tries_again = λ h. (ground arith, ground arith);
}

-- MarkDone changes nothing and reports the id if no item has it; otherwise it makes that item done
-- and changes no other, and if the write fails the file stays and the error is returned.
pub mark_done_lem :
    (id : Text) (now : ℕ) (write : Option Text) (s : Store)
    → IsMarked id (finished now) write s (mark_done id now write s)
unfolding mark_done
mark_done_lem id now write s = mark-IsMarked id (finished now) write s

-- MarkRetry changes nothing and reports the id if no item has it; otherwise it counts an attempt of
-- that item and changes no other, and if the write fails the file stays and the error is
-- returned. The item is pending again, at the new time, as long as its attempts are below a limit
-- that is not 0; at the limit it is failed and keeps its time.
pub mark_retry_lem :
    (id : Text) (next_retry_at : ℕ) (last_err : Option Text) (max_retries now : ℕ)
    (write : Option Text) (s : Store)
    → let change = retried next_retry_at last_err max_retries now in
      IsMarked id change write s (mark_retry id next_retry_at last_err max_retries now write s)
      × ((item : Item) → IsRetried next_retry_at last_err max_retries item (change item))
unfolding mark_retry
mark_retry_lem id next_retry_at last_err max_retries now write s = (
  mark-IsMarked id (retried next_retry_at last_err max_retries now) write s,
  retried-IsRetried next_retry_at last_err max_retries now,
)
