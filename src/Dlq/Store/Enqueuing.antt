-- ===== src/Dlq/Store/Enqueuing.antt =====
-- What Enqueue stores, and how it finds a payload that is already waiting.
use smtp_to_max_relay.Prelude.{
  ℕ, true, false, List, [], ◌∷◌, Option, none, some, ◌≡◌, ◌≢◌, refl, ap, ◌∙◌, arith, is_empty,
  subst,
}
use smtp_to_max_relay.Prelude.Result.{Result, ok}
use smtp_to_max_relay.Prelude.Text.{Text, text_eq}
use smtp_to_max_relay.Prelude.Text.Laws.{text_eq_iff, text_eq_refl}
use smtp_to_max_relay.Prelude.Assoc.{Assoc, lookup, keys, lookup-insert}
use smtp_to_max_relay.Prelude.Assoc.Entries.{contains_of_lookup, keys-insert_old}
use smtp_to_max_relay.Dlq.Item.{Status, Item, Store, StoreError, is_live, persisted, put_item}
use smtp_to_max_relay.Dlq.Store.{
  find_live, is_duplicate, enqueue, enqueue_at, new_item, error_or, payload_fingerprint,
}
use smtp_to_max_relay.Dlq.Store.Invariant.{
  IsStore, enqueue-IsStore, persisted-items, find_live_stored,
}

-- Still to be delivered, with this fingerprint, which is not empty.
abbrev pub IsWaiting : Text → Item → Type 0
IsWaiting fingerprint item =
    (is_live item ≡ true) × (item.fingerprint ≡ fingerprint) × (is_empty fingerprint ≡ false)

-- A new item: it holds the message, and is to be delivered at once.
pub record IsNew (fingerprint recipient : Text) (raw : List ℕ) (last_err : Option Text) (now : ℕ)
    (new_id : Text) (item : Item) : Type 0 where
  pub id : item.id ≡ new_id
  pub fingerprinted : item.fingerprint ≡ fingerprint
  pub addressed : item.recipient ≡ recipient
  pub message : item.raw_message ≡ raw
  pub error : item.last_error ≡ error_or last_err []
  pub pending : item.status ≡ Status.pending
  pub untried : item.attempt ≡ 0
  pub due : item.next_retry_at ≡ now
  pub created : item.created_at ≡ now
  pub updated : item.updated_at ≡ now

-- Only the error and the time of the last change differ, and the error only if there is one.
pub record IsTouched (old : Item) (last_err : Option Text) (now : ℕ) (item : Item) : Type 0 where
  pub id : item.id ≡ old.id
  pub fingerprinted : item.fingerprint ≡ old.fingerprint
  pub addressed : item.recipient ≡ old.recipient
  pub message : item.raw_message ≡ old.raw_message
  pub error : item.last_error ≡ error_or last_err old.last_error
  pub same_status : item.status ≡ old.status
  pub tried : item.attempt ≡ old.attempt
  pub due : item.next_retry_at ≡ old.next_retry_at
  pub created : item.created_at ≡ old.created_at
  pub updated : item.updated_at ≡ now

-- No item with the fingerprint is waiting, and the item is new; or one is, and the item is that one.
pub data IsNewOrOld (items : Assoc Item) (fingerprint recipient : Text) (raw : List ℕ)
    (last_err : Option Text) (now : ℕ) (new_id : Text) (item : Item) : Type 0 where
  is_new :
      ((k : Text) (i : Item) → lookup k items ≡ some i → ¬ IsWaiting fingerprint i)
      → IsNew fingerprint recipient raw last_err now new_id item
      → IsNewOrOld items fingerprint recipient raw last_err now new_id item
  is_old :
      (old : Item)
      → lookup old.id items ≡ some old
      → IsWaiting fingerprint old
      → IsTouched old last_err now item
      → IsNewOrOld items fingerprint recipient raw last_err now new_id item

pub record IsEnqueued (fingerprint recipient : Text) (raw : List ℕ) (last_err : Option Text)
    (now : ℕ) (new_id : Text) (s : Store) (after : Store × Result StoreError Item) : Type 0 where
  pub item : Item
  pub returned : after.1 ≡ ok item
  pub stored : lookup item.id after.0.items ≡ some item
  pub others : (k : Text) → text_eq item.id k ≡ false → lookup k after.0.items ≡ lookup k s.items
  pub new_or_old : IsNewOrOld s.items fingerprint recipient raw last_err now new_id item

put_item-stored : (item : Item) (s : Store) → lookup item.id (put_item item s).items ≡ some item
put_item-stored item s =
    ground (arith, lookup-insert item.id item.id item s.items, text_eq_refl item.id)

put_item-others :
    (item : Item) (s : Store) (k : Text)
    → text_eq item.id k ≡ false
    → lookup k (put_item item s).items ≡ lookup k s.items
put_item-others item s k h = ground (arith, lookup-insert item.id k item s.items)

-- A stored live item with the fingerprint is found, or one before it.
find_live-some :
    (fingerprint : Text) (items : Assoc Item) (id : Text) (item : Item)
    → lookup id items ≡ some item
    → is_duplicate fingerprint item ≡ true
    → find_live fingerprint items ≢ none
unfolding find_live lookup
find_live-some fingerprint [] id item h e f = cc
find_live-some fingerprint ((j, w) ∷ items) id item h e f =
    ground (arith, find_live-some fingerprint items id item)

none-IsWaiting :
    (fingerprint : Text) (items : Assoc Item)
    → find_live fingerprint items ≡ none
    → (k : Text) (i : Item) → lookup k items ≡ some i
    → ¬ IsWaiting fingerprint i
none-IsWaiting fingerprint items none_found k i found (live, same, full) =
    find_live-some fingerprint items k i found
      (ground (arith, live, same, full, text_eq_iff i.fingerprint fingerprint)) none_found

enqueue_at-IsEnqueued :
    (found : Option Item) (fingerprint recipient : Text) (raw : List ℕ) (last_err : Option Text)
    (now : ℕ) (new_id : Text) (s : Store)
    → IsStore s.items
    → find_live fingerprint s.items ≡ found
    → IsEnqueued fingerprint recipient raw last_err now new_id s (
        enqueue_at found
          (new_item new_id fingerprint recipient raw last_err now)
          last_err
          now
          none
          s)
unfolding enqueue_at persisted new_item
enqueue_at-IsEnqueued none fingerprint recipient raw last_err now new_id s v found =
    let item = new_item new_id fingerprint recipient raw last_err now in
    record {
      item = item;
      returned = refl;
      stored = put_item-stored item s;
      others = put_item-others item s;
      new_or_old = is_new (none-IsWaiting fingerprint s.items found) (record {
        id = refl;
        fingerprinted = refl;
        addressed = refl;
        message = refl;
        error = refl;
        pending = refl;
        untried = refl;
        due = refl;
        created = refl;
        updated = refl;
      });
    }
enqueue_at-IsEnqueued (some existing) fingerprint recipient raw last_err now new_id s v found =
    let (stored, duplicate) = find_live_stored fingerprint s.items {item = existing} v found in
    let touched = record existing {
      last_error = error_or last_err existing.last_error;
      updated_at = now;
    } in
    let same : existing.fingerprint ≡ fingerprint =
      (text_eq_iff existing.fingerprint fingerprint).0 (ground (arith, duplicate)) in
    record {
      item = touched;
      returned = refl;
      stored = put_item-stored touched s;
      others = put_item-others touched s;
      new_or_old =
          is_old existing stored
            (
              ground (arith, duplicate),
              same,
              subst (λ f. is_empty f ≡ false) same (ground (arith, duplicate)),
            )
            (record {
              id = refl;
              fingerprinted = refl;
              addressed = refl;
              message = refl;
              error = refl;
              same_status = refl;
              tried = refl;
              due = refl;
              created = refl;
              updated = refl;
            });
    }

-- Enqueue, when its write succeeds, returns an item and stores it under its id, and no other id
-- changes. If no item to be delivered has the payload's fingerprint, the item is new: it has the new id,
-- the recipient and the message, no attempt made, and is due at once. Otherwise it is such an item that
-- was stored, and keeps everything but its error and the time of its change. An empty fingerprint counts
-- as none. The store's ids are well formed.
pub enqueue-IsEnqueued :
    (sha256_hex : Text → Text) (recipient : Text) (raw : List ℕ) (last_err : Option Text) (now : ℕ)
    (new_id : Text) (s : Store)
    → IsStore s.items
    → IsEnqueued
        (payload_fingerprint sha256_hex recipient raw)
        recipient
        raw
        last_err
        now
        new_id
        s
        (enqueue sha256_hex recipient raw last_err now new_id none s)
unfolding enqueue
enqueue-IsEnqueued sha256_hex recipient raw last_err now new_id s v =
    enqueue_at-IsEnqueued _ (payload_fingerprint sha256_hex recipient raw) recipient raw last_err
      now new_id s v refl

enqueue_again :
    (found : Option Item) (item : Item) (last_err : Option Text) (now : ℕ) (write : Option Text)
    (s : Store)
    → IsStore s.items
    → find_live item.fingerprint s.items ≡ found
    → found ≢ none
    → keys (enqueue_at found item last_err now write s).0.items ≡ keys s.items
unfolding enqueue_at
enqueue_again none item last_err now write s v h ne = absurd (ne refl)
enqueue_again (some existing) item last_err now write s v h ne =
    let touched = record existing {
      last_error = error_or last_err existing.last_error;
      updated_at = now;
    } in
    ap keys (persisted-items write (put_item touched s) touched)
    ∙ keys-insert_old existing.id touched s.items (
        contains_of_lookup existing.id s.items
          (find_live_stored item.fingerprint s.items {item = existing} v h).0)

is_duplicate_of :
    (items : Assoc Item) (fingerprint recipient : Text) (raw : List ℕ) (last_err : Option Text)
    (now : ℕ) (new_id : Text) (item : Item)
    → is_empty fingerprint ≡ false
    → IsNewOrOld items fingerprint recipient raw last_err now new_id item
    → is_duplicate fingerprint item ≡ true
is_duplicate_of items fingerprint recipient raw last_err now new_id item full (is_new absent n) =
    rw (n.fingerprinted, n.pending) (ground (arith, full, text_eq_refl fingerprint))
is_duplicate_of items fingerprint recipient raw last_err now new_id item full
      (is_old old found (live, same, _) t) =
    rw (t.fingerprinted, t.same_status, same) (ground (arith, full, live, text_eq_refl fingerprint))

-- While a payload is waiting, enqueueing it again adds no item, whatever becomes of the write.
pub enqueue_twice :
    (sha256_hex : Text → Text) (recipient : Text) (raw : List ℕ) (first_err last_err : Option Text)
    (now now' : ℕ) (id id' : Text) (write : Option Text) (s : Store)
    → IsStore s.items
    → is_empty (payload_fingerprint sha256_hex recipient raw) ≡ false
    → let once = (enqueue sha256_hex recipient raw first_err now id none s).0 in
      keys (enqueue sha256_hex recipient raw last_err now' id' write once).0.items ≡ keys once.items
enqueue_twice sha256_hex recipient raw first_err last_err now now' id id' write s v h =
    let fingerprint = payload_fingerprint sha256_hex recipient raw in
    let once = enqueue sha256_hex recipient raw first_err now id none s in
    let first = enqueue-IsEnqueued sha256_hex recipient raw first_err now id s v in
    let waiting : is_duplicate fingerprint first.item ≡ true =
      is_duplicate_of s.items fingerprint recipient raw first_err now id first.item h
        first.new_or_old in
    unfold enqueue in
    enqueue_again _ (new_item id' fingerprint recipient raw last_err now') last_err now' write
      once.0 (enqueue-IsStore sha256_hex recipient raw first_err now id none s v) refl
      (find_live-some fingerprint once.0.items first.item.id first.item first.stored waiting)
