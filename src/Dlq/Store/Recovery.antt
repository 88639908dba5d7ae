-- ===== src/Dlq/Store/Recovery.antt =====
-- A restart reads back what was written.
use smtp_to_max_relay.Prelude.{
  false, ◌||◌, List, [], ◌∷◌, Option, none, some, ◌≡◌, ◌≢◌, refl, ap, ◌∙◌, arith, if◌then◌else◌,
  All,
}
use smtp_to_max_relay.Prelude.Result.{ok}
use smtp_to_max_relay.Prelude.Text.{Text, text_eq, contains}
use smtp_to_max_relay.Prelude.Text.Laws.{text_eq_iff}
use smtp_to_max_relay.Prelude.Assoc.{Assoc, lookup, insert, keys, values, Distinct, lookup-insert}
use smtp_to_max_relay.Prelude.Assoc.Entries.{lookup_absent}
use smtp_to_max_relay.Prelude.Sorting.{insert_by, sort_by}
use smtp_to_max_relay.Dlq.Item.{Item, Store, pending, processing, created_before, persist_locked}
use smtp_to_max_relay.Dlq.Store.{load_items, recovered, contents, new_file_store}
use smtp_to_max_relay.Dlq.Store.Invariant.{IsStore}

-- The saved items by their ids.
abbrev by_id : List Item → Assoc Item
by_id [] = []
by_id (item ∷ items) = (item.id, item) ∷ by_id items

abbrev or_else : Option Item → Option Item → Option Item
or_else none other = other
or_else (some item) other = some item

abbrev pub map_item : (Item → Item) → Option Item → Option Item
map_item f none = none
map_item f (some item) = some (f item)

load_items-lookup :
    (sha256_hex : Text → Text) (saved : List Item) (items : Assoc Item) (k : Text)
    → Distinct (keys (by_id saved))
    → lookup k (load_items sha256_hex items saved)
      ≡ or_else (map_item (recovered sha256_hex) (lookup k (by_id saved))) (lookup k items)
unfolding load_items
load_items-lookup sha256_hex [] items k d = unfold lookup in refl
load_items-lookup sha256_hex (item ∷ saved) items k d =
    load_items-lookup sha256_hex saved (insert item.id (recovered sha256_hex item) items) k d.1
    ∙ step
  where
    step :
        or_else
          (map_item (recovered sha256_hex) (lookup k (by_id saved)))
          (lookup k (insert item.id (recovered sha256_hex item) items))
        ≡ or_else
            (map_item (recovered sha256_hex) (lookup k (by_id (item ∷ saved))))
            (lookup k items)
    step =
        unfold lookup in
        ground (
          arith,
          lookup-insert item.id k (recovered sha256_hex item) items,
          lookup_absent item.id (by_id saved) d.0,
          text_eq_iff item.id k,
        )

contains-insert_by :
    (k : Text) (x : Item) (xs : List Item)
    → contains k (keys (by_id (insert_by created_before x xs)))
      ≡ (text_eq x.id k || contains k (keys (by_id xs)))
unfolding contains insert_by
contains-insert_by k x [] = refl
contains-insert_by k x (y ∷ ys) = ground (arith, contains-insert_by k x ys)

contains-sort_by :
    (k : Text) (xs : List Item)
    → contains k (keys (by_id (sort_by created_before xs))) ≡ contains k (keys (by_id xs))
unfolding contains sort_by
contains-sort_by k [] = refl
contains-sort_by k (x ∷ xs) =
    ground (arith, contains-insert_by k x (sort_by created_before xs), contains-sort_by k xs)

insert_by-Distinct :
    (x : Item) (xs : List Item)
    → contains x.id (keys (by_id xs)) ≡ false
    → Distinct (keys (by_id xs))
    → Distinct (keys (by_id (insert_by created_before x xs)))
unfolding insert_by contains
insert_by-Distinct x [] h d = (refl, tt)
insert_by-Distinct x (y ∷ ys) h d = ground (
  arith,
  insert_by-Distinct x ys,
  contains-insert_by y.id x ys,
  text_eq_iff x.id y.id,
  text_eq_iff y.id x.id,
)

sort_by-Distinct :
    (xs : List Item)
    → Distinct (keys (by_id xs))
    → Distinct (keys (by_id (sort_by created_before xs)))
unfolding sort_by
sort_by-Distinct [] d = tt
sort_by-Distinct (x ∷ xs) d =
    insert_by-Distinct x (sort_by created_before xs) (contains-sort_by x.id xs ∙ d.0)
      (sort_by-Distinct xs d.1)

lookup-insert_by :
    (k : Text) (x : Item) (xs : List Item)
    → contains x.id (keys (by_id xs)) ≡ false
    → lookup k (by_id (insert_by created_before x xs))
      ≡ (if text_eq x.id k then some x else lookup k (by_id xs))
unfolding insert_by lookup contains
lookup-insert_by k x [] h = refl
lookup-insert_by k x (y ∷ ys) h =
    ground (
      arith,
      lookup-insert_by k x ys,
      text_eq_iff x.id k,
      text_eq_iff y.id k,
      text_eq_iff y.id x.id,
    )

lookup-sort_by :
    (k : Text) (xs : List Item)
    → Distinct (keys (by_id xs))
    → lookup k (by_id (sort_by created_before xs)) ≡ lookup k (by_id xs)
unfolding sort_by lookup
lookup-sort_by k [] d = refl
lookup-sort_by k (x ∷ xs) d = ground (
  arith,
  lookup-insert_by k x (sort_by created_before xs),
  contains-sort_by x.id xs,
  lookup-sort_by k xs,
  d.0,
)

by_id-values : (items : Assoc Item) → All (λ e. e.0 ≡ e.1.id) items → by_id (values items) ≡ items
by_id-values [] h = refl
by_id-values ((id, item) ∷ items) h = ground (arith, by_id-values items h.1, h.0)

pub record IsRecovered (old new : Item) : Type 0 where
  pub was_processing : old.status ≡ processing → new.status ≡ pending
  pub status_stays : old.status ≢ processing → new.status ≡ old.status
  pub payload_stays :
      (new.id ≡ old.id) × (new.recipient ≡ old.recipient) × (new.raw_message ≡ old.raw_message)
  pub progress_stays :
      (new.attempt ≡ old.attempt)
      × (new.next_retry_at ≡ old.next_retry_at)
      × (new.last_error ≡ old.last_error)

recovered-IsRecovered :
    (sha256_hex : Text → Text) (item : Item) → IsRecovered item (recovered sha256_hex item)
unfolding recovered
recovered-IsRecovered sha256_hex item = record {
  was_processing = λ e. ground arith;
  status_stays = λ e. ground arith;
  payload_stays = (refl, refl, refl);
  progress_stays = (refl, refl, refl);
}

-- After a write that succeeds, a restart gives under each id the item that the store had there,
-- as `load` recovers it: an item that was being processed is pending again, every other status
-- stays, and so do the recipient, the message, the attempts and the retry time. The store's ids are
-- well formed.
pub new_file_store-persist :
    (sha256_hex : Text → Text) (s : Store)
    → IsStore s.items
    → (saved : List Item) × ((persist_locked none s).0.disk ≡ some saved)
      × (restarted : Store) × (new_file_store sha256_hex (contents saved) ≡ ok restarted)
      × ((k : Text) → lookup k restarted.items ≡ map_item (recovered sha256_hex) (lookup k s.items))
      × ((item : Item) → IsRecovered item (recovered sha256_hex item))
unfolding persist_locked new_file_store
new_file_store-persist sha256_hex s v =
    let saved = sort_by created_before (values s.items) in
    (
      saved,
      refl,
      record { items = load_items sha256_hex [] saved; disk = some saved },
      refl,
      (λ k. read_back k),
      recovered-IsRecovered sha256_hex,
    )
  where
    indexed : by_id (values s.items) ≡ s.items
    indexed = by_id-values s.items v.own_id

    different : Distinct (keys (by_id (values s.items)))
    different = rw indexed v.distinct

    nothing : (k : Text) (o : Option Item) → or_else o (lookup k []) ≡ o
    nothing k none = unfold lookup in refl
    nothing k (some item) = refl

    read_back :
        (k : Text)
        → lookup k (load_items sha256_hex [] (sort_by created_before (values s.items)))
          ≡ map_item (recovered sha256_hex) (lookup k s.items)
    read_back k =
        load_items-lookup sha256_hex (sort_by created_before (values s.items)) [] k
          (sort_by-Distinct (values s.items) different)
        ∙ nothing k _
        ∙ ap (map_item (recovered sha256_hex))
            (lookup-sort_by k (values s.items) different ∙ rw indexed)
