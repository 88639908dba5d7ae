-- ===== src/Dlq/Store/Invariant.antt =====
-- The ids of the store: every item stands under its own, and no two are equal.
use smtp_to_max_relay.Prelude.{
  ℕ, true, List, [], ◌∷◌, Option, none, some, ◌≡◌, refl, sym, ◌∙◌, inl, inr, arith, All, Bool-cases,
  Option-cases,
}
use smtp_to_max_relay.Prelude.Result.{ok, ok-injective}
use smtp_to_max_relay.Prelude.Text.{Text}
use smtp_to_max_relay.Prelude.Text.Laws.{text_eq_iff, text_eq_refl}
use smtp_to_max_relay.Prelude.Assoc.{Assoc, lookup, insert, keys, Distinct, insert-Distinct}
use smtp_to_max_relay.Prelude.Assoc.Entries.{
  Stored, All-insert, All-at_key, contains_of_lookup, Stored-self,
}
use smtp_to_max_relay.Dlq.Item.{Item, Store, persisted, put_item}
use smtp_to_max_relay.Dlq.Store.{
  find_live, is_duplicate, enqueue, enqueue_at, load_items, recovered, StoreFile, missing, empty,
  unreadable, malformed, contents, new_file_store, started, start_all, pick_entries, pick_due, mark,
  mark_done, mark_retry, retried, finished,
}
use smtp_to_max_relay.Dlq.Store.Due.{due_entries-IsPick}

pub record IsStore (items : Assoc Item) : Type 0 where
  pub distinct : Distinct (keys items)
  pub own_id : All (λ e. e.0 ≡ e.1.id) items

pub insert-IsStore :
    (id : Text) (item : Item) (items : Assoc Item)
    → IsStore items
    → id ≡ item.id
    → IsStore (insert id item items)
insert-IsStore id item items v e = record {
  distinct = insert-Distinct id item items v.distinct;
  own_id = All-insert (λ e. e.0 ≡ e.1.id) id item items e v.own_id;
}

-- What is looked up has the id that it is looked up by.
pub id_of_lookup :
    (id : Text) (items : Assoc Item) {item : Item}
    → IsStore items
    → lookup id items ≡ some item
    → id ≡ item.id
id_of_lookup id items v found =
    All-at_key (λ e. e.0 ≡ e.1.id) id items items (Stored-self items v.distinct) v.own_id
      (contains_of_lookup id items found) found

pub persisted-items :
    {A : Type 0} (write : Option Text) (s : Store) (a : A) → (persisted write s a).0.items ≡ s.items
unfolding persisted
persisted-items none s a = refl
persisted-items (some e) s a = refl

tail-IsStore :
    {id : Text} {item : Item} {items : Assoc Item} → IsStore ((id, item) ∷ items) → IsStore items
tail-IsStore v = record { distinct = v.distinct.1; own_id = v.own_id.1 }

-- The live item that is found is stored, under its id, and has the fingerprint.
pub find_live_stored :
    (fingerprint : Text) (items : Assoc Item) {item : Item}
    → IsStore items
    → find_live fingerprint items ≡ some item
    → (lookup item.id items ≡ some item) × (is_duplicate fingerprint item ≡ true)
unfolding find_live lookup
find_live_stored fingerprint [] v h = cc
find_live_stored fingerprint ((id, existing) ∷ items) {item} v h =
    elim (Bool-cases (is_duplicate fingerprint existing)) [
      | inl same ↦ ground (arith, v.own_id.0, text_eq_refl id)
      | inr other ↦
          let (found, duplicate) =
            find_live_stored fingerprint items {item = item} (tail-IsStore v) (rw (other) at h) in
          (
            ground (
              arith,
              found,
              v.distinct.0,
              contains_of_lookup item.id items found,
              text_eq_iff id item.id,
            ),
            duplicate,
          )
    ]

enqueue_at-IsStore :
    (found : Option Item) (item : Item) (last_err : Option Text) (now : ℕ) (write : Option Text)
    (s : Store)
    → IsStore s.items
    → IsStore (enqueue_at found item last_err now write s).0.items
unfolding enqueue_at
enqueue_at-IsStore none item last_err now write s v =
    rw (persisted-items write (put_item item s) item) (insert-IsStore item.id item s.items v refl)
enqueue_at-IsStore (some existing) item last_err now write s v =
    rw (persisted-items write _ _) (insert-IsStore existing.id _ s.items v refl)

pub enqueue-IsStore :
    (sha256_hex : Text → Text) (recipient : Text) (raw : List ℕ) (last_err : Option Text) (now : ℕ)
    (new_id : Text) (write : Option Text) (s : Store)
    → IsStore s.items
    → IsStore (enqueue sha256_hex recipient raw last_err now new_id write s).0.items
unfolding enqueue
enqueue-IsStore sha256_hex recipient raw last_err now new_id write s v =
    enqueue_at-IsStore _ _ last_err now write s v

start_all-IsStore :
    (now : ℕ) (entries items : Assoc Item)
    → IsStore items
    → All (λ e. e.0 ≡ e.1.id) entries
    → IsStore (start_all now entries items)
unfolding start_all
start_all-IsStore now [] items v h = v
start_all-IsStore now ((id, item) ∷ entries) items v h =
    start_all-IsStore now entries (insert id (started now item) items)
      (insert-IsStore id (started now item) items v h.0) h.1

own_id_of_Stored :
    (items entries : Assoc Item)
    → IsStore items
    → Stored items entries
    → All (λ e. e.0 ≡ e.1.id) entries
own_id_of_Stored items [] v s = tt
own_id_of_Stored items ((id, item) ∷ entries) v s =
    (id_of_lookup id items v s.0, own_id_of_Stored items entries v s.1)

pick_entries-IsStore :
    (now : ℕ) (entries : Assoc Item) (write : Option Text) (s : Store)
    → IsStore s.items
    → Stored s.items entries
    → IsStore (pick_entries now entries write s).0.items
unfolding pick_entries
pick_entries-IsStore now [] write s v h = v
pick_entries-IsStore now (e ∷ entries) write s v h =
    rw (persisted-items write _ _)
      (start_all-IsStore now (e ∷ entries) s.items v (own_id_of_Stored s.items (e ∷ entries) v h))

mark-IsStore :
    (id : Text) (change : Item → Item) (write : Option Text) (s : Store)
    → ((item : Item) → (change item).id ≡ item.id)
    → IsStore s.items
    → IsStore (mark id change (lookup id s.items) write s).0.items
unfolding mark
mark-IsStore id change write s keeps v = elim (Option-cases (lookup id s.items)) [
  | inl e ↦ rw e v
  | inr (item, e) ↦ rw e (
      rw (persisted-items write _ tt) (
        insert-IsStore id (change item) s.items v (id_of_lookup id s.items v e ∙ sym (keeps item))))
]

load_items-IsStore :
    (sha256_hex : Text → Text) (saved : List Item) (items : Assoc Item)
    → IsStore items
    → IsStore (load_items sha256_hex items saved)
unfolding load_items
load_items-IsStore sha256_hex [] items v = v
load_items-IsStore sha256_hex (item ∷ saved) items v =
    load_items-IsStore sha256_hex saved (insert item.id (recovered sha256_hex item) items)
      (insert-IsStore item.id (recovered sha256_hex item) items v refl)

nothing-IsStore : IsStore []
nothing-IsStore = record { distinct = tt; own_id = tt }

pub new_file_store-IsStore :
    (sha256_hex : Text → Text) (file : StoreFile) {s : Store}
    → new_file_store sha256_hex file ≡ ok s
    → IsStore s.items
unfolding new_file_store
new_file_store-IsStore sha256_hex missing h = rw (← ok-injective h) nothing-IsStore
new_file_store-IsStore sha256_hex empty h = rw (← ok-injective h) nothing-IsStore
new_file_store-IsStore sha256_hex (unreadable e) h = cc
new_file_store-IsStore sha256_hex (malformed e) h = cc
new_file_store-IsStore sha256_hex (contents saved) h =
    rw (← ok-injective h) (load_items-IsStore sha256_hex saved [] nothing-IsStore)

-- A call of the store that writes, with the clock reading, the id and the write that it meets.
pub data Call : Type 0 where
  enqueues : Text → List ℕ → Option Text → ℕ → Text → Option Text → Call
  picks : ℕ → ℕ → Option Text → Call
  finishes : Text → ℕ → Option Text → Call
  retries : Text → ℕ → Option Text → ℕ → ℕ → Option Text → Call

pub run_call : (Text → Text) → Store → Call → Store
run_call sha256_hex s (enqueues recipient raw last_err now new_id write) =
    (enqueue sha256_hex recipient raw last_err now new_id write s).0
run_call sha256_hex s (picks limit now write) = (pick_due limit now write s).0
run_call sha256_hex s (finishes id now write) = (mark_done id now write s).0
run_call sha256_hex s (retries id next last_err max_retries now write) =
    (mark_retry id next last_err max_retries now write s).0

pub run_calls : (Text → Text) → Store → List Call → Store
run_calls sha256_hex s [] = s
run_calls sha256_hex s (c ∷ cs) = run_calls sha256_hex (run_call sha256_hex s c) cs

retried_id :
    (next : ℕ) (last_err : Option Text) (max_retries now : ℕ) (item : Item)
    → (retried next last_err max_retries now item).id ≡ item.id
retried_id next last_err max_retries now item = ground arith

pub pick_due-IsStore :
    (limit now : ℕ) (write : Option Text) (s : Store)
    → IsStore s.items
    → IsStore (pick_due limit now write s).0.items
unfolding pick_due
pick_due-IsStore limit now write s v =
    pick_entries-IsStore now _ write s v (due_entries-IsPick limit now s.items v.distinct).stored

pub mark_done-IsStore :
    (id : Text) (now : ℕ) (write : Option Text) (s : Store)
    → IsStore s.items
    → IsStore (mark_done id now write s).0.items
unfolding mark_done
mark_done-IsStore id now write s v = mark-IsStore id (finished now) write s (λ item. refl) v

pub mark_retry-IsStore :
    (id : Text) (next : ℕ) (last_err : Option Text) (max_retries now : ℕ) (write : Option Text)
    (s : Store)
    → IsStore s.items
    → IsStore (mark_retry id next last_err max_retries now write s).0.items
unfolding mark_retry
mark_retry-IsStore id next last_err max_retries now write s v =
    mark-IsStore id (retried next last_err max_retries now) write s
      (retried_id next last_err max_retries now) v

run_call-IsStore :
    (sha256_hex : Text → Text) (s : Store) (c : Call)
    → IsStore s.items
    → IsStore (run_call sha256_hex s c).items
unfolding run_call
run_call-IsStore sha256_hex s (enqueues recipient raw last_err now new_id write) v =
    enqueue-IsStore sha256_hex recipient raw last_err now new_id write s v
run_call-IsStore sha256_hex s (picks limit now write) v = pick_due-IsStore limit now write s v
run_call-IsStore sha256_hex s (finishes id now write) v = mark_done-IsStore id now write s v
run_call-IsStore sha256_hex s (retries id next last_err max_retries now write) v =
    mark_retry-IsStore id next last_err max_retries now write s v

run_from-IsStore :
    (sha256_hex : Text → Text) (s : Store) (cs : List Call)
    → IsStore s.items
    → IsStore (run_calls sha256_hex s cs).items
unfolding run_calls
run_from-IsStore sha256_hex s [] v = v
run_from-IsStore sha256_hex s (c ∷ cs) v =
    run_from-IsStore sha256_hex (run_call sha256_hex s c) cs (run_call-IsStore sha256_hex s c v)

-- In a store that a file was loaded into, after any calls, whatever disk writes fail among them,
-- every item stands under its own id and no id stands twice.
pub run_calls-IsStore :
    (sha256_hex : Text → Text) (file : StoreFile) (cs : List Call) {s : Store}
    → new_file_store sha256_hex file ≡ ok s
    → IsStore (run_calls sha256_hex s cs).items
run_calls-IsStore sha256_hex file cs {s} h =
    run_from-IsStore sha256_hex s cs (new_file_store-IsStore sha256_hex file h)
