-- ===== src/Dlq/Worker/Rounds.antt =====
-- What a tick of the worker leaves in the store.
use smtp_to_max_relay.Prelude.{
  ℕ, ◌+◌, Bool, true, List, [], ◌∷◌, map, Option, none, some, ◌≡◌, ◌≢◌, refl, ◌∙◌, arith,
  if◌then◌else◌, length, All,
}
use smtp_to_max_relay.Prelude.Text.{Text, text_eq, contains}
use smtp_to_max_relay.Prelude.Text.Laws.{text_eq_iff, text_eq_refl}
use smtp_to_max_relay.Prelude.Assoc.{Assoc, lookup, keys, values, Distinct}
use smtp_to_max_relay.Prelude.Assoc.Entries.{Stored}
use smtp_to_max_relay.Dlq.Item.{Item, Store, processing}
use smtp_to_max_relay.Dlq.Store.{started, finished, retried}
use smtp_to_max_relay.Dlq.Store.Invariant.{IsStore, id_of_lookup}
use smtp_to_max_relay.Dlq.Store.Due.{change_at}
use smtp_to_max_relay.Dlq.Store.Marking.{mark_done_lem, mark_retry_lem}
use smtp_to_max_relay.Dlq.Worker.{
  Worker, Metrics, Attempt, next_attempt_at, replay_item, replay_items, replayed_item,
  count_outcome,
}

-- What becomes of an item that was tried: done, or counted and put off or given up.
abbrev pub settled : Worker → Attempt → Option Text → Item → Item
settled w a none item = finished a.now item
settled w a (some e) item = retried (next_attempt_at w a item) (some e) w.max_retries a.now item

replayed_item-lookup :
    (w : Worker) (a : Attempt) (outcome : Option Text) (item : Item) (s : Store) (k : Text)
    → lookup item.id s.items ≡ some item
    → lookup k (replayed_item w a outcome item s).items
      ≡ (if text_eq item.id k then some (settled w a outcome item) else lookup k s.items)
unfolding replayed_item
replayed_item-lookup w a none item s k found =
    ((mark_done_lem item.id a.now a.write s).1 item found).0 k
replayed_item-lookup w a (some e) item s k found =
    ((mark_retry_lem item.id (next_attempt_at w a item) (some e) w.max_retries a.now a.write s).0.1
        item found).0
      k

-- Being stored is a matter of the entries' keys.
Stored-agree :
    (m m' entries : Assoc Item)
    → ((k : Text) → contains k (keys entries) ≡ true → lookup k m' ≡ lookup k m)
    → Stored m entries
    → Stored m' entries
unfolding contains
Stored-agree m m' [] h st = tt
Stored-agree m m' ((id, item) ∷ entries) h st = (
  h id (ground (arith, text_eq_refl id)) ∙ st.0,
  Stored-agree m m' entries (λ k here. h k (ground arith)) st.1,
)

abbrev pub settle_at : Worker → (Text → Attempt) → Text → Bool → Option Item → Option Item
settle_at w env k = change_at (λ item. settled w (env k) (env k).outcome item)

abbrev pub OwnIds : Assoc Item → Type 0
OwnIds = All (λ e. e.0 ≡ e.1.id)

pub replay_items-lookup :
    (w : Worker) (env : Text → Attempt) (entries : Assoc Item) (s : Store) (m : Metrics) (k : Text)
    → Distinct (keys entries)
    → Stored s.items entries
    → OwnIds entries
    → lookup k (replay_items w env (values entries) (s, m)).0.items
      ≡ settle_at w env k (contains k (keys entries)) (lookup k s.items)
unfolding replay_items replay_item contains
replay_items-lookup w env [] s m k d st own = ground arith
replay_items-lookup w env ((id, item) ∷ entries) s m k d st own =
    replay_items-lookup w env entries next _ k d.1
      (Stored-agree s.items next.items entries
        (λ j here. ground (arith, changed j, d.0, own.0, here, text_eq_iff item.id j)) st.1)
      own.1
    ∙ ground (arith, changed k, st.0, d.0, own.0, text_eq_iff id k, text_eq_iff item.id k)
  where
    a : Attempt
    a = env item.id

    next : Store
    next = replayed_item w a a.outcome item s

    found : lookup item.id s.items ≡ some item
    found = rw own.0 at st.0

    changed :
        (k : Text)
        → lookup k next.items
          ≡ (if text_eq item.id k then some (settled w a a.outcome item) else lookup k s.items)
    changed k = replayed_item-lookup w a a.outcome item s k found

-- The items that PickDue returns, under their keys.
pub started_entries : ℕ → Assoc Item → Assoc Item
started_entries now [] = []
started_entries now ((id, item) ∷ entries) = (id, started now item) ∷ started_entries now entries

pub started-values :
    (now : ℕ) (entries : Assoc Item)
    → map (started now) (values entries) ≡ values (started_entries now entries)
unfolding started_entries
started-values now [] = refl
started-values now ((id, item) ∷ entries) = rw (started-values now entries)

pub started-keys :
    (now : ℕ) (entries : Assoc Item) → keys (started_entries now entries) ≡ keys entries
unfolding started_entries
started-keys now [] = refl
started-keys now ((id, item) ∷ entries) = rw (started-keys now entries)

pub started-Stored :
    (now : ℕ) (items after entries : Assoc Item)
    → Stored items entries
    → ((k : Text)
        → contains k (keys entries) ≡ true
        → lookup k after ≡ change_at (started now) true (lookup k items))
    → Stored after (started_entries now entries)
unfolding started_entries contains
started-Stored now items after [] st h = tt
started-Stored now items after ((id, item) ∷ entries) st h = (
  h id (ground (arith, text_eq_refl id)) ∙ rw st.0,
  started-Stored now items after entries st.1 (λ k here. h k (ground arith)),
)

pub started-OwnIds :
    (now : ℕ) (items entries : Assoc Item)
    → IsStore items
    → Stored items entries
    → OwnIds (started_entries now entries)
unfolding started_entries
started-OwnIds now items [] v st = tt
started-OwnIds now items ((id, item) ∷ entries) v st =
    (id_of_lookup id items v st.0, started-OwnIds now items entries v st.1)

-- The counters grow by one for each item that was tried.
pub replay_items-count :
    (w : Worker) (env : Text → Attempt) (items : List Item) (s : Store) (m : Metrics)
    → let m' = (replay_items w env items (s, m)).1 in
      m'.replayed + m'.replay_failed ≡ m.replayed + m.replay_failed + length items
unfolding replay_items replay_item
replay_items-count w env [] s m = omega arith
replay_items-count w env (item ∷ items) s m =
    let (s', m') = replay_item w (env item.id) item (s, m) in
    omega (arith, replay_items-count w env items s' m', one (env item.id).outcome)
  where
    one :
        (o : Option Text)
        → (count_outcome o m).replayed + (count_outcome o m).replay_failed
          ≡ m.replayed + m.replay_failed + 1
    one none = omega arith
    one (some e) = omega arith

pub settled_status :
    (w : Worker) (a : Attempt) (outcome : Option Text) (item : Item)
    → (settled w a outcome item).status ≢ processing
settled_status w a none item = λ e. cc
settled_status w a (some e) item = λ h. ground arith
