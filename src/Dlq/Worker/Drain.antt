-- ===== src/Dlq/Worker/Drain.antt =====
-- internal/dlq/worker.go: the attempts of an item, tick by tick.
use smtp_to_max_relay.Prelude.{
  ℕ, suc, ◌+◌, ◌^◌, ◌≤◌, ◌<◌, true, List, [], ◌∷◌, Option, none, some, ◌≡◌, refl, ◌⊎◌, inl, inr,
  arith, Bool-cases,
}
use smtp_to_max_relay.Prelude.Result.{Result, ok, err}
use smtp_to_max_relay.Prelude.Text.{Text, contains}
use smtp_to_max_relay.Prelude.Assoc.{lookup, keys}
use smtp_to_max_relay.Prelude.Assoc.Entries.{All-at_key}
use smtp_to_max_relay.Dlq.Item.{Item, Store, StoreError, pending, done, failed}
use smtp_to_max_relay.Dlq.Store.{due_entries, started, pick_due, is_exhausted, is_due}
use smtp_to_max_relay.Dlq.Store.Invariant.{
  IsStore, pick_due-IsStore, mark_done-IsStore, mark_retry-IsStore,
}
use smtp_to_max_relay.Dlq.Store.Due.{due_entries-IsPick}
use smtp_to_max_relay.Dlq.Backoff.{max_or_default, jitter_or_default}
use smtp_to_max_relay.Dlq.Backoff.Bounds.{worker_next_delay_lem}
use smtp_to_max_relay.Dlq.Worker.{
  Worker, Metrics, Attempt, run_once, replay_items, replay_item, replayed_item, next_attempt_at,
  after_pick, update_backlog_metrics,
}
use smtp_to_max_relay.Dlq.Worker.Rounds.{settled}

abbrev pub IsSettled : Item → Type 0
IsSettled item = (item.status ≡ done) ⊎ (item.status ≡ failed)

-- The longest time from an attempt to the next one.
abbrev pub longest_wait : Worker → ℕ
longest_wait w = max_or_default w.delays.max_delay + jitter_or_default w.delays.random_jitter

replay_items-IsStore :
    (w : Worker) (env : Text → Attempt) (items : List Item) (s : Store) (m : Metrics)
    → IsStore s.items
    → IsStore (replay_items w env items (s, m)).0.items
unfolding replay_items replay_item replayed_item
replay_items-IsStore w env [] s m v = v
replay_items-IsStore w env (item ∷ items) s m v =
    replay_items-IsStore w env items _ _ (tried (env item.id).outcome)
  where
    tried : (o : Option Text) → IsStore (replayed_item w (env item.id) o item s).items
    tried none = mark_done-IsStore item.id (env item.id).now (env item.id).write s v
    tried (some e) =
        let a = env item.id in
        mark_retry-IsStore item.id (next_attempt_at w a item) (some e) w.max_retries a.now a.write s
          v

after_pick-IsStore :
    (w : Worker) (env : Text → Attempt) (m : Metrics) (p : Store × Result StoreError (List Item))
    → IsStore p.0.items
    → IsStore (after_pick w env m p).0.items
unfolding after_pick
after_pick-IsStore w env m (s, ok items) v = replay_items-IsStore w env items s m v
after_pick-IsStore w env m (s, err e) v = v

pub run_once-IsStore :
    (w : Worker) (env : Text → Attempt) (now later : ℕ) (write : Option Text) (s : Store)
    (m : Metrics)
    → IsStore s.items
    → IsStore (run_once w env now later write (s, m)).0.items
unfolding run_once update_backlog_metrics
run_once-IsStore w env now later write s m v =
    after_pick-IsStore w env m (pick_due w.batch_size now write s)
      (pick_due-IsStore w.batch_size now write s v)

-- An attempt that is not the last leaves the item pending for no more than the longest wait.
abbrev pub IsTried : Worker → Item → ℕ → Item → Type 0
IsTried w item now next =
    IsSettled next
    ⊎ ((next.status ≡ pending)
        × (next.attempt ≡ item.attempt + 1)
        × (next.attempt < w.max_retries)
        × (next.next_retry_at ≤ now + longest_wait w))

pub settled-IsTried :
    (w : Worker) (a : Attempt) (outcome : Option Text) (now : ℕ) (item : Item)
    → 0 < w.max_retries
    → longest_wait w ≤ 2 ^ 63
    → IsTried w item a.now (settled w a outcome (started now item))
unfolding next_attempt_at
settled-IsTried w a none now item pos fits = inl (inl refl)
settled-IsTried w a (some e) now item pos fits =
    elim (Bool-cases (is_exhausted w.max_retries (item.attempt + 1))) [
      | inl x ↦ rw x (inl (inr refl))
      | inr x ↦
          let ((r, small, is), _, short, _) =
            worker_next_delay_lem w.delays (item.attempt + 1) a.draw fits in
          rw x (inr (refl, refl, ground (arith, x, pos), omega (arith, small, is, short)))
    ]

-- With so many chances to come: settled; or pending, due by `due`, and with chances enough for the attempts
-- left; or pending, with an attempt more than the chances so far.
abbrev pub IsComing : Worker → ℕ → ℕ → ℕ → Item → Type 0
IsComing w due from chances item =
    IsSettled item
    ⊎ ((item.status ≡ pending)
        × (((item.next_retry_at ≤ due) × (0 < chances) × (w.max_retries ≤ item.attempt + chances))
            ⊎ ((item.next_retry_at ≤ from + longest_wait w)
                × (item.attempt < w.max_retries)
                × (w.max_retries < item.attempt + chances))))

module _ (w : Worker) (item next : Item) (due from now clock later : ℕ) (first : from ≤ now)
    (second : now ≤ later) (third : clock ≤ later) where
  pub picked-IsComing :
      (chances : ℕ)
      → item.status ≡ pending
      → IsTried w item clock next
      → IsComing w due from chances item
      → IsComing w due later chances next
  picked-IsComing chances p (inl d) h = inl d
  picked-IsComing chances p (inr (q, one, below, soon)) (inl (inl d)) =
      absurd (ground (arith, p, d))
  picked-IsComing chances p (inr (q, one, below, soon)) (inl (inr d)) =
      absurd (ground (arith, p, d))
  picked-IsComing chances p (inr (q, one, below, soon)) (inr (_, inl (_, some_left, enough))) =
      inr (q, inr (omega (arith, soon, third), below, omega (arith, one, enough)))
  picked-IsComing chances p (inr (q, one, below, soon)) (inr (_, inr (_, _, enough))) =
      inr (q, inr (omega (arith, soon, third), below, omega (arith, one, enough)))

  pub chance-picked-IsComing :
      (chances : ℕ)
      → item.status ≡ pending
      → IsTried w item clock next
      → IsComing w due from (suc chances) item
      → IsComing w (later + longest_wait w) later chances next
  chance-picked-IsComing chances p (inl d) h = inl d
  chance-picked-IsComing chances p (inr (q, one, below, soon)) (inl (inl d)) =
      absurd (ground (arith, p, d))
  chance-picked-IsComing chances p (inr (q, one, below, soon)) (inl (inr d)) =
      absurd (ground (arith, p, d))
  chance-picked-IsComing chances p (inr (q, one, below, soon)) (inr (_, inl (_, _, enough))) = inr (
    q,
    inl (omega (arith, soon, third), omega (arith, one, enough, below), omega (arith, one, enough)),
  )
  chance-picked-IsComing chances p (inr (q, one, below, soon)) (inr (_, inr (_, _, enough))) = inr (
    q,
    inl (omega (arith, soon, third), omega (arith, one, enough, below), omega (arith, one, enough)),
  )

  pub left-IsComing :
      (chances : ℕ) → IsComing w due from chances item → IsComing w due later chances item
  left-IsComing chances (inl d) = inl d
  left-IsComing chances (inr (p, inl h)) = inr (p, inl h)
  left-IsComing chances (inr (p, inr (soon, below, enough))) =
      inr (p, inr (omega (arith, soon, first, second), below, enough))

  pub chance-left-IsComing :
      (chances : ℕ)
      → (item.status ≡ pending → now < item.next_retry_at)
      → due ≤ now
      → IsComing w due from (suc chances) item
      → IsComing w (later + longest_wait w) later chances item
  chance-left-IsComing chances not_due come (inl d) = inl d
  chance-left-IsComing chances not_due come (inr (p, inl (soon, _, _))) =
      absurd (omega (arith, soon, come, not_due p))
  chance-left-IsComing chances not_due come (inr (p, inr (soon, below, enough))) = inr (
    p,
    inl (omega (arith, soon, first, second), omega (arith, below, enough), omega (arith, enough)),
  )

pub picked_is_pending :
    (limit now : ℕ) (k : Text) (s : Store) (item : Item)
    → IsStore s.items
    → lookup k s.items ≡ some item
    → contains k (keys (due_entries limit now s.items)) ≡ true
    → item.status ≡ pending
picked_is_pending limit now k s item v found here =
    let picked = due_entries-IsPick limit now s.items v.distinct in
    let due : is_due now (k, item) ≡ true =
      All-at_key (λ e. is_due now e ≡ true) k s.items (due_entries limit now s.items) picked.stored
        picked.due here found in
    ground (arith, due)
