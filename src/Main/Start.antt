-- ===== src/Main/Start.antt =====
-- cmd/smtp-to-max-relay/main.go: what holds when the program has started.
use smtp_to_max_relay.Prelude.{
  ℕ, ◌<◌, Bool, true, false, Option, none, some, ◌≡◌, sym, subst, ap, ◌∙◌, arith,
}
use smtp_to_max_relay.Prelude.Result.{Result, ok, err, bind-eq-ok, ok-injective}
use smtp_to_max_relay.Prelude.Text.{Text}
use smtp_to_max_relay.Config.{load}
use smtp_to_max_relay.Config.Checks.{IsValid, load-IsValid}
use smtp_to_max_relay.Recipient.Address.{new_parser}
use smtp_to_max_relay.Recipient.Aliases.Table.{IsTable}
use smtp_to_max_relay.Recipient.AliasFile.{AliasFile, load_aliases}
use smtp_to_max_relay.Recipient.AliasFile.Loading.{load_aliases-IsTable}
use smtp_to_max_relay.Dlq.Item.{Store}
use smtp_to_max_relay.Dlq.Store.{StoreFile, new_file_store}
use smtp_to_max_relay.Dlq.Store.Invariant.{IsStore, new_file_store-IsStore}
use smtp_to_max_relay.Smtp.Listen.{new_listener}
use smtp_to_max_relay.Main.{
  Program, StartError, config_error, aliases_error, dlq_error, or_fatal, sender_made, open_store,
  program_of, start,
}

-- The parts are fit for each other: the configuration is valid, the alias table well formed and the one of
-- the file, the store, if there is one, well formed, and one session at least can run.
pub record IsProgram (alias_file : AliasFile) (p : Program) : Type 0 where
  pub valid : IsValid p.cfg
  pub table : IsTable p.recipients.aliases
  pub saved : load_aliases alias_file ≡ ok p.recipients.aliases
  pub store_is : (s : Store) → p.store ≡ some s → IsStore s.items
  pub with_queue : (p.cfg.dlq_enabled ≡ false) → p.store ≡ none
  pub queued : (p.cfg.dlq_enabled ≡ true) → (s : Store) × (p.store ≡ some s)
  pub slots : 0 < p.listener.max_sessions

or_fatal-ok {ℓ} :
    {E : Type 0} {A : Type ℓ} (f : E → StartError) (r : Result E A) {a : A}
    → or_fatal f r ≡ ok a
    → r ≡ ok a
or_fatal-ok f (ok b) {a} h = let same : b ≡ a = ok-injective h in ap (λ x. ok x) same
or_fatal-ok f (err e) h = cc

opened :
    (sha256_hex : Text → Text) (enabled : Bool) (file : StoreFile) {store : Option Store}
    → open_store sha256_hex enabled file ≡ ok store
    → ((s : Store) → store ≡ some s → IsStore s.items)
      × (enabled ≡ false → store ≡ none)
      × (enabled ≡ true → (s : Store) × (store ≡ some s))
unfolding open_store
opened sha256_hex false file {store} h =
    let same : none ≡ store = ok-injective h in
    (λ s x. absurd (ground (arith, x, same)), λ x. sym same, λ x. cc)
opened sha256_hex true file {store} h =
    let (made, e, same) = bind-eq-ok (or_fatal dlq_error (new_file_store sha256_hex file)) _ h in
    (
      λ s x. new_file_store-IsStore sha256_hex file {s = s} (
          or_fatal-ok dlq_error (new_file_store sha256_hex file) {a = made} e
          ∙ ap (λ y. ok y) (one_store made s (ok-injective same ∙ x))),
      λ x. absurd (ground (arith, x)),
      λ x. (made, sym (ok-injective same)),
    )
  where
    one_store : (a b : Store) → ◌≡◌ {A = Option Store} (some a) (some b) → a ≡ b
    one_store a b e = cc

-- When the program starts, whatever the environment and the files are: the configuration is valid; the alias
-- table is well formed and is that of the alias file; the dead-letter store, which there is just when
-- the queue is enabled, is well formed; and the listener has a slot for one session at least.
pub start-IsProgram :
    (sha256_hex env : Text → Text) (alias_file : AliasFile) (refused : Option Text)
    (bot : Option (ℕ × Text)) (store_file : StoreFile) {p : Program}
    → start sha256_hex env alias_file refused bot store_file ≡ ok p
    → IsProgram alias_file p
unfolding start program_of new_parser new_listener
start-IsProgram sha256_hex env alias_file refused bot store_file {p} h =
    let (cfg, loaded, h1) = bind-eq-ok (or_fatal config_error (load env)) _ h in
    let (aliases, read, h2) = bind-eq-ok (or_fatal aliases_error (load_aliases alias_file)) _ h1 in
    let (made, _, h3) = bind-eq-ok (sender_made cfg refused) _ h2 in
    let (store, found, h4) = bind-eq-ok (open_store sha256_hex cfg.dlq_enabled store_file) _ h3 in
    let valid =
      load-IsValid env {cfg = cfg} (or_fatal-ok config_error (load env) {a = cfg} loaded) in
    let file = or_fatal-ok aliases_error (load_aliases alias_file) {a = aliases} read in
    let queue = opened sha256_hex cfg.dlq_enabled store_file {store = store} found in
    subst (λ x. IsProgram alias_file x) (ok-injective h4)
      (record {
        valid = valid;
        table = load_aliases-IsTable alias_file {loaded = aliases} file;
        saved = file;
        store_is = queue.0;
        with_queue = queue.1;
        queued = queue.2;
        slots = valid.sessions.0;
      })
