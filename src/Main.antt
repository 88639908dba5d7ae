-- ===== src/Main.antt =====
-- cmd/smtp-to-max-relay/main.go: how the parts are made of the configuration. What is read from outside is given:
-- the environment, the alias file, the queue's file, whether the MAX client is made, and what it says
-- of the bot. What runs at a time from then on is in the modules of the parts.
pub mod Start
pub mod DryRun
use smtp_to_max_relay.Prelude.{
  ℕ, Bool, true, false, List, [], ◌∷◌, Option, none, some, if◌then◌else◌, length,
}
use smtp_to_max_relay.Prelude.Result.{Result, ok, err, ◌>>=◌}
use smtp_to_max_relay.Prelude.Text.{Text, codes, text_eq}
use smtp_to_max_relay.Config.{Config, ConfigError, load}
use smtp_to_max_relay.Recipient.Address.{Parser, ParsedRecipient, ParseError, new_parser, parse}
use smtp_to_max_relay.Recipient.AliasFile.{AliasFile, AliasError, load_aliases}
use smtp_to_max_relay.Email.{ParsedEmail}
use smtp_to_max_relay.Dlq.Item.{Store, StoreError}
use smtp_to_max_relay.Dlq.Store.{StoreFile, new_file_store}
use smtp_to_max_relay.Dlq.Backoff.{Delays}
use smtp_to_max_relay.Dlq.Worker.{Worker}
use smtp_to_max_relay.Dlq.Admin.{Admin}
use smtp_to_max_relay.Relay.Service.{Service, RelayError, parse_recipient, parse_email}
use smtp_to_max_relay.Smtp.Session.{Server}
use smtp_to_max_relay.Smtp.Listen.{Listener, new_listener}
use smtp_to_max_relay.Max.LimitedSender.{RateLimiterConfig, Limiter, new_rate_limited_sender}
use smtp_to_max_relay.Max.Commands.{World, Setup}

unfoldable pub limiter_config_of : Config → RateLimiterConfig
limiter_config_of cfg = record {
  rps = cfg.max_send_rps;
  burst = cfg.max_burst;
  queue_capacity = cfg.max_queue_capacity;
  queue_wait = cfg.max_queue_wait;
}

-- The relay for the sessions; the worker and the administrator relay with the bypass.
unfoldable pub relay_service_of : Config → Parser → Bool → Service
relay_service_of cfg recipients bypass = record {
  recipients = recipients;
  max_send_retries = cfg.relay_max_retries;
  bypass_dlq = bypass;
}

-- The jitter is left at the zero value.
unfoldable pub worker_of : Config → Worker
worker_of cfg = record {
  delays = record {
    base_delay = cfg.dlq_base_delay;
    max_delay = cfg.dlq_max_delay;
    random_jitter = 0;
  };
  max_retries = cfg.dlq_max_retries;
  batch_size = 10;
}

unfoldable pub dlq_admin_of : Config → Option Admin
dlq_admin_of cfg =
    if cfg.dlq_enabled
    then some (record {
      max_retries = cfg.dlq_max_retries;
      base_delay = cfg.dlq_base_delay;
      max_delay = cfg.dlq_max_delay;
    })
    else none

-- The id and the name of the bot, if the client tells them.
unfoldable pub bot_setup_of : Config → Option (ℕ × Text) → Setup
unfolding dlq_admin_of
bot_setup_of cfg bot = record {
  bot_user_id = elim bot [ none ↦ 0 | some (id, username) ↦ id ];
  bot_username = elim bot [ none ↦ [] | some (id, username) ↦ username ];
  allowed_domain = cfg.smtp_allowed_domain;
  admin_chat_id = cfg.admin_chat_id;
  alias_admin = true;
  stats_reporter = true;
  dlq_admin = dlq_admin_of cfg;
}

pub data StartError : Type 0 where
  config_error : ConfigError → StartError
  aliases_error : AliasError → StartError
  sender_error : Text → StartError
  dlq_error : StoreError → StartError

-- `bot` is there with the sender that calls the client.
pub record Program : Type 0 where
  pub cfg : Config
  pub recipients : Parser
  pub limiter : Option Limiter
  pub bot : Option Setup
  pub store : Option Store
  pub server : Server
  pub listener : Listener

abbrev pub or_fatal {ℓ} :
    {E : Type 0} {A : Type ℓ} → (E → StartError) → Result E A → Result StartError A
or_fatal f (ok a) = ok a
or_fatal f (err e) = err (f e)

abbrev pub is_botapi : Config → Bool
is_botapi cfg = text_eq cfg.max_sender_mode (codes "botapi")

-- maxbot.New fails with this error, or makes a client.
abbrev pub sender_made : Config → Option Text → Result StartError (Unit {0})
sender_made cfg none = ok tt
sender_made cfg (some e) = if is_botapi cfg then err (sender_error e) else ok tt

-- With the queue switched on, or off.
unfoldable pub open_store : (Text → Text) → Bool → StoreFile → Result StartError (Option Store)
open_store sha256_hex true file = do
  store ← or_fatal dlq_error (new_file_store sha256_hex file)
  ok (some store)
open_store sha256_hex false file = ok none

unfoldable pub program_of :
    Config → List (Text × List Text) → Option (ℕ × Text) → Option Store → Program
program_of cfg aliases bot store = record {
  cfg = cfg;
  recipients = new_parser cfg.smtp_allowed_domain aliases;
  limiter = new_rate_limited_sender (limiter_config_of cfg);
  bot = if is_botapi cfg then some (bot_setup_of cfg bot) else none;
  store = store;
  server = record { domain = cfg.smtp_allowed_domain; max_bytes = cfg.smtp_max_message_bytes };
  listener = new_listener cfg.smtp_max_sessions;
}

-- main, up to the listener
unfoldable pub start :
    (Text → Text)
    → (Text → Text)
    → AliasFile
    → Option Text
    → Option (ℕ × Text)
    → StoreFile
    → Result StartError Program
unfolding program_of
start sha256_hex env alias_file refused bot store_file = or_fatal config_error (load env) >>= λ cfg.
    or_fatal aliases_error (load_aliases alias_file) >>= λ aliases.
    sender_made cfg refused >>= λ made.
    open_store sha256_hex cfg.dlq_enabled store_file >>= λ store.
    ok (program_of cfg aliases bot store)

-- The errors of the two parsers, as DryRun returns them.
pub data DryRunError : Type 0 where
  bad_recipient : ParseError → DryRunError
  bad_email : Text → DryRunError

unfoldable pub dry_email :
    ParsedRecipient → Result Text ParsedEmail → Result DryRunError (ParsedRecipient × ℕ)
dry_email pr (err e) = err (bad_email e)
dry_email pr (ok em) = ok (pr, length em.attachments)

-- The function DryRun; its text has the route and the number of the attachments.
unfoldable pub dry_recipient :
    (List ℕ → Result Text ParsedEmail)
    → List ℕ
    → Result ParseError ParsedRecipient
    → Result DryRunError (ParsedRecipient × ℕ)
unfolding dry_email
dry_recipient email_parse raw (err e) = err (bad_recipient e)
dry_recipient email_parse raw (ok pr) = dry_email pr (email_parse raw)

unfoldable pub dry_run :
    (List ℕ → Result Text ParsedEmail)
    → Parser
    → Text
    → List ℕ
    → Result DryRunError (ParsedRecipient × ℕ)
unfolding dry_recipient
dry_run email_parse recipients rcpt raw = dry_recipient email_parse raw (parse recipients rcpt)
