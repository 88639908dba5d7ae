-- ===== src/Config.antt =====
-- internal/config/config.go: the settings from the environment. An int, an int64 and a duration are
-- the residue mod 2^64 of a two's complement number; `env` gives the empty text for a variable
-- that is not set.
pub mod Checks
use smtp_to_max_relay.Prelude.{
  ℕ, ◌+◌, ◌-◌, ◌*◌, ◌%◌, ◌^◌, Bool, true, false, not, ◌&&◌, ◌||◌, List, [], ◌∷◌, Option, none, some,
  if◌then◌else◌, ltb, leb, ◌==◌, is_empty, all, any,
}
use smtp_to_max_relay.Prelude.Result.{Result, ok, err, ◌>>=◌}
use smtp_to_max_relay.Prelude.Decimal.{word, is_negative, parse_int}
use smtp_to_max_relay.Prelude.Text.{Text, codes, text_eq, contains, is_digit}

abbrev pub is_positive : ℕ → Bool
is_positive n = not (is_negative n) && not (n == 0)

-- time.Duration(n) * unit, with its wrap-around
abbrev pub times : ℕ → ℕ → ℕ
times n unit = word (n * unit)

abbrev pub milliseconds : ℕ → ℕ
milliseconds n = times n 1000000

abbrev pub seconds : ℕ → ℕ
seconds n = times n 1000000000

pub data ConfigError : Type 0 where
  must_be_valid_integer must_be_valid_boolean : Text → ConfigError
  must_not_be_empty must_be_positive must_not_be_negative : Text → ConfigError
  unknown_sender_mode : ConfigError
  bot_token_missing : Text → ConfigError

pub record Config : Type 0 where
  pub smtp_listen_addr : Text
  pub smtp_max_message_bytes : ℕ
  pub smtp_max_sessions : ℕ
  pub smtp_allowed_domain : Text
  pub alias_file_path : Text
  pub admin_chat_id : ℕ
  pub max_sender_mode : Text
  pub max_api_base_url : Text
  pub max_bot_token : Text
  pub max_send_timeout : ℕ
  pub max_send_rps : ℕ
  pub max_burst : ℕ
  pub max_queue_capacity : ℕ
  pub max_queue_wait : ℕ
  pub relay_max_retries : ℕ
  pub relay_retry_delay : ℕ
  pub metrics_listen_addr : Text
  pub dlq_enabled : Bool
  pub dlq_file_path : Text
  pub dlq_worker_interval : ℕ
  pub dlq_max_retries : ℕ
  pub dlq_base_delay : ℕ
  pub dlq_max_delay : ℕ

true_words : List Text
true_words = codes "1" ∷ codes "t" ∷ codes "T" ∷ codes "TRUE" ∷ codes "true" ∷ codes "True" ∷ []

false_words : List Text
false_words = codes "0" ∷ codes "f" ∷ codes "F" ∷ codes "FALSE" ∷ codes "false" ∷ codes "False" ∷ []

-- strconv.ParseBool
unfoldable pub parse_bool : Text → Option Bool
unfolding true_words false_words
parse_bool s =
    if contains s true_words then some true else if contains s false_words then some false else none

module _ (env : Text → Text) where
  unfoldable pub get_env : Text → Text → Text
  get_env key default = if is_empty (env key) then default else env key

  int_or_error : Text → Option ℕ → Result ConfigError ℕ
  int_or_error key none = err (must_be_valid_integer key)
  int_or_error key (some n) = ok n

  -- getEnvInt and getEnvInt64, which agree where an int has 64 bits.
  unfoldable pub get_env_int : Text → ℕ → Result ConfigError ℕ
  unfolding int_or_error
  get_env_int key default =
      if is_empty (env key) then ok default else int_or_error key (parse_int (env key))

  bool_or_error : Text → Option Bool → Result ConfigError Bool
  bool_or_error key none = err (must_be_valid_boolean key)
  bool_or_error key (some b) = ok b

  unfoldable pub get_env_bool : Text → Bool → Result ConfigError Bool
  unfolding bool_or_error
  get_env_bool key default =
      if is_empty (env key) then ok default else bool_or_error key (parse_bool (env key))

-- The numbers of `Load`, in the order in which it reads them.
pub record Numbers : Type 0 where
  pub message_bytes : ℕ
  pub sessions : ℕ
  pub send_timeout_sec : ℕ
  pub send_rps : ℕ
  pub burst : ℕ
  pub queue_capacity : ℕ
  pub queue_wait_ms : ℕ
  pub relay_retries : ℕ
  pub retry_delay_ms : ℕ
  pub admin_chat : ℕ
  pub enabled : Bool
  pub worker_interval_ms : ℕ
  pub dlq_retries : ℕ
  pub base_delay_ms : ℕ
  pub max_delay_ms : ℕ

module _ (env : Text → Text) where
  unfoldable pub read_numbers : Result ConfigError Numbers
  read_numbers =
      get_env_int env (codes "SMTP_MAX_MESSAGE_BYTES") (15 * 1024 * 1024) >>= λ message_bytes.
      get_env_int env (codes "SMTP_MAX_CONCURRENT_SESSIONS") 200 >>= λ sessions.
      get_env_int env (codes "MAX_SEND_TIMEOUT_SEC") 15 >>= λ send_timeout_sec.
      get_env_int env (codes "MAX_SEND_RPS") 20 >>= λ send_rps.
      get_env_int env (codes "MAX_BURST") 40 >>= λ burst.
      get_env_int env (codes "MAX_QUEUE_CAPACITY") 200 >>= λ queue_capacity.
      get_env_int env (codes "MAX_QUEUE_WAIT_MS") 1000 >>= λ queue_wait_ms.
      get_env_int env (codes "RELAY_MAX_RETRIES") 2 >>= λ relay_retries.
      get_env_int env (codes "RELAY_RETRY_DELAY_MS") 300 >>= λ retry_delay_ms.
      get_env_int env (codes "ADMIN_CHAT_ID") 0 >>= λ admin_chat.
      get_env_bool env (codes "DLQ_ENABLED") true >>= λ enabled.
      get_env_int env (codes "DLQ_WORKER_INTERVAL_MS") 2000 >>= λ worker_interval_ms.
      get_env_int env (codes "DLQ_MAX_RETRIES") 10 >>= λ dlq_retries.
      get_env_int env (codes "DLQ_BASE_DELAY_MS") 1000 >>= λ base_delay_ms.
      get_env_int env (codes "DLQ_MAX_DELAY_MS") 300000 >>= λ max_delay_ms. ok (record {
        message_bytes = message_bytes;
        sessions = sessions;
        send_timeout_sec = send_timeout_sec;
        send_rps = send_rps;
        burst = burst;
        queue_capacity = queue_capacity;
        queue_wait_ms = queue_wait_ms;
        relay_retries = relay_retries;
        retry_delay_ms = retry_delay_ms;
        admin_chat = admin_chat;
        enabled = enabled;
        worker_interval_ms = worker_interval_ms;
        dlq_retries = dlq_retries;
        base_delay_ms = base_delay_ms;
        max_delay_ms = max_delay_ms;
      })

  unfoldable pub config_from : Numbers → Config
  config_from n = record {
    smtp_listen_addr = get_env env (codes "SMTP_LISTEN_ADDR") (codes ":25");
    smtp_max_message_bytes = n.message_bytes;
    smtp_max_sessions = n.sessions;
    smtp_allowed_domain = get_env env (codes "SMTP_ALLOWED_RCPT_DOMAIN") (codes "relay.local");
    alias_file_path = get_env env (codes "ALIAS_FILE_PATH") (codes "./config/aliases.json");
    admin_chat_id = n.admin_chat;
    max_sender_mode = get_env env (codes "MAX_SENDER_MODE") (codes "stub");
    max_api_base_url = get_env env (codes "MAX_API_BASE_URL") [];
    max_bot_token = get_env env (codes "MAX_BOT_TOKEN") [];
    max_send_timeout = seconds n.send_timeout_sec;
    max_send_rps = n.send_rps;
    max_burst = n.burst;
    max_queue_capacity = n.queue_capacity;
    max_queue_wait = milliseconds n.queue_wait_ms;
    relay_max_retries = n.relay_retries;
    relay_retry_delay = milliseconds n.retry_delay_ms;
    metrics_listen_addr = get_env env (codes "METRICS_LISTEN_ADDR") (codes ":9090");
    dlq_enabled = n.enabled;
    dlq_file_path = get_env env (codes "DLQ_FILE_PATH") (codes "./data/dlq.json");
    dlq_worker_interval = milliseconds n.worker_interval_ms;
    dlq_max_retries = n.dlq_retries;
    dlq_base_delay = milliseconds n.base_delay_ms;
    dlq_max_delay = milliseconds n.max_delay_ms;
  }

-- The first of the failed checks.
unfoldable pub require : List (Bool × ConfigError) → Config → Result ConfigError Config
require [] cfg = ok cfg
require ((good, e) ∷ checks) cfg = let rest = require checks cfg in if good then rest else err e

abbrev pub at_least_zero : ℕ → Text → Bool × ConfigError
at_least_zero n key = (not (is_negative n), must_not_be_negative key)

abbrev pub is_stub : Config → Bool
is_stub cfg = text_eq cfg.max_sender_mode (codes "stub")

unfoldable pub checks_of : Config → List (Bool × ConfigError)
checks_of cfg =
    (not (is_empty cfg.smtp_allowed_domain), must_not_be_empty (codes "SMTP_ALLOWED_RCPT_DOMAIN"))
    ∷ (is_positive cfg.smtp_max_message_bytes, must_be_positive (codes "SMTP_MAX_MESSAGE_BYTES"))
    ∷ (is_positive cfg.smtp_max_sessions, must_be_positive (codes "SMTP_MAX_CONCURRENT_SESSIONS"))
    ∷ (is_stub cfg || text_eq cfg.max_sender_mode (codes "botapi"), unknown_sender_mode)
    ∷ (is_stub cfg || not (is_empty cfg.max_bot_token), bot_token_missing cfg.max_sender_mode)
    ∷ at_least_zero cfg.relay_max_retries (codes "RELAY_MAX_RETRIES")
    ∷ at_least_zero cfg.relay_retry_delay (codes "RELAY_RETRY_DELAY_MS")
    ∷ at_least_zero cfg.admin_chat_id (codes "ADMIN_CHAT_ID")
    ∷ at_least_zero cfg.max_send_rps (codes "MAX_SEND_RPS")
    ∷ at_least_zero cfg.max_burst (codes "MAX_BURST")
    ∷ at_least_zero cfg.max_queue_capacity (codes "MAX_QUEUE_CAPACITY")
    ∷ at_least_zero cfg.max_queue_wait (codes "MAX_QUEUE_WAIT_MS")
    ∷ at_least_zero cfg.dlq_worker_interval (codes "DLQ_WORKER_INTERVAL_MS")
    ∷ at_least_zero cfg.dlq_max_retries (codes "DLQ_MAX_RETRIES")
    ∷ at_least_zero cfg.dlq_base_delay (codes "DLQ_BASE_DELAY_MS")
    ∷ at_least_zero cfg.dlq_max_delay (codes "DLQ_MAX_DELAY_MS")
    ∷ []

-- Load
unfoldable pub load : (Text → Text) → Result ConfigError Config
unfolding require
load env = read_numbers env >>= λ n. require (checks_of (config_from env n)) (config_from env n)
