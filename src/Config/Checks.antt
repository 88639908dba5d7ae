-- ===== src/Config/Checks.antt =====
-- internal/config/config.go: what a configuration that Load returns satisfies, and an error that it
-- never returns.
use smtp_to_max_relay.Prelude.{
  ℕ, ◌^◌, ◌<◌, Bool, true, false, not, ◌≡◌, refl, ◌≢◌, List, [], ◌∷◌, arith, ◌⊎◌, inl, inr,
  is_empty, Bool-cases, subst, sym,
}
use smtp_to_max_relay.Prelude.Result.{ok, bind-eq-ok}
use smtp_to_max_relay.Prelude.Text.{Text, codes, text_eq}
use smtp_to_max_relay.Prelude.Text.Laws.{text_eq_iff}
use smtp_to_max_relay.Config.{
  Config, Numbers, ConfigError, get_env, read_numbers, config_from, require, checks_of, load,
}

-- A number that is not negative as an int64.
abbrev pub Natural : ℕ → Type 0
Natural n = n < 2 ^ 63

pub record IsValid (cfg : Config) : Type 0 where
  pub domain : cfg.smtp_allowed_domain ≢ []
  pub message_bytes : (0 < cfg.smtp_max_message_bytes) × Natural cfg.smtp_max_message_bytes
  pub sessions : (0 < cfg.smtp_max_sessions) × Natural cfg.smtp_max_sessions
  pub sender :
      (cfg.max_sender_mode ≡ codes "stub")
      ⊎ ((cfg.max_sender_mode ≡ codes "botapi") × (cfg.max_bot_token ≢ []))
  pub relay : Natural cfg.relay_max_retries × Natural cfg.relay_retry_delay
  pub admin : Natural cfg.admin_chat_id
  pub limiter :
      Natural cfg.max_send_rps
      × Natural cfg.max_burst
      × Natural cfg.max_queue_capacity
      × Natural cfg.max_queue_wait
  pub dlq :
      Natural cfg.dlq_worker_interval
      × Natural cfg.dlq_max_retries
      × Natural cfg.dlq_base_delay
      × Natural cfg.dlq_max_delay

-- Every check of the list holds.
Passed : List (Bool × ConfigError) → Type 0
Passed [] = Unit
Passed ((good, e) ∷ checks) = (good ≡ true) × Passed checks

require-Passed :
    (checks : List (Bool × ConfigError)) (cfg : Config) {c : Config}
    → require checks cfg ≡ ok c
    → (c ≡ cfg) × Passed checks
unfolding Passed require
require-Passed [] cfg h = ground arith
require-Passed ((true, e) ∷ checks) cfg h =
    let (same, rest) = require-Passed checks cfg h in (same, (refl, rest))
require-Passed ((false, e) ∷ checks) cfg h = cc

nonempty : (t : Text) → not (is_empty t) ≡ true → t ≢ []
nonempty t h e = ground arith

checks_of-IsValid : (cfg : Config) → Passed (checks_of cfg) → IsValid cfg
unfolding Passed checks_of
checks_of-IsValid cfg
      (
        p1,
        (
          p2,
          (
            p3,
            (p4, (p5, (p6, (p7, (p8, (p9, (p10, (p11, (p12, (p13, (p14, (p15, (p16, _))))))))))))),
          ),
        ),
      ) =
    record {
      domain = nonempty cfg.smtp_allowed_domain p1;
      message_bytes = ground arith;
      sessions = ground arith;
      sender = elim (Bool-cases (text_eq cfg.max_sender_mode (codes "stub"))) [
        | inl e ↦ inl ((text_eq_iff cfg.max_sender_mode (codes "stub")).0 e)
        | inr e ↦ inr (
          (text_eq_iff cfg.max_sender_mode (codes "botapi")).0 (ground arith),
          nonempty cfg.max_bot_token (ground arith),
        )
      ];
      relay = (ground arith, ground arith);
      admin = ground arith;
      limiter = (ground arith, ground arith, ground arith, ground arith);
      dlq = (ground arith, ground arith, ground arith, ground arith);
    }

-- A configuration that `load` returns is valid: the domain is not empty; the message size and the
-- session limit are positive; the sender mode is `stub`, or `botapi` with a token; and the retries,
-- the retry delay, the admin chat, the limits of the sender and the numbers of the dead letter
-- queue are not negative as int64, the durations behind their conversion to nanoseconds.
pub load-IsValid : (env : Text → Text) {cfg : Config} → load env ≡ ok cfg → IsValid cfg
unfolding load
load-IsValid env {cfg} h =
    let (n, _, required) =
      bind-eq-ok (read_numbers env)
        (λ n. require (checks_of (config_from env n)) (config_from env n)) h in
    let (same, passed) =
      require-Passed (checks_of (config_from env n)) (config_from env n) required in
    subst IsValid (sym same) (checks_of-IsValid (config_from env n) passed)

get_env_nonempty :
    (env : Text → Text) (key default : Text)
    → not (is_empty default) ≡ true
    → not (is_empty (get_env env key default)) ≡ true
unfolding get_env
get_env_nonempty env key default h = elim (Bool-cases (is_empty (env key))) [
  | inl e ↦ rw (e, h) refl
  | inr e ↦ rw (e, e) refl
]

-- The domain is never empty, whatever the environment and the numbers are: an empty variable is read
-- as one that is not set, so that the check of the domain cannot fail.
pub config_from-domain :
    (env : Text → Text) (n : Numbers)
    → not (is_empty (config_from env n).smtp_allowed_domain) ≡ true
unfolding config_from
config_from-domain env n =
    get_env_nonempty env (codes "SMTP_ALLOWED_RCPT_DOMAIN") (codes "relay.local") refl
