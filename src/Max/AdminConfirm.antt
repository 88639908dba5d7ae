-- ===== src/Max/AdminConfirm.antt =====
-- internal/max/admin_confirm.go: the pending confirmations. An action is the value of what it would do; the
-- clock, the random token and the decimal text of the chat are given. A `ttl` that is negative is 0.
pub mod Tokens
use smtp_to_max_relay.Prelude.{
  ℕ, ◌+◌, ◌*◌, Bool, not, List, [], ◌∷◌, ◌++◌, Option, none, some, if◌then◌else◌, ltb, ◌==◌, filter,
}
use smtp_to_max_relay.Prelude.Text.{Text, trim_space}
use smtp_to_max_relay.Prelude.Assoc.{Assoc, lookup, insert, delete}

pub record ConfirmAction (A : Type 0) : Type 0 where
  pub expires_at : ℕ
  pub execute : A

unfoldable pub confirm_key : Text → Text → Text
confirm_key chat_id token = chat_id ++ b':' ∷ trim_space token

abbrev pub ttl_or_default : ℕ → ℕ
ttl_or_default ttl = if ttl == 0 then 5 * 60 * 1000000000 else ttl

module _ {A : Type 0} where
  -- now.After(action.expiresAt)
  abbrev pub is_expired : ℕ → ConfirmAction A → Bool
  is_expired now action = ltb action.expires_at now

  unfoldable pub purge_expired_locked : ℕ → Assoc (ConfirmAction A) → Assoc (ConfirmAction A)
  purge_expired_locked now pending = filter (λ e. not (is_expired now e.1)) pending

  unfoldable pub register_confirm :
      Text → ℕ → A → Text → ℕ → Assoc (ConfirmAction A) → Assoc (ConfirmAction A)
  unfolding confirm_key purge_expired_locked
  register_confirm chat_id ttl execute token now pending =
      insert (confirm_key chat_id token)
        (record { expires_at = now + ttl_or_default ttl; execute = execute })
        (purge_expired_locked now pending)

  unexpired : ℕ → Option (ConfirmAction A) → Option A
  unexpired now none = none
  unexpired now (some action) = if is_expired now action then none else some action.execute

  unfoldable pub consume_confirm :
      Text → Text → ℕ → Assoc (ConfirmAction A) → Assoc (ConfirmAction A) × Option A
  unfolding confirm_key unexpired
  consume_confirm chat_id token now pending =
      let key = confirm_key chat_id token in
      (delete key pending, unexpired now (lookup key pending))
