-- ===== src/Max/AdminConfirm/Tokens.antt =====
-- internal/max/admin_confirm.go: a token confirms once, for its chat, and in time.
use smtp_to_max_relay.Prelude.{
  ℕ, ◌+◌, ◌≤◌, true, false, ◌∷◌, ◌++◌, Option, none, some, ◌≡◌, refl, arith, if◌then◌else◌, ltb,
  ◌==◌, sym, ap, ◌∙◌, not, all, Bool-cases, inl, inr,
}
use smtp_to_max_relay.Prelude.Text.{Text, text_eq, trim_space, cut}
use smtp_to_max_relay.Prelude.Text.Laws.{text_eq_refl, text_eq_iff, cut_append}
use smtp_to_max_relay.Prelude.Assoc.{Assoc, lookup, lookup-insert, lookup-delete}
use smtp_to_max_relay.Max.AdminConfirm.{
  ConfirmAction, confirm_key, register_confirm, consume_confirm, unexpired, ttl_or_default,
  purge_expired_locked,
}

-- A chat id in decimal holds no colon.
abbrev pub IsChat : Text → Type 0
IsChat chat_id = all (λ c. not (c == b':')) chat_id ≡ true

-- Two keys are equal only for the same chat and the same token, but for its outer spaces.
confirm_key-injective :
    (a b s t : Text)
    → IsChat a
    → IsChat b
    → confirm_key a s ≡ confirm_key b t
    → (a ≡ b) × (trim_space s ≡ trim_space t)
unfolding confirm_key
confirm_key-injective a b s t ha hb e =
    let ca = cut_append b':' a (trim_space s) ha in
    let cb = cut_append b':' b (trim_space t) hb in
    let same : cut b':' (a ++ b':' ∷ trim_space s) ≡ cut b':' (b ++ b':' ∷ trim_space t) =
      ap (cut b':') e in
    let both : ◌≡◌ {A = Option (Text × Text)} (some (a, trim_space s)) (some (b, trim_space t)) =
      sym ca ∙ same ∙ cb in
    (cc, cc)

module _ {A : Type 0} where
  -- A token is good once: whatever its first use gave, at whatever time, the second gives nothing.
  pub consume_confirm_twice :
      (chat_id token : Text) (now later : ℕ) (pending : Assoc (ConfirmAction A))
      → (consume_confirm chat_id token later (consume_confirm chat_id token now pending).0).1 ≡ none
  unfolding consume_confirm unexpired
  consume_confirm_twice chat_id token now later pending =
      let key = confirm_key chat_id token in
      rw (lookup-delete key key pending, text_eq_refl key) refl

  -- A registered action is what its token gives in its chat until the time to live has passed, and
  -- nothing behind it.
  pub consume_confirm-register_confirm :
      (chat_id token : Text) (ttl : ℕ) (execute : A) (now later : ℕ)
      (pending : Assoc (ConfirmAction A))
      → (consume_confirm chat_id token later
          (register_confirm chat_id ttl execute token now pending)).1
        ≡ (if ltb (now + ttl_or_default ttl) later then none else some execute)
  unfolding consume_confirm register_confirm unexpired
  consume_confirm-register_confirm chat_id token ttl execute now later pending =
      let key = confirm_key chat_id token in
      rw (lookup-insert key key _ (purge_expired_locked now pending), text_eq_refl key) refl

  -- Using a token leaves the actions of the other chats: what they confirm is what it was.
  pub consume_confirm-other_chat :
      (a b s t : Text) (now later : ℕ) (pending : Assoc (ConfirmAction A))
      → IsChat a
      → IsChat b
      → text_eq a b ≡ false
      → (consume_confirm b t later (consume_confirm a s now pending).0).1
        ≡ (consume_confirm b t later pending).1
  unfolding consume_confirm
  consume_confirm-other_chat a b s t now later pending ha hb d =
      elim (Bool-cases (text_eq (confirm_key a s) (confirm_key b t))) [
        | inr e ↦ rw (lookup-delete (confirm_key a s) (confirm_key b t) pending, e) refl
        | inl e ↦
            let same = confirm_key-injective a b s t ha hb ((text_eq_iff _ _).0 e) in
            absurd (ground (arith, d, (text_eq_iff a b).1 same.0))
      ]

  -- A token gives what is pending under its key and is not expired.
  pub consumed :
      (chat token : Text) (now : ℕ) (pending : Assoc (ConfirmAction A)) {action : A}
      → (consume_confirm chat token now pending).1 ≡ some action
      → (c : ConfirmAction A) × (lookup (confirm_key chat token) pending ≡ some c)
        × (c.execute ≡ action)
        × (now ≤ c.expires_at)
  unfolding consume_confirm unexpired
  consumed chat token now pending {action} h =
      found (lookup (confirm_key chat token) pending) refl h
    where
      found :
          (r : Option (ConfirmAction A))
          → lookup (confirm_key chat token) pending ≡ r
          → unexpired now r ≡ some action
          → (c : ConfirmAction A) × (lookup (confirm_key chat token) pending ≡ some c)
            × (c.execute ≡ action)
            × (now ≤ c.expires_at)
      found none e u = cc
      found (some c) e u = elim (Bool-cases (ltb c.expires_at now)) [
        | inl x ↦ absurd (ground (arith, rw x at u))
        | inr x ↦ (c, e, ground (arith, rw x at u), ground arith)
      ]

  -- An action registered for a chat is what its token gives there until the time to live has passed, and
  -- nothing behind it. The token is good once: its second use gives nothing. And its use leaves
  -- what any token gives in another chat. A chat's text is a decimal.
  pub consume_confirm_lem :
      (a b s t : Text) (ttl : ℕ) (execute : A) (now used later : ℕ)
      (pending : Assoc (ConfirmAction A))
      → IsChat a
      → IsChat b
      → text_eq a b ≡ false
      → let registered = register_confirm a ttl execute s now pending in
        let after = consume_confirm a s used registered in
        (after.1 ≡ (if ltb (now + ttl_or_default ttl) used then none else some execute))
        × ((consume_confirm a s later after.0).1 ≡ none)
        × ((consume_confirm b t later after.0).1 ≡ (consume_confirm b t later registered).1)
  consume_confirm_lem a b s t ttl execute now used later pending ha hb d =
      let registered = register_confirm a ttl execute s now pending in
      (
        consume_confirm-register_confirm a s ttl execute now used pending,
        consume_confirm_twice a s used later registered,
        consume_confirm-other_chat a b s t used later registered ha hb d,
      )
