-- ===== src/Max/Commands/Resolved.antt =====
-- internal/max/bot_runtime.go, with internal/recipient/parser.go: an alias that is set is good for an address.
use smtp_to_max_relay.Prelude.{
  true, false, List, [], ◌∷◌, ◌++◌, Option, none, some, ◌≡◌, refl, sym, subst, ◌∙◌, inl, inr, arith,
  is_empty, all, Bool-cases, all_mono,
}
use smtp_to_max_relay.Prelude.Result.{Result, ok, err}
use smtp_to_max_relay.Prelude.Text.{
  Text, contains, trim_space, to_lower, is_digit, lower_rune, is_space, join,
}
use smtp_to_max_relay.Prelude.Text.Laws.{text_eq_refl}
use smtp_to_max_relay.Prelude.Assoc.{lookup, lookup-insert}
use smtp_to_max_relay.Recipient.Address.{
  Parser, ParsedRecipient, RecipientTarget, parse, parse_parts, resolve, resolve_targets,
  recipient_with,
}
use smtp_to_max_relay.Recipient.Address.Written.{
  is_local, is_plain, IsDomain, to_lower_keeps, trim_space_keeps,
}
use smtp_to_max_relay.Recipient.Address.RoundTrip.{is_plain_of_is_local, address_parts}
use smtp_to_max_relay.Recipient.Aliases.{
  TargetError, normal_form, set_alias_group, validate_alias_target, normalize_alias_targets,
  normalize_onto, is_no_edit, snapshot_aliases,
}
use smtp_to_max_relay.Recipient.Aliases.Expansion.{validated, resolve_target-valid}
use smtp_to_max_relay.Recipient.AliasFile.{save_aliases}
use smtp_to_max_relay.Max.Targets.{
  TargetRefused, normalize_alias_name, is_name_rune, normalize_alias_target,
}
use smtp_to_max_relay.Max.Commands.{alias_cmd, aliases_saved, World, Env}
use smtp_to_max_relay.Max.Commands.Dispatch.{
  set_alias, set_target, set_valid, save_edit, saved_reply,
}

name-is_local : (name : Text) → all is_name_rune name ≡ true → all is_local name ≡ true
unfolding is_name_rune is_local is_plain lower_rune is_space is_digit
name-is_local name h = all_mono is_name_rune is_local name (λ c e. ground (arith, e)) h

normalize_alias_name-runes : (arg : Text) → all is_name_rune (normalize_alias_name arg) ≡ true
unfolding normalize_alias_name
normalize_alias_name-runes arg = elim (Bool-cases (all is_name_rune (trim_space (to_lower arg)))) [
  | inl e ↦ rw e e
  | inr e ↦ rw e refl
]

name_keeps : (name : Text) → all is_local name ≡ true → normal_form name ≡ name
name_keeps name h =
    let plain = is_plain_of_is_local name h in
    rw (to_lower_keeps name plain) (trim_space_keeps name plain)

one_target :
    (target : Text)
    → is_empty (normal_form target) ≡ false
    → normalize_alias_targets (target ∷ []) ≡ normal_form target ∷ []
unfolding normalize_alias_targets normalize_onto contains
one_target target e = rw e refl

lookup-set_alias_group :
    (p : Parser) (name target : Text)
    → is_empty name ≡ false
    → normal_form name ≡ name
    → is_empty (normal_form target) ≡ false
    → lookup name (set_alias_group p name (target ∷ [])).aliases ≡ some (normal_form target ∷ [])
unfolding set_alias_group
lookup-set_alias_group p name target ne n e =
    rw (n, ne, one_target target e)
      (lookup-insert name name (normal_form target ∷ []) p.aliases ∙ rw (text_eq_refl name) refl)

domain-set_alias_group :
    (p : Parser) (name : Text) (targets : List Text)
    → (set_alias_group p name targets).allowed_domain ≡ p.allowed_domain
unfolding set_alias_group
domain-set_alias_group p name targets = elim (Bool-cases (is_no_edit name targets)) [
  | inl e ↦ rw e refl
  | inr e ↦ rw e refl
]

-- What an address stands for whose local part is an alias of one valid target.
parse-alias :
    (p : Parser) (name target : Text)
    → all is_local name ≡ true
    → IsDomain p.allowed_domain
    → lookup name p.aliases ≡ some (normal_form target ∷ [])
    → validate_alias_target target ≡ none
    → (r : ParsedRecipient) × (t : RecipientTarget) × (parse p (name ++ (b'@' ∷ p.allowed_domain))
        ≡ ok r)
      × (r.targets ≡ t ∷ [])
      × (r.alias_used ≡ true)
unfolding parse parse_parts resolve resolve_targets recipient_with join
parse-alias p name target h d found valid =
    let address : Text = name ++ (b'@' ∷ p.allowed_domain) in
    let (t, resolved, _) = resolve_target-valid address target valid in
    (
      record {
        targets = t ∷ [];
        raw_local = normal_form target;
        raw_addr = address;
        source_local = name;
        alias_used = true;
      },
      t,
      rw (address_parts name p.allowed_domain h d)
          (rw (text_eq_refl p.allowed_domain, found, resolved) refl),
      refl,
      refl,
    )

-- As `parse-alias`, once the alias is set.
abbrev Resolves : Parser → Text → Text → Type 0
Resolves p name domain =
    (r : ParsedRecipient) × (t : RecipientTarget) × (parse p (name ++ (b'@' ∷ domain)) ≡ ok r)
    × (r.targets ≡ t ∷ [])
    × (r.alias_used ≡ true)

set_alias_group-Resolves :
    (p : Parser) (name target : Text)
    → is_empty name ≡ false
    → all is_local name ≡ true
    → IsDomain p.allowed_domain
    → validate_alias_target target ≡ none
    → Resolves (set_alias_group p name (target ∷ [])) name p.allowed_domain
set_alias_group-Resolves p name target e local d valid =
    let q = set_alias_group p name (target ∷ []) in
    let here = domain-set_alias_group p name (target ∷ []) in
    subst (λ domain. Resolves q name domain) here
      (parse-alias q name target local (subst IsDomain (sym here) d)
        (lookup-set_alias_group p name target e (name_keeps name local) (validated target valid).0)
        valid)

-- What /alias has done when it says that the alias is saved.
set_valid-saved :
    (env : Env) (name target : Text) (refusal : Option TargetError) (w : World) {n : Text}
    {ts : List Text}
    → (set_valid env name target refusal w).1 ≡ aliases_saved alias_cmd n ts
    → (refusal ≡ none)
      × (n ≡ name)
      × ((set_valid env name target refusal w).0.parser
          ≡ set_alias_group w.parser name (target ∷ []))
unfolding set_valid save_edit
set_valid-saved env name target none w {n} {ts} h = (
  refl,
  saved (save_aliases env.write (snapshot_aliases (set_alias_group w.parser name (target ∷ [])))).1
      h,
  refl,
)
  where
    saved :
        (failure : Option Text)
        → saved_reply alias_cmd name (target ∷ []) failure ≡ aliases_saved alias_cmd n ts
        → n ≡ name
    saved none e = cc
    saved (some x) e = cc
set_valid-saved env name target (some e) w h = cc

set_target-saved :
    (env : Env) (name : Text) (target : Result TargetRefused Text) (w : World) {n : Text}
    {ts : List Text}
    → (set_target env name target w).1 ≡ aliases_saved alias_cmd n ts
    → (t : Text) × (validate_alias_target t ≡ none)
      × (n ≡ name)
      × ((set_target env name target w).0.parser ≡ set_alias_group w.parser name (t ∷ []))
unfolding set_target
set_target-saved env name (err e) w h = cc
set_target-saved env name (ok t) w {n} {ts} h =
    let (valid, same, set) =
      set_valid-saved env name t (validate_alias_target t) w {n = n} {ts = ts} h in
    (t, valid, same, set)

-- When /alias says that an alias is saved, an address with this name, at the parser's domain, is parsed,
-- and stands for one target, by the alias. The domain is in lower case, without spaces and at signs.
pub set_alias-resolves :
    (env : Env) (arg given : Text) (w : World) {name : Text} {ts : List Text}
    → IsDomain w.parser.allowed_domain
    → (set_alias env (arg ∷ given ∷ []) w).1 ≡ aliases_saved alias_cmd name ts
    → let p = (set_alias env (arg ∷ given ∷ []) w).0.parser in
      (r : ParsedRecipient) × (t : RecipientTarget) × (parse p
          (name ++ (b'@' ∷ w.parser.allowed_domain))
        ≡ ok r)
      × (r.targets ≡ t ∷ [])
      × (r.alias_used ≡ true)
unfolding set_alias
set_alias-resolves env arg given w {name} {ts} d h =
    elim (Bool-cases (is_empty (normalize_alias_name arg))) [
      | inl e ↦ absurd (ground (arith, rw e at h))
      | inr e ↦
          let own = normalize_alias_name arg in
          let local = name-is_local own (normalize_alias_name-runes arg) in
          let (t, valid, same, set) =
            set_target-saved env own (normalize_alias_target given) w {n = name} {ts = ts}
              (rw e at h) in
          rw (e, set, same) (set_alias_group-Resolves w.parser own t e local d valid)
    ]
