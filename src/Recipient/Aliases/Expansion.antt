-- ===== src/Recipient/Aliases/Expansion.antt =====
-- internal/recipient/parser.go: Parse of an alias, target by target.
use smtp_to_max_relay.Prelude.{
  Bool, if◌then◌else◌, true, false, List, [], ◌∷◌, ◌++◌, map, none, some, ◌≡◌, refl, sym, subst, ap,
  ◌∙◌, ◌⊎◌, inl, inr, arith, is_empty, all, Bool-cases,
}
use smtp_to_max_relay.Prelude.Result.{Result, ok, err, is_ok}
use smtp_to_max_relay.Prelude.Text.{Text, codes, contains, join}
use smtp_to_max_relay.Prelude.Text.Laws.{text_eq_refl}
use smtp_to_max_relay.Prelude.Assoc.{lookup}
use smtp_to_max_relay.Recipient.Address.{
  Parser, ParseError, ParsedRecipient, RecipientTarget, parse, parse_parts, parse_chat_id_base,
  base_of, target_with, resolve_target, resolve, resolve_targets, recipient_with,
  parse_prefixed_chat_id, parse_signed, parse_digits, has_flag, flags_of,
}
use smtp_to_max_relay.Recipient.Address.Written.{is_local, IsDomain}
use smtp_to_max_relay.Recipient.Address.RoundTrip.{address_parts}
use smtp_to_max_relay.Recipient.Address.Sound.{IsChatId, parse_chat_id_base-IsChatId}
use smtp_to_max_relay.Recipient.Aliases.{target_empty, normal_form, validate_alias_target, checked}
use smtp_to_max_relay.Recipient.Aliases.Normal.{IsNormal, AreNormal}
use smtp_to_max_relay.Recipient.Aliases.Table.{IsTable}

-- The error quotes the address, and the result does not depend on it.
parse_chat_id_base-any :
    (base a b : Text) {id : Text}
    → parse_chat_id_base base a ≡ ok id
    → parse_chat_id_base base b ≡ ok id
unfolding parse_chat_id_base parse_prefixed_chat_id parse_signed parse_digits
parse_chat_id_base-any base a b {id} h = ground (arith, h)

pub validated :
    (local : Text)
    → validate_alias_target local ≡ none
    → (is_empty (normal_form local) ≡ false)
      × ((id : Text) × (parse_chat_id_base (base_of (normal_form local)) (normal_form local)
            ≡ ok id))
unfolding validate_alias_target checked
validated local h = elim (Bool-cases (is_empty (normal_form local))) [
  | inl e ↦ absurd (ground (arith, h, e))
  | inr e ↦ (
    e,
    found (parse_chat_id_base (base_of (normal_form local)) (normal_form local)) refl (rw e at h),
  )
]
  where
    found :
        (r : Result ParseError Text)
        → parse_chat_id_base (base_of (normal_form local)) (normal_form local) ≡ r
        → checked (parse_chat_id_base (base_of (normal_form local)) (normal_form local)) ≡ none
        → (id : Text) × (parse_chat_id_base (base_of (normal_form local)) (normal_form local)
            ≡ ok id)
    found (ok id) e h = (id, e)
    found (err x) e h = absurd (ground (arith, rw e at h))

chat_id_not_empty : (id : Text) → IsChatId id → is_empty id ≡ false
chat_id_not_empty id (ds, _, e, inl is) = rw is e
chat_id_not_empty id (ds, _, e, inr is) = rw is refl

-- A valid target resolves for any address.
pub resolve_target-valid :
    (address local : Text)
    → validate_alias_target local ≡ none
    → (t : RecipientTarget) × (resolve_target address (normal_form local) ≡ ok t)
      × (t.local ≡ normal_form local)
unfolding resolve_target target_with
resolve_target-valid address local h =
    let (ne, (id, found)) = validated local h in
    let base = base_of (normal_form local) in
    let full =
      chat_id_not_empty id (parse_chat_id_base-IsChatId base (normal_form local) {id = id} found) in
    (
      record {
        chat_id = id;
        silent = has_flag (flags_of (normal_form local)) (codes "silent");
        local = normal_form local;
      },
      rw (parse_chat_id_base-any base (normal_form local) address {id = id} found) (rw full refl),
      refl,
    )

parse_chat_id_base-never :
    (base a b : Text) {e : ParseError}
    → parse_chat_id_base base a ≡ err e
    → (x : ParseError) × (parse_chat_id_base base b ≡ err x)
parse_chat_id_base-never base a b {e} h = found (parse_chat_id_base base b) refl
  where
    found :
        (r : Result ParseError Text)
        → parse_chat_id_base base b ≡ r
        → (x : ParseError) × (parse_chat_id_base base b ≡ err x)
    found (ok id) is =
        let other : parse_chat_id_base base a ≡ ok id =
          parse_chat_id_base-any base b a {id = id} is in
        cc
    found (err x) is = (x, is)

-- ValidateAliasTarget takes it.
unfoldable pub is_valid : Text → Bool
is_valid target = elim (validate_alias_target target) [ none ↦ true | some e ↦ false ]

is_valid-checked :
    (r : Result ParseError Text) → (elim (checked r) [ none ↦ true | some e ↦ false ]) ≡ is_ok r
unfolding checked
is_valid-checked (ok id) = refl
is_valid-checked (err e) = refl

is_valid-normal :
    (t : Text)
    → is_empty t ≡ false
    → (elim (if is_empty t then some target_empty else checked (parse_chat_id_base (base_of t) t)) [
      | none ↦ true
      | some e ↦ false
    ])
      ≡ is_ok (parse_chat_id_base (base_of t) t)
is_valid-normal t full = rw full (is_valid-checked (parse_chat_id_base (base_of t) t))

is_valid_lem :
    (local : Text)
    → IsNormal local
    → is_valid local ≡ is_ok (parse_chat_id_base (base_of local) local)
unfolding is_valid validate_alias_target
is_valid_lem local (full, n) =
    subst (λ t. is_valid local ≡ is_ok (parse_chat_id_base (base_of t) t)) n
      (is_valid-normal (normal_form local) (ap is_empty n ∙ full))

-- A target that is not valid is refused in any address.
resolve_target-invalid :
    (address local : Text)
    → is_ok (parse_chat_id_base (base_of local) local) ≡ false
    → (x : ParseError) × (resolve_target address local ≡ err x)
unfolding resolve_target target_with
resolve_target-invalid address local h = refused (parse_chat_id_base (base_of local) local) refl h
  where
    refused :
        (r : Result ParseError Text)
        → parse_chat_id_base (base_of local) local ≡ r
        → is_ok r ≡ false
        → (x : ParseError) × (resolve_target address local ≡ err x)
    refused (ok id) e h = cc
    refused (err y) e h =
        let (x, is) = parse_chat_id_base-never (base_of local) local address {e = y} e in
        (x, rw is refl)

valid_of : (local : Text) → is_valid local ≡ true → validate_alias_target local ≡ none
unfolding is_valid
valid_of local h = ground (arith, h)

rest-AreNormal :
    (local : Text) (locals : List Text)
    → AreNormal (local ∷ locals)
    → IsNormal local × AreNormal locals
unfolding contains
rest-AreNormal local locals h =
    (h local (rw (text_eq_refl local) refl), λ t is. h t (ground (arith, is)))

-- What a list of targets stands for: the first that is not valid ends it.
abbrev Resolved : Text → List Text → Type 0
Resolved address locals =
    ((all is_valid locals ≡ true)
      × ((ts : List RecipientTarget) × (resolve_targets address locals ≡ ok ts)
          × (map (λ t. t.local) ts ≡ locals)))
    ⊎ ((all is_valid locals ≡ false)
        × ((x : ParseError) × (resolve_targets address locals ≡ err x)))

with_first :
    (address local : Text) (locals : List Text) (t : RecipientTarget)
    → is_valid local ≡ true
    → resolve_target address local ≡ ok t
    → t.local ≡ local
    → Resolved address locals
    → Resolved address (local ∷ locals)
unfolding resolve_targets
with_first address local locals t e is at (inl (good, (ts, rest, same))) =
    inl (rw e good, (t ∷ ts, rw (is, rest) refl, rw (at, same) refl))
with_first address local locals t e is at (inr (bad, (x, rest))) =
    inr (rw e bad, (x, rw (is, rest) refl))

resolve_targets-Resolved :
    (address : Text) (locals : List Text) → AreNormal locals → Resolved address locals
unfolding resolve_targets
resolve_targets-Resolved address [] h = inl (refl, ([], refl, refl))
resolve_targets-Resolved address (local ∷ locals) h = elim (Bool-cases (is_valid local)) [
  | inl e ↦
      let (t, is, at) = resolve_target-valid address local (valid_of local e) in
      let n = (rest-AreNormal local locals h).0.1 in
      with_first address local locals t e (subst (λ l. resolve_target address l ≡ ok t) n is)
        (at ∙ n) (resolve_targets-Resolved address locals (rest-AreNormal local locals h).1)
  | inr e ↦
      let normal = (rest-AreNormal local locals h).0 in
      let (x, is) = resolve_target-invalid address local (sym (is_valid_lem local normal) ∙ e) in
      inr (rw e refl, (x, rw is refl))
]

not_empty :
    (ts : List RecipientTarget) (locals : List Text)
    → map (λ t. t.local) ts ≡ locals
    → is_empty locals ≡ false
    → is_empty ts ≡ false
not_empty [] locals e h = absurd (ground (arith, subst (λ l. is_empty l ≡ false) (sym e) h))
not_empty (t ∷ ts) locals e h = refl

-- Parse of an address whose local part is an alias: if every target is one that ValidateAliasTarget
-- takes, the result has a target for each, in order, and tells the alias; if one is not, there is only
-- an error. The table is well-formed, and the domain and the alias are as Parse reads them.
pub parse_alias_lem :
    (p : Parser) (alias : Text) (locals : List Text)
    → all is_local alias ≡ true
    → IsDomain p.allowed_domain
    → IsTable p.aliases
    → lookup alias p.aliases ≡ some locals
    → let parsed = parse p (alias ++ (b'@' ∷ p.allowed_domain)) in
      ((all is_valid locals ≡ true)
        × ((r : ParsedRecipient) × (parsed ≡ ok r)
            × (map (λ t. t.local) r.targets ≡ locals)
            × (r.source_local ≡ alias)
            × (r.alias_used ≡ true)))
      ⊎ ((all is_valid locals ≡ false) × ((x : ParseError) × (parsed ≡ err x)))
unfolding parse parse_parts resolve recipient_with
parse_alias_lem p alias locals h d table found =
    let address : Text = alias ++ (b'@' ∷ p.allowed_domain) in
    let (_, full, _, normal) = table.1 alias locals found in
    rw (address_parts alias p.allowed_domain h d, text_eq_refl p.allowed_domain, found)
      (elim (resolve_targets-Resolved address locals normal) [
        | inl (good, (ts, is, same)) ↦ inl (
          good,
          (
            record {
              targets = ts;
              raw_local = join (codes ",") locals;
              raw_addr = address;
              source_local = alias;
              alias_used = true;
            },
            rw (is, not_empty ts locals same full) refl,
            same,
            refl,
            refl,
          ),
        )
        | inr (bad, (x, is)) ↦ inr (bad, (x, rw is refl))
      ])
