-- ===== src/Recipient/Address/Sound.antt =====
-- What a successful parse guarantees.
use smtp_to_max_relay.Prelude.{
  true, false, List, [], ◌∷◌, Option, ◌≡◌, refl, ◌⊎◌, inl, inr, arith, all, is_empty, Bool-cases,
  drop, ◌∙◌,
}
use smtp_to_max_relay.Prelude.Result.{ok, bind-eq-ok, ok-injective}
use smtp_to_max_relay.Prelude.Text.{
  Text, codes, text_eq, has_prefix, trim_prefix, is_digit, to_lower, trim_space, split,
}
use smtp_to_max_relay.Prelude.Text.Laws.{text_eq_iff}
use smtp_to_max_relay.Prelude.Assoc.{lookup}
use smtp_to_max_relay.Recipient.Address.{
  Parser, RecipientTarget, ParsedRecipient, parse_prefixed_chat_id, parse_chat_id_base,
  resolve_target, resolve_targets, locals_of, base_of, parse_signed, chat_id_prefix, is_some,
  resolve, recipient_with, parse_parts, parse, has_flag, flags_of,
}

-- A chat id as the MAX API wants it: digits, at least one, behind an optional minus sign.
abbrev pub IsChatId : Text → Type 0
IsChatId id =
    (ds : Text) × (all is_digit ds ≡ true) × (is_empty ds ≡ false) × ((id ≡ ds) ⊎ (id ≡ b'-' ∷ ds))

parse_signed-IsChatId :
    (value address : Text) {id : Text} → parse_signed value address ≡ ok id → IsChatId id
unfolding parse_signed
parse_signed-IsChatId value address {id} h = elim (Bool-cases (has_prefix value (codes "-"))) [
  | inl e ↦ (drop 1 value, ground arith, ground arith, ground arith)
  | inr e ↦ (value, ground arith, ground arith, ground arith)
]

parse_prefixed-IsChatId :
    (value address : Text) {id : Text} → parse_prefixed_chat_id value address ≡ ok id → IsChatId id
unfolding parse_prefixed_chat_id
parse_prefixed-IsChatId value address h = parse_signed-IsChatId (trim_space value) address h

base_needs_prefix :
    (base address : Text) {id : Text}
    → parse_chat_id_base base address ≡ ok id
    → parse_prefixed_chat_id (trim_prefix base chat_id_prefix) address ≡ ok id
unfolding parse_chat_id_base
base_needs_prefix base address h = ground arith

pub parse_chat_id_base-IsChatId :
    (base address : Text) {id : Text} → parse_chat_id_base base address ≡ ok id → IsChatId id
parse_chat_id_base-IsChatId base address h =
    parse_prefixed-IsChatId (trim_prefix base chat_id_prefix) address
      (base_needs_prefix base address h)

abbrev pub IsTarget : Text → RecipientTarget → Type 0
IsTarget local t =
    (t.local ≡ local) × (t.silent ≡ has_flag (flags_of local) (codes "silent")) × IsChatId t.chat_id

resolve_target-IsTarget :
    (address local : Text) {t : RecipientTarget}
    → resolve_target address local ≡ ok t
    → IsTarget local t
unfolding resolve_target
resolve_target-IsTarget address local h =
    let (id, e, f) = bind-eq-ok (parse_chat_id_base (base_of local) address) _ h in
    let good = parse_chat_id_base-IsChatId (base_of local) address e in
    (ground arith, ground arith, ground arith)

-- One target for each local part, in their order.
abbrev pub AreTargets : List Text → List RecipientTarget → Type 0
AreTargets [] [] = Unit
AreTargets (local ∷ locals) (t ∷ ts) = IsTarget local t × AreTargets locals ts
AreTargets _ _ = ⊥

resolve_targets-AreTargets :
    (address : Text) (locals : List Text) {ts : List RecipientTarget}
    → resolve_targets address locals ≡ ok ts
    → AreTargets locals ts
unfolding resolve_targets
resolve_targets-AreTargets address [] h = rw (← ok-injective h) tt
resolve_targets-AreTargets address (local ∷ locals) {ts} h =
    let (t, e, f) = bind-eq-ok (resolve_target address local) _ h in
    let (rest, e', f') = bind-eq-ok (resolve_targets address locals) _ f in
    rw (← ok-injective f')
      (resolve_target-IsTarget address local e, resolve_targets-AreTargets address locals e')

pub record IsParsed (p : Parser) (address : Text) (r : ParsedRecipient) : Type 0 where
  pub local : Text
  pub parts : split b'@' (trim_space (to_lower address)) ≡ local ∷ p.allowed_domain ∷ []
  pub source_is : r.source_local ≡ local
  pub alias_is : r.alias_used ≡ is_some (lookup local p.aliases)
  pub targets_are : AreTargets (locals_of (lookup local p.aliases) local) r.targets
  pub some_target : is_empty r.targets ≡ false

recipient_with-fields :
    (address local : Text) (mapped : Option (List Text)) (ts : List RecipientTarget)
    {r : ParsedRecipient}
    → recipient_with address local mapped ts ≡ ok r
    → (r.source_local ≡ local)
      × (r.alias_used ≡ is_some mapped)
      × (r.targets ≡ ts)
      × (is_empty ts ≡ false)
unfolding recipient_with
recipient_with-fields address local mapped ts h = ground arith

resolve-IsParsed :
    (p : Parser) (address local : Text) {r : ParsedRecipient}
    → resolve address local (lookup local p.aliases) ≡ ok r
    → split b'@' (trim_space (to_lower address)) ≡ local ∷ p.allowed_domain ∷ []
    → IsParsed p address r
unfolding resolve
resolve-IsParsed p address local h parts =
    let mapped = lookup local p.aliases in
    let (ts, e, f) = bind-eq-ok (resolve_targets address (locals_of mapped local)) _ h in
    let (source, alias, same, some_target) = recipient_with-fields address local mapped ts f in
    record {
      local = local;
      parts = parts;
      source_is = source;
      alias_is = alias;
      targets_are = rw same (resolve_targets-AreTargets address (locals_of mapped local) e);
      some_target = rw same some_target;
    }

parse_parts-IsParsed :
    (p : Parser) (address : Text) (parts : List Text) {r : ParsedRecipient}
    → parse_parts p address parts ≡ ok r
    → split b'@' (trim_space (to_lower address)) ≡ parts
    → IsParsed p address r
unfolding parse_parts
parse_parts-IsParsed p address (local ∷ domain ∷ []) h e =
    elim (Bool-cases (text_eq domain p.allowed_domain)) [
      | inl same ↦
          resolve-IsParsed p address local (rw same at h)
            (e ∙ rw ((text_eq_iff domain p.allowed_domain).0 same))
      | inr other ↦ absurd (ground arith)
    ]
parse_parts-IsParsed p address _ h e = absurd (ground arith)

-- An address that is parsed has the parser's domain and at least one target. Each target belongs to one
-- of the local parts that the address stands for, the alias's or its own, in order, has the
-- silent flag just when that part does, and its chat id is digits behind an optional minus.
pub parse-IsParsed :
    (p : Parser) (address : Text) {r : ParsedRecipient}
    → parse p address ≡ ok r
    → IsParsed p address r
unfolding parse
parse-IsParsed p address h = parse_parts-IsParsed p address _ h refl
