-- ===== src/Recipient/Address/RoundTrip.antt =====
-- The documented address forms `chatid<id>@<domain>` and `chatid<id>.silent@<domain>` are read back.
use smtp_to_max_relay.Prelude.{
  Bool, true, false, not, [], ◌∷◌, ◌++◌, none, some, ◌≡◌, refl, ◌∙◌, arith, if◌then◌else◌, all,
  all-append, all_mono, is_empty, ◌==◌,
}
use smtp_to_max_relay.Prelude.Result.{ok}
use smtp_to_max_relay.Prelude.Text.{
  Text, codes, text_eq, is_digit, is_space, lower_rune, has_prefix, to_lower, trim_space, trim_left,
  trim_right, split, split_by, cut, join,
}
use smtp_to_max_relay.Prelude.Text.Laws.{
  text_eq_refl, cut_append, cut-none, split_one, split_cons, has_prefix_append,
}
use smtp_to_max_relay.Prelude.Assoc.{lookup}
use smtp_to_max_relay.Recipient.Address.{
  Parser, RecipientTarget, parse_prefixed_chat_id, parse_chat_id_base, parse_signed, chat_id_prefix,
  resolve_target, resolve_targets, base_of, flags_of, resolve, parse_parts, parse, has_flag,
}
use smtp_to_max_relay.Recipient.Address.Written.{
  chat_id_of, base_part, local_part, is_plain, to_lower_keeps, trim_space_keeps, base_part-is_base,
  not_dot, is_local, local_part-is_local, IsDomain, chat_id_of-is_plain,
}

parse_signed_lem :
    (negative : Bool) (ds address : Text)
    → all is_digit ds ≡ true
    → is_empty ds ≡ false
    → parse_signed (chat_id_of negative ds) address ≡ ok (chat_id_of negative ds)
unfolding parse_signed has_prefix is_digit
parse_signed_lem true [] address h ne = cc
parse_signed_lem false [] address h ne = cc
parse_signed_lem true (d ∷ ds) address h ne = ground arith
parse_signed_lem false (d ∷ ds) address h ne = ground arith

parse_prefixed_lem :
    (negative : Bool) (ds address : Text)
    → all is_digit ds ≡ true
    → is_empty ds ≡ false
    → parse_prefixed_chat_id (chat_id_of negative ds) address ≡ ok (chat_id_of negative ds)
unfolding parse_prefixed_chat_id
parse_prefixed_lem negative ds address h ne =
    rw (trim_space_keeps (chat_id_of negative ds) (chat_id_of-is_plain negative ds h))
      (parse_signed_lem negative ds address h ne)

parse_base_lem :
    (negative : Bool) (ds address : Text)
    → all is_digit ds ≡ true
    → is_empty ds ≡ false
    → parse_chat_id_base (base_part negative ds) address ≡ ok (chat_id_of negative ds)
unfolding parse_chat_id_base
parse_base_lem negative ds address h ne =
    rw (has_prefix_append chat_id_prefix (chat_id_of negative ds))
      (parse_prefixed_lem negative ds address h ne)

cut_local :
    (negative : Bool) (ds : Text) (silent : Bool)
    → all is_digit ds ≡ true
    → cut b'.' (local_part negative ds silent)
      ≡ (if silent then some (base_part negative ds, codes "silent") else none)
cut_local negative ds true h =
    cut_append b'.' (base_part negative ds) (codes "silent")
      (not_dot (base_part negative ds) (base_part-is_base negative ds h))
cut_local negative ds false h =
    cut-none b'.' (base_part negative ds)
      (not_dot (base_part negative ds) (base_part-is_base negative ds h))

base_of_lem :
    (negative : Bool) (ds : Text) (silent : Bool)
    → all is_digit ds ≡ true
    → base_of (local_part negative ds silent) ≡ base_part negative ds
base_of_lem negative ds true h = rw (cut_local negative ds true h, base_of)
base_of_lem negative ds false h = rw (cut_local negative ds false h, base_of)

silent_flag : has_flag (codes "silent") (codes "silent") ≡ true
unfolding has_flag split_by text_eq is_space trim_left trim_right
silent_flag = refl

no_flag : has_flag [] (codes "silent") ≡ false
unfolding has_flag
no_flag = refl

has_flag_lem :
    (negative : Bool) (ds : Text) (silent : Bool)
    → all is_digit ds ≡ true
    → has_flag (flags_of (local_part negative ds silent)) (codes "silent") ≡ silent
has_flag_lem negative ds true h = rw (cut_local negative ds true h, flags_of) silent_flag
has_flag_lem negative ds false h = rw (cut_local negative ds false h, flags_of) no_flag

abbrev pub target_of : Bool → Text → Bool → RecipientTarget
target_of negative ds silent = record {
  chat_id = chat_id_of negative ds;
  silent = silent;
  local = local_part negative ds silent;
}

chat_id_of-not_empty :
    (negative : Bool) (ds : Text) → is_empty ds ≡ false → is_empty (chat_id_of negative ds) ≡ false
chat_id_of-not_empty true ds h = refl
chat_id_of-not_empty false ds h = h

-- The local part alone, as an alias may name it, whatever the address in front of it.
pub resolve_target-local_part :
    (negative : Bool) (ds : Text) (silent : Bool) (address : Text)
    → all is_digit ds ≡ true
    → is_empty ds ≡ false
    → resolve_target address (local_part negative ds silent) ≡ ok (target_of negative ds silent)
unfolding resolve_target
resolve_target-local_part negative ds silent address h ne =
    rw (base_of_lem negative ds silent h, parse_base_lem negative ds address h ne)
      (rw (chat_id_of-not_empty negative ds ne, has_flag_lem negative ds silent h))

abbrev pub address_of : Bool → Text → Bool → Text → Text
address_of negative ds silent domain = local_part negative ds silent ++ (b'@' ∷ domain)

not_at : (s : Text) → all is_local s ≡ true → all (λ c. not (c == b'@')) s ≡ true
unfolding is_local
not_at s h = all_mono is_local (λ c. not (c == b'@')) s (λ c e. ground arith) h

pub is_plain_of_is_local : (s : Text) → all is_local s ≡ true → all is_plain s ≡ true
unfolding is_local
is_plain_of_is_local s h = all_mono is_local is_plain s (λ c e. ground arith) h

at-is_plain : is_plain b'@' ≡ true
unfolding is_plain lower_rune is_space
at-is_plain = refl

-- A local part and a domain that ToLower and TrimSpace keep are the two parts of their address.
pub address_parts :
    (local domain : Text)
    → all is_local local ≡ true
    → IsDomain domain
    → split b'@' (trim_space (to_lower (local ++ (b'@' ∷ domain)))) ≡ local ∷ domain ∷ []
address_parts local domain h d =
    let address : Text = local ++ (b'@' ∷ domain) in
    let plain : all is_plain address ≡ true =
      all-append is_plain local (b'@' ∷ domain)
      ∙ rw (is_plain_of_is_local local h, at-is_plain) (is_plain_of_is_local domain d) in
    rw (to_lower_keeps address plain, trim_space_keeps address plain)
      (split_cons (λ c. c == b'@') local b'@' domain (not_at local h) refl
        ∙ rw (split_one (λ c. c == b'@') domain (not_at domain d)))

address_of_parts :
    (negative : Bool) (ds : Text) (silent : Bool) (domain : Text)
    → all is_digit ds ≡ true
    → IsDomain domain
    → split b'@' (trim_space (to_lower (address_of negative ds silent domain)))
      ≡ local_part negative ds silent ∷ domain ∷ []
address_of_parts negative ds silent domain h d =
    address_parts (local_part negative ds silent) domain (local_part-is_local negative ds silent h)
      d

resolve_unaliased :
    (negative : Bool) (ds : Text) (silent : Bool) (address : Text)
    → all is_digit ds ≡ true
    → is_empty ds ≡ false
    → resolve address (local_part negative ds silent) none
      ≡ ok (record {
        targets = target_of negative ds silent ∷ [];
        raw_local = local_part negative ds silent;
        raw_addr = address;
        source_local = local_part negative ds silent;
        alias_used = false;
      })
unfolding resolve resolve_targets join
resolve_unaliased negative ds silent address h ne =
    rw (resolve_target-local_part negative ds silent address h ne)

-- An address in a documented form is read as its chat id and flag, whatever the sign and the
-- digits of the id, if the id has a digit, the domain is the parser's and no alias has its local
-- part for its name.
pub parse-address_of :
    (p : Parser) (negative : Bool) (ds : Text) (silent : Bool)
    → all is_digit ds ≡ true
    → is_empty ds ≡ false
    → IsDomain p.allowed_domain
    → lookup (local_part negative ds silent) p.aliases ≡ none
    → let address = address_of negative ds silent p.allowed_domain in
      parse p address
      ≡ ok (record {
        targets = target_of negative ds silent ∷ [];
        raw_local = local_part negative ds silent;
        raw_addr = address;
        source_local = local_part negative ds silent;
        alias_used = false;
      })
unfolding parse parse_parts
parse-address_of p negative ds silent h ne d free =
    rw (address_of_parts negative ds silent p.allowed_domain h d)
      (rw (text_eq_refl p.allowed_domain, free) (resolve_unaliased negative ds silent _ h ne))
