-- ===== src/Recipient/Address.antt =====
-- internal/recipient/parser.go: the address parser. An error is a constructor with the text that
-- its message quotes. The read lock is not modelled: `parse` reads one state of the table.
pub mod Sound
pub mod Written
pub mod RoundTrip
use smtp_to_max_relay.Prelude.{
  Bool, true, false, not, ◌||◌, List, [], ◌∷◌, Option, none, some, if◌then◌else◌, all, any,
  is_empty,
}
use smtp_to_max_relay.Prelude.Result.{Result, ok, err, ◌>>=◌}
use smtp_to_max_relay.Prelude.Text.{
  Text, codes, text_eq, to_lower, trim_space, has_prefix, trim_prefix, contains_rune, cut, split,
  join, is_digit,
}
use smtp_to_max_relay.Prelude.Assoc.{Assoc, lookup}

abbrev pub chat_id_prefix : Text
chat_id_prefix = codes "chatid"

pub record RecipientTarget : Type 0 where
  pub chat_id : Text
  pub silent : Bool
  pub local : Text

pub record ParsedRecipient : Type 0 where
  pub targets : List RecipientTarget
  pub raw_local : Text
  pub raw_addr : Text
  pub source_local : Text
  pub alias_used : Bool

pub data ParseError : Type 0 where
  invalid_recipient_format : Text → ParseError
  unsupported_domain : Text → ParseError
  chat_id_empty_in : Text → ParseError
  invalid_prefixed_chat_id : Text → ParseError
  thread_not_supported : Text → ParseError
  must_use_chatid : Text → ParseError
  chat_id_empty no_targets : ParseError

-- A nil alias map reads as an empty one.
pub record Parser : Type 0 where
  pub allowed_domain : Text
  pub aliases : Assoc (List Text)

unfoldable pub new_parser : Text → Assoc (List Text) → Parser
new_parser domain aliases = record {
  allowed_domain = to_lower (trim_space domain);
  aliases = aliases;
}

-- The digits, behind an optional minus sign.
unfoldable pub parse_digits : Bool → Text → Text → Result ParseError Text
parse_digits negative value address =
    if all is_digit value
    then ok (if negative then b'-' ∷ value else value)
    else err (invalid_prefixed_chat_id address)

unfoldable pub parse_signed : Text → Text → Result ParseError Text
unfolding parse_digits
parse_signed value address =
    let rest = trim_prefix value (codes "-") in
    if is_empty value
    then err (chat_id_empty_in address)
    else if has_prefix value (codes "-")
    then (if is_empty rest then err (chat_id_empty_in address) else parse_digits true rest address)
    else parse_digits false value address

unfoldable pub parse_prefixed_chat_id : Text → Text → Result ParseError Text
unfolding parse_signed
parse_prefixed_chat_id value address = parse_signed (trim_space value) address

unfoldable pub parse_chat_id_base : Text → Text → Result ParseError Text
parse_chat_id_base base address =
    if has_prefix base chat_id_prefix
    then parse_prefixed_chat_id (trim_prefix base chat_id_prefix) address
    else if contains_rune b'!' base || contains_rune b'_' base
    then err (thread_not_supported address)
    else err (must_use_chatid address)

unfoldable pub has_flag : Text → Text → Bool
has_flag flags target =
    if is_empty flags then false else any (λ f. text_eq (trim_space f) target) (split b'.' flags)

-- `base` and `flags`: the parts before and behind the first dot.
abbrev pub base_of : Text → Text
base_of local = elim (cut b'.' local) [ none ↦ local | some (base, flags) ↦ base ]

abbrev pub flags_of : Text → Text
flags_of local = elim (cut b'.' local) [ none ↦ [] | some (base, flags) ↦ flags ]

unfoldable pub target_with : Text → Text → Result ParseError RecipientTarget
target_with local chat_id =
    if is_empty chat_id
    then err chat_id_empty
    else ok (record {
      chat_id = chat_id;
      silent = has_flag (flags_of local) (codes "silent");
      local = local;
    })

-- One round of the loop over `locals`.
unfoldable pub resolve_target : Text → Text → Result ParseError RecipientTarget
unfolding target_with
resolve_target address local = parse_chat_id_base (base_of local) address >>= target_with local

-- The first local part that is refused ends the loop.
unfoldable pub resolve_targets : Text → List Text → Result ParseError (List RecipientTarget)
resolve_targets address [] = ok []
resolve_targets address (local ∷ locals) = do
  target ← resolve_target address local
  targets ← resolve_targets address locals
  ok (target ∷ targets)

abbrev pub locals_of : Option (List Text) → Text → List Text
locals_of none local = local ∷ []
locals_of (some mapped) local = mapped

abbrev pub is_some : Option (List Text) → Bool
is_some none = false
is_some (some mapped) = true

unfoldable pub recipient_with :
    Text → Text → Option (List Text) → List RecipientTarget → Result ParseError ParsedRecipient
recipient_with address local mapped targets =
    if is_empty targets
    then err no_targets
    else ok (record {
      targets = targets;
      raw_local = join (codes ",") (locals_of mapped local);
      raw_addr = address;
      source_local = local;
      alias_used = is_some mapped;
    })

unfoldable pub resolve : Text → Text → Option (List Text) → Result ParseError ParsedRecipient
unfolding recipient_with
resolve address local mapped =
    resolve_targets address (locals_of mapped local) >>= recipient_with address local mapped

-- The address must have exactly two parts.
unfoldable pub parse_parts : Parser → Text → List Text → Result ParseError ParsedRecipient
parse_parts p address (local ∷ domain ∷ []) =
    if text_eq domain p.allowed_domain
    then resolve address local (lookup local p.aliases)
    else err (unsupported_domain domain)
parse_parts p address _ = err (invalid_recipient_format address)

-- parser.Parse
unfoldable pub parse : Parser → Text → Result ParseError ParsedRecipient
parse p address = parse_parts p address (split b'@' (trim_space (to_lower address)))
