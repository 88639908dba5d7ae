-- ===== src/Recipient/Address/Written.antt =====
-- internal/recipient/parser.go: the documented forms of an address, and the characters in them.
use smtp_to_max_relay.Prelude.{
  ℕ, Bool, true, false, not, ◌&&◌, [], ◌∷◌, ◌++◌, ◌≡◌, refl, ◌∙◌, arith, if◌then◌else◌, all,
  all-append, all_mono, ◌==◌,
}
use smtp_to_max_relay.Prelude.Text.{
  Text, codes, is_digit, is_space, lower_rune, to_lower, trim_space,
}
use smtp_to_max_relay.Prelude.Text.Laws.{trim_keeps}
use smtp_to_max_relay.Recipient.Address.{chat_id_prefix}

-- A chat id in decimal: the sign and the digits.
abbrev pub chat_id_of : Bool → Text → Text
chat_id_of negative ds = if negative then b'-' ∷ ds else ds

abbrev pub base_part : Bool → Text → Text
base_part negative ds = chat_id_prefix ++ chat_id_of negative ds

abbrev pub local_part : Bool → Text → Bool → Text
local_part negative ds silent =
    if silent then base_part negative ds ++ codes ".silent" else base_part negative ds

-- Kept by ToLower and TrimSpace.
unfoldable pub is_plain : ℕ → Bool
is_plain c = lower_rune c == c && not (is_space c)

pub to_lower_keeps : (s : Text) → all is_plain s ≡ true → to_lower s ≡ s
unfolding is_plain
to_lower_keeps [] h = refl
to_lower_keeps (c ∷ s) h = ground (arith, to_lower_keeps s)

pub trim_space_keeps : (s : Text) → all is_plain s ≡ true → trim_space s ≡ s
unfolding is_plain
trim_space_keeps s h =
    trim_keeps is_space s (all_mono is_plain (λ c. not (is_space c)) s (λ c e. ground arith) h)

-- The characters of a base: no dot and no at sign either.
unfoldable pub is_base : ℕ → Bool
is_base c = is_plain c && not (c == b'.') && not (c == b'@')

pub is_base_of_is_digit : (c : ℕ) → is_digit c ≡ true → is_base c ≡ true
unfolding is_base is_plain lower_rune is_space is_digit
is_base_of_is_digit c h = ground arith

pub base_part-is_base :
    (negative : Bool) (ds : Text)
    → all is_digit ds ≡ true
    → all is_base (base_part negative ds) ≡ true
unfolding is_base is_plain lower_rune is_space
base_part-is_base true ds h = all_mono is_digit is_base ds is_base_of_is_digit h
base_part-is_base false ds h = all_mono is_digit is_base ds is_base_of_is_digit h

pub not_dot : (s : Text) → all is_base s ≡ true → all (λ c. not (c == b'.')) s ≡ true
unfolding is_base
not_dot s h = all_mono is_base (λ c. not (c == b'.')) s (λ c e. ground arith) h

unfoldable pub is_local : ℕ → Bool
is_local c = is_plain c && not (c == b'@')

pub is_local_of_is_base : (c : ℕ) → is_base c ≡ true → is_local c ≡ true
unfolding is_base is_local
is_local_of_is_base c e = ground arith

pub silent-is_local : all is_local (codes ".silent") ≡ true
unfolding is_local is_plain lower_rune is_space
silent-is_local = refl

pub base_part-is_local :
    (negative : Bool) (ds : Text)
    → all is_digit ds ≡ true
    → all is_local (base_part negative ds) ≡ true
base_part-is_local negative ds h =
    all_mono is_base is_local (base_part negative ds) is_local_of_is_base
      (base_part-is_base negative ds h)

pub local_part-is_local :
    (negative : Bool) (ds : Text) (silent : Bool)
    → all is_digit ds ≡ true
    → all is_local (local_part negative ds silent) ≡ true
local_part-is_local negative ds true h =
    all-append is_local (base_part negative ds) (codes ".silent")
    ∙ rw (base_part-is_local negative ds h) silent-is_local
local_part-is_local negative ds false h = base_part-is_local negative ds h

-- A domain that ToLower and TrimSpace keep, with no at sign.
abbrev pub IsDomain : Text → Type 0
IsDomain d = all is_local d ≡ true

pub is_plain_of_is_digit : (c : ℕ) → is_digit c ≡ true → is_plain c ≡ true
unfolding is_plain lower_rune is_space is_digit
is_plain_of_is_digit c h = ground arith

pub sign-is_plain : is_plain b'-' ≡ true
unfolding is_plain lower_rune is_space
sign-is_plain = refl

pub chat_id_of-is_plain :
    (negative : Bool) (ds : Text)
    → all is_digit ds ≡ true
    → all is_plain (chat_id_of negative ds) ≡ true
chat_id_of-is_plain true ds h =
    rw sign-is_plain (all_mono is_digit is_plain ds is_plain_of_is_digit h)
chat_id_of-is_plain false ds h = all_mono is_digit is_plain ds is_plain_of_is_digit h
