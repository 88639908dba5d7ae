-- ===== src/Max/Runtime/Reach.antt =====
-- internal/max/bot_help.go, with internal/recipient/parser.go and internal/max/bot_sender.go: the address that
-- the bot tells in a chat is an address of this chat.
use smtp_to_max_relay.Prelude.{
  ℕ, ◌<◌, ◌^◌, Bool, true, false, ◌||◌, List, [], ◌∷◌, ◌++◌, none, ◌≡◌, refl, sym, ap, ◌∙◌, inl,
  inr, arith, if◌then◌else◌, is_empty, all, ◌==◌, Bool-cases,
}
use mathlib.Core.List.{append-nil}
use smtp_to_max_relay.Prelude.Result.{ok}
use smtp_to_max_relay.Prelude.Text.{Text, codes, text_eq, trim_space, is_digit}
use smtp_to_max_relay.Prelude.Decimal.{
  format_int, parse_int-format_int, decimal, magnitude, is_negative, all-decimal, is_empty-decimal,
}
use smtp_to_max_relay.Prelude.Assoc.{Assoc, lookup}
use smtp_to_max_relay.Recipient.Address.{ParsedRecipient, RecipientTarget, new_parser, parse}
use smtp_to_max_relay.Recipient.Address.Written.{
  chat_id_of, local_part, chat_id_of-is_plain, trim_space_keeps, to_lower_keeps, IsDomain, is_plain,
}
use smtp_to_max_relay.Recipient.Address.RoundTrip.{
  parse-address_of, target_of, is_plain_of_is_local, address_of,
}
use smtp_to_max_relay.Max.Help.{build_chat_info_reply, chat_address_local_part, build_info_reply}
use smtp_to_max_relay.Max.BotSender.{parse_chat_id, number_or_error}

format_int_is : (c : ℕ) → format_int c ≡ chat_id_of (is_negative c) (decimal (magnitude c))
unfolding format_int
format_int_is c = elim (Bool-cases (is_negative c)) [ inl e ↦ rw e refl | inr e ↦ rw e refl ]

format_int-is_plain : (c : ℕ) → all is_plain (format_int c) ≡ true
format_int-is_plain c =
    rw (format_int_is c)
      (chat_id_of-is_plain (is_negative c) (decimal (magnitude c)) (all-decimal (magnitude c)))

trim-format_int : (c : ℕ) → trim_space (format_int c) ≡ format_int c
trim-format_int c = trim_space_keeps (format_int c) (format_int-is_plain c)

-- A decimal begins with a sign or a digit.
is_decimal : Text → Bool
is_decimal [] = false
is_decimal (x ∷ s) = x == b'-' || is_digit x

decimal_begins : (s : Text) → all is_digit s ≡ true → is_empty s ≡ false → is_decimal s ≡ true
unfolding is_decimal
decimal_begins [] h e = cc
decimal_begins (x ∷ s) h e = ground (arith, h)

format_int_begins : (c : ℕ) → is_decimal (format_int c) ≡ true
unfolding is_decimal
format_int_begins c = rw (format_int_is c) (begins (is_negative c))
  where
    begins : (negative : Bool) → is_decimal (chat_id_of negative (decimal (magnitude c))) ≡ true
    begins true = refl
    begins false =
        decimal_begins (decimal (magnitude c)) (all-decimal (magnitude c))
          (is_empty-decimal (magnitude c))

known :
    (s : Text)
    → is_decimal s ≡ true
    → (is_empty s ≡ false) × (text_eq s (codes "<unknown>") ≡ false)
unfolding is_decimal is_digit text_eq
known [] h = absurd (ground (arith, h))
known (x ∷ s) h = (refl, ground (arith, h))

-- What the bot tells: the prefix and the chat id, at the domain.
told_is :
    (c : ℕ) (domain : Text)
    → IsDomain domain
    → is_empty domain ≡ false
    → let told = build_chat_info_reply (format_int c) domain in
      (told.local_part ≡ local_part (is_negative c) (decimal (magnitude c)) false)
      × (told.domain ≡ domain)
unfolding build_chat_info_reply build_info_reply chat_address_local_part
told_is c domain d e =
    let k = known (format_int c) (format_int_begins c) in
    let plain_domain = trim_space_keeps domain (is_plain_of_is_local domain d) in
    (
      rw (trim-format_int c, k.0, trim-format_int c, k.0, k.1, format_int_is c) refl,
      rw (plain_domain, e) refl,
    )

new_parser-domain :
    (domain : Text) (aliases : Assoc (List Text))
    → IsDomain domain
    → new_parser domain aliases ≡ record { allowed_domain = domain; aliases = aliases }
unfolding new_parser
new_parser-domain domain aliases d =
    let plain = is_plain_of_is_local domain d in
    rw (trim_space_keeps domain plain, to_lower_keeps domain plain) refl

parse_chat_id-format_int : (c : ℕ) → c < 2 ^ 64 → parse_chat_id (format_int c) ≡ ok c
unfolding parse_chat_id number_or_error
parse_chat_id-format_int c h = rw (trim-format_int c, parse_int-format_int c h) refl

suffixed :
    (negative : Bool) (ds : Text) (silent : Bool)
    → local_part negative ds false ++ (if silent then codes ".silent" else [])
      ≡ local_part negative ds silent
suffixed negative ds true = refl
suffixed negative ds false = append-nil (local_part negative ds false)

abbrev read : Text → Bool → Text → Bool → ParsedRecipient
read domain negative ds silent = record {
  targets = target_of negative ds silent ∷ [];
  raw_local = local_part negative ds silent;
  raw_addr = address_of negative ds silent domain;
  source_local = local_part negative ds silent;
  alias_used = false;
}

-- The address that the bot tells in a chat, with `.silent` or without, is read as one target, silent or not,
-- whose chat id the sender reads as this very chat, for every chat id of an int64. The domain is not empty
-- and in lower case, without spaces and at signs, and no alias has the local part for its name.
pub parse-told :
    (domain : Text) (aliases : Assoc (List Text)) (c : ℕ) (silent : Bool)
    → c < 2 ^ 64
    → IsDomain domain
    → is_empty domain ≡ false
    → let told = build_chat_info_reply (format_int c) domain in
      let local = told.local_part ++ (if silent then codes ".silent" else []) in
      lookup local aliases ≡ none
      → (r : ParsedRecipient) × (t : RecipientTarget) × (parse
            (new_parser domain aliases)
            (local ++ (b'@' ∷ told.domain))
          ≡ ok r)
        × (r.targets ≡ t ∷ [])
        × (t.silent ≡ silent)
        × (parse_chat_id t.chat_id ≡ ok c)
parse-told domain aliases c silent h d e free =
    let negative = is_negative c in
    let ds = decimal (magnitude c) in
    let told = build_chat_info_reply (format_int c) domain in
    let here : told.local_part ++ (if silent then codes ".silent" else [])
        ≡ local_part negative ds silent =
      rw (told_is c domain d e).0 (suffixed negative ds silent) in
    (
      read domain negative ds silent,
      target_of negative ds silent,
      rw (here, (told_is c domain d e).1, new_parser-domain domain aliases d)
          (parse-address_of (record { allowed_domain = domain; aliases = aliases }) negative ds
            silent (all-decimal (magnitude c)) (is_empty-decimal (magnitude c)) d
            (sym (ap (λ x. lookup x aliases) here) ∙ free)),
      refl,
      refl,
      rw (sym (format_int_is c)) (parse_chat_id-format_int c h),
    )
