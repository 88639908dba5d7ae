-- ===== src/Relay/Message.antt =====
-- internal/relay/service.go: the text that is sent for an email, with fallback and stripHTMLBasic. A code
-- point 0x110000 + b stands for a byte b that belongs to none.
pub mod Html
use smtp_to_max_relay.Prelude.{
  ℕ, zero, suc, ◌+◌, ◌-◌, ◌/◌, ◌%◌, not, ◌||◌, List, [], ◌∷◌, ◌++◌, if◌then◌else◌, ltb, ◌==◌,
  is_empty, filter,
}
use smtp_to_max_relay.Email.{ParsedEmail}
use smtp_to_max_relay.Prelude.Text.{Text, codes, trim_space, has_prefix}

-- The bytes of a code point in UTF-8.
unfoldable pub rune_bytes : ℕ → List ℕ
rune_bytes c =
    if ltb c 0x80
    then c ∷ []
    else if ltb c 0x800
    then (0xc0 + c / 64) ∷ (0x80 + c % 64) ∷ []
    else if ltb c 0x10000
    then (0xe0 + c / 4096) ∷ (0x80 + (c / 64) % 64) ∷ (0x80 + c % 64) ∷ []
    else if ltb c 0x110000
    then (0xf0 + c / 262144)
      ∷ (0x80 + (c / 4096) % 64)
      ∷ (0x80 + (c / 64) % 64)
      ∷ (0x80 + c % 64)
      ∷ []
    else (c - 0x110000) ∷ []

unfoldable pub utf8 : Text → List ℕ
utf8 [] = []
utf8 (c ∷ s) = rune_bytes c ++ utf8 s

unfoldable pub fallback : Text → Text → Text
fallback v default = if is_empty (trim_space v) then default else v

-- The length of the tag that the replacer finds at the start, or 0.
unfoldable pub tag_length : Text → ℕ
tag_length s =
    if has_prefix s (codes "<br>")
    then 4
    else if has_prefix s (codes "<br/>")
    then 5
    else if has_prefix s (codes "<p>")
    then 3
    else if has_prefix s (codes "</p>")
    then 4
    else 0

-- The replacer's pass, with what is left of the tag just replaced.
unfoldable pub replace_tags : ℕ → Text → Text
replace_tags skip [] = []
replace_tags (suc skip) (c ∷ s) = replace_tags skip s
replace_tags zero (c ∷ s) = elim (tag_length (c ∷ s)) [
  | zero ↦ c ∷ replace_tags zero s
  | suc n ↦ b'\n' ∷ replace_tags n s
]

unfoldable pub strip_html_basic : Text → Text
strip_html_basic s = trim_space (filter (λ c. not (c == b'<' || c == b'>')) (replace_tags zero s))

unfoldable pub body_of : ParsedEmail → Text
body_of em =
    if is_empty (trim_space em.text_body) then strip_html_basic em.html_body else em.text_body

unfoldable pub message_text : ParsedEmail → List ℕ
unfolding body_of
message_text em = utf8 (
    codes "📧 "
    ++ fallback em.subject (codes "(без темы)")
    ++ codes "\nОт: "
    ++ em.sender
    ++ codes "\n\n"
    ++ body_of em)
