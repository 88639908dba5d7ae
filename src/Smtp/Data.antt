-- ===== src/Smtp/Data.antt =====
-- internal/smtp/server.go: extractSMTPPath, isAllowedRecipient and readData. The reader is the list of
-- the lines still to come, each with its end of line; reading behind the last one fails. A text is
-- the list of its code points, where 0x110000 + b stands for a byte b that belongs to none.
pub mod Laws
use smtp_to_max_relay.Prelude.{
  ℕ, ◌+◌, Bool, ◌||◌, List, [], ◌∷◌, ◌++◌, if◌then◌else◌, ltb, ◌==◌, drop,
}
use smtp_to_max_relay.Prelude.Result.{Result, ok, err}
use smtp_to_max_relay.Prelude.Text.{
  Text, codes, text_eq, to_lower, trim, trim_space, has_prefix, has_suffix,
}

-- The cutset "<>" of strings.Trim.
abbrev pub is_angle : ℕ → Bool
is_angle c = c == b'<' || c == b'>'

unfoldable pub extract_smtp_path : Text → Text
extract_smtp_path v = trim_space (trim is_angle (trim_space v))

unfoldable pub is_allowed_recipient : Text → Text → Bool
is_allowed_recipient addr allowed_domain =
    has_suffix (trim is_angle (trim_space (to_lower addr)))
      (b'@' ∷ to_lower (trim_space allowed_domain))

-- The number of bytes of a code point in UTF-8.
unfoldable pub rune_size : ℕ → ℕ
rune_size c =
    if ltb c 0x80
    then 1
    else if ltb c 0x800
    then 2
    else if ltb c 0x10000
    then 3
    else if ltb c 0x110000
    then 4
    else 1

-- len(s)
unfoldable pub byte_length : Text → ℕ
byte_length [] = 0
byte_length (c ∷ s) = rune_size c + byte_length s

pub data ReadError : Type 0 where
  read_failed too_large : ReadError

abbrev pub dot_crlf : Text
dot_crlf = b'.' ∷ 13 ∷ 10 ∷ []

abbrev pub dot_lf : Text
dot_lf = b'.' ∷ 10 ∷ []

abbrev pub is_end : Text → Bool
is_end line = text_eq line dot_crlf || text_eq line dot_lf

-- Without the first of two dots.
unfoldable pub unstuffed : Text → Text
unstuffed line = if has_prefix line (codes "..") then drop 1 line else line

-- The loop of readData, with what the buffer holds, and the lines that it leaves.
unfoldable pub read_lines : ℕ → Text → List Text → Result ReadError Text × List Text
read_lines max_bytes buf [] = (err read_failed, [])
read_lines max_bytes buf (line ∷ rest) =
    let full = buf ++ unstuffed line in
    let more = read_lines max_bytes full rest in
    if is_end line
    then (ok buf, rest)
    else if ltb max_bytes (byte_length buf + byte_length (unstuffed line))
    then (err too_large, rest)
    else more

unfoldable pub read_data : ℕ → List Text → Result ReadError Text × List Text
read_data max_bytes lines = read_lines max_bytes [] lines
