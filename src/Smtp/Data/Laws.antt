-- ===== src/Smtp/Data/Laws.antt =====
-- internal/smtp/server.go: readData takes back the dot-stuffing of a client, within the limit.
use mathlib.Core.List.{append_assoc, append-nil}
use smtp_to_max_relay.Prelude.{
  ℕ, ◌+◌, ◌≤◌, true, false, ◌≡◌, refl, List, [], ◌∷◌, ◌++◌, arith, if◌then◌else◌, ltb, ◌==◌, All,
  ap, sym, ◌<◌, map, Bool-cases, inl, inr,
}
use smtp_to_max_relay.Prelude.Result.{Result, ok, err}
use smtp_to_max_relay.Prelude.Text.{Text, text_eq, has_prefix}
use smtp_to_max_relay.Prelude.Text.Laws.{text_eq_refl}
use smtp_to_max_relay.Smtp.Data.{
  ReadError, read_failed, too_large, dot_crlf, is_end, unstuffed, byte_length, read_lines,
  read_data,
}

-- What a client sends for a line of the message (RFC 5321, 4.5.2).
unfoldable pub stuffed : Text → Text
stuffed [] = []
stuffed (c ∷ line) = if c == b'.' then b'.' ∷ b'.' ∷ line else c ∷ line

unfoldable pub concat : List Text → Text
concat [] = []
concat (line ∷ lines) = line ++ concat lines

byte_length-append : (s t : Text) → byte_length (s ++ t) ≡ byte_length s + byte_length t
unfolding byte_length
byte_length-append [] t = omega arith
byte_length-append (c ∷ s) t = omega (arith, byte_length-append s t)

unstuffed-stuffed : (line : Text) → unstuffed (stuffed line) ≡ line
unfolding unstuffed stuffed has_prefix
unstuffed-stuffed [] = refl
unstuffed-stuffed (c ∷ line) = ground arith

stuffed-not-end : (line : Text) → is_end (stuffed line) ≡ false
unfolding stuffed text_eq
stuffed-not-end [] = refl
stuffed-not-end (c ∷ line) = ground arith

read_lines-stuffed :
    (max_bytes : ℕ) (buf : Text) (lines rest : List Text)
    → byte_length buf + byte_length (concat lines) ≤ max_bytes
    → read_lines max_bytes buf (map stuffed lines ++ dot_crlf ∷ rest)
      ≡ (ok (buf ++ concat lines), rest)
unfolding read_lines concat byte_length
read_lines-stuffed max_bytes buf [] rest h =
    let ends : is_end dot_crlf ≡ true = rw (text_eq_refl dot_crlf) refl in
    rw (ends, append-nil buf) refl
read_lines-stuffed max_bytes buf (line ∷ lines) rest h =
    let full = buf ++ line in
    let before = byte_length-append buf line in
    let behind = byte_length-append line (concat lines) in
    let fits : byte_length full + byte_length (concat lines) ≤ max_bytes =
      omega (arith, before, behind, h) in
    let small : ltb max_bytes (byte_length buf + byte_length line) ≡ false =
      ground (arith, before, behind, h) in
    rw
      (
        stuffed-not-end line,
        unstuffed-stuffed line,
        small,
        sym (append_assoc buf line (concat lines)),
      )
      (read_lines-stuffed max_bytes full lines rest fits)

-- Reading takes back the stuffing: a message of any lines, each sent with a dot before its leading dot
-- and the end mark behind them all, is read as it was, and the lines behind the mark are left, when
-- its bytes are within the limit.
pub read_data-stuffed :
    (max_bytes : ℕ) (lines rest : List Text)
    → byte_length (concat lines) ≤ max_bytes
    → read_data max_bytes (map stuffed lines ++ dot_crlf ∷ rest) ≡ (ok (concat lines), rest)
unfolding read_data byte_length
read_data-stuffed max_bytes lines rest h =
    read_lines-stuffed max_bytes [] lines rest (omega (arith, h))

-- Lines of the message: none is the end mark.
abbrev pub Body : List Text → Type 0
Body = All (λ line. is_end line ≡ false)

-- What the buffer holds behind these lines.
abbrev pub taken : Text → List Text → Text
taken buf [] = buf
taken buf (line ∷ lines) = taken (buf ++ unstuffed line) lines

-- The three ways in which reading ends.
pub data IsRead (max_bytes : ℕ) (buf : Text) (lines : List Text)
    : Result ReadError Text × List Text → Type 0 where
  ended :
      (body : List Text) (mark : Text) (rest : List Text)
      → Body body
      → is_end mark ≡ true
      → lines ≡ body ++ mark ∷ rest
      → byte_length (taken buf body) ≤ max_bytes
      → IsRead max_bytes buf lines (ok (taken buf body), rest)
  overflowed :
      (body rest : List Text)
      → Body body
      → lines ≡ body ++ rest
      → max_bytes < byte_length (taken buf body)
      → IsRead max_bytes buf lines (err too_large, rest)
  broken_off :
      Body lines
      → byte_length (taken buf lines) ≤ max_bytes
      → IsRead max_bytes buf lines (err read_failed, [])

IsRead-cons :
    (max_bytes : ℕ) (buf line : Text) (lines : List Text) (r : Result ReadError Text × List Text)
    → is_end line ≡ false
    → IsRead max_bytes (buf ++ unstuffed line) lines r
    → IsRead max_bytes buf (line ∷ lines) r
IsRead-cons max_bytes buf line lines r n (ended body mark rest h m e fits) =
    ended (line ∷ body) mark rest (n, h) m (ap (λ l. line ∷ l) e) fits
IsRead-cons max_bytes buf line lines r n (overflowed body rest h e large) =
    overflowed (line ∷ body) rest (n, h) (ap (λ l. line ∷ l) e) large
IsRead-cons max_bytes buf line lines r n (broken_off h fits) = broken_off (n, h) fits

read_lines-IsRead :
    (max_bytes : ℕ) (buf : Text) (lines : List Text)
    → byte_length buf ≤ max_bytes
    → IsRead max_bytes buf lines (read_lines max_bytes buf lines)
unfolding read_lines
read_lines-IsRead max_bytes buf [] h = broken_off tt h
read_lines-IsRead max_bytes buf (line ∷ lines) h =
    let u = unstuffed line in
    let size = byte_length-append buf u in
    elim (Bool-cases (is_end line)) [
      | inl e ↦ rw e (ended [] line lines tt e refl h)
      | inr e ↦ elim (Bool-cases (ltb max_bytes (byte_length buf + byte_length u))) [
        | inl l ↦ rw (e, l) (overflowed (line ∷ []) lines (e, tt) refl (ground (arith, size, l)))
        | inr l ↦
            rw (e, l)
              (IsRead-cons max_bytes buf line lines _ e
                (read_lines-IsRead max_bytes (buf ++ u) lines (ground (arith, size, l))))
      ]
    ]

-- Every outcome of `read_data`: the lines before the first end mark, unstuffed, within the limit; or
-- an error with the first line that goes over the limit, all lines behind which are left in the
-- reader; or an error at the end of the input.
pub read_data-IsRead :
    (max_bytes : ℕ) (lines : List Text) → IsRead max_bytes [] lines (read_data max_bytes lines)
unfolding read_data byte_length
read_data-IsRead max_bytes lines = read_lines-IsRead max_bytes [] lines (omega arith)

le-taken : (buf : Text) (body : List Text) → byte_length buf ≤ byte_length (taken buf body)
le-taken buf [] = omega arith
le-taken buf (line ∷ body) =
    omega (arith, byte_length-append buf (unstuffed line), le-taken (buf ++ unstuffed line) body)

read_lines-oversized :
    (max_bytes : ℕ) (buf : Text) (body : List Text) (over : Text) (rest : List Text)
    → Body body
    → is_end over ≡ false
    → byte_length (taken buf body) ≤ max_bytes
    → max_bytes < byte_length (taken buf body) + byte_length (unstuffed over)
    → read_lines max_bytes buf (body ++ over ∷ rest) ≡ (err too_large, rest)
unfolding read_lines
read_lines-oversized max_bytes buf [] over rest b e small large =
    let full : ltb max_bytes (byte_length buf + byte_length (unstuffed over)) ≡ true =
      ground (arith, large) in
    rw (e, full) refl
read_lines-oversized max_bytes buf (line ∷ body) over rest b e small large =
    let size = byte_length-append buf (unstuffed line) in
    let grows = le-taken (buf ++ unstuffed line) body in
    let fits : ltb max_bytes (byte_length buf + byte_length (unstuffed line)) ≡ false =
      ground (arith, size, grows, small) in
    rw (b.0, fits)
      (read_lines-oversized max_bytes (buf ++ unstuffed line) body over rest b.1 e small large)

-- Reading stops behind the line that goes over the limit, and leaves every line behind it.
pub read_data-oversized :
    (max_bytes : ℕ) (body : List Text) (over : Text) (rest : List Text)
    → Body body
    → is_end over ≡ false
    → byte_length (taken [] body) ≤ max_bytes
    → max_bytes < byte_length (taken [] body) + byte_length (unstuffed over)
    → read_data max_bytes (body ++ over ∷ rest) ≡ (err too_large, rest)
unfolding read_data
read_data-oversized max_bytes body over rest b e small large =
    read_lines-oversized max_bytes [] body over rest b e small large
