-- ===== src/Prelude/Text.antt =====
-- Go strings as lists of code points, and the functions of package strings that the program calls.
-- `unicode.IsSpace` is complete. `unicode.ToLower` has ASCII, Latin-1, Cyrillic and the two other
-- letters whose lower case is ASCII; the letters of other scripts are left as they are.
pub mod Laws
use Prim.Native.Nat.{ℕ, zero, suc, ◌+◌, ◌-◌}
use Prim.Native.Char.{code}
use Prim.Native.String.{String}
use mathlib.Core.Bool.{Bool, true, false, not, ◌&&◌, ◌||◌}
use mathlib.Core.Option.{Option, none, some}
use mathlib.Core.List.{List, [], ◌∷◌, ◌++◌, map}
use smtp_to_max_relay.Prelude.Tests.{ltb, leb, ◌==◌, within, if◌then◌else◌}
use smtp_to_max_relay.Prelude.Lists.{length, drop, filter, is_empty}

abbrev pub Text : Type 0
Text = List ℕ

-- The code points of a literal.
abbrev pub codes : String → Text
codes String.[] = []
codes (String.◌∷◌ c s) = code c ∷ codes s

-- s == t
unfoldable pub text_eq : Text → Text → Bool
text_eq [] [] = true
text_eq (x ∷ xs) (y ∷ ys) = x == y && text_eq xs ys
text_eq _ _ = false

-- s < t; the order of the code points is that of their UTF-8
unfoldable pub text_before : Text → Text → Bool
text_before _ [] = false
text_before [] (y ∷ ys) = true
text_before (x ∷ xs) (y ∷ ys) = ltb x y || (x == y && text_before xs ys)

-- Is the text among these? (a Go set `map[string]struct{}`)
unfoldable pub contains : Text → List Text → Bool
contains t [] = false
contains t (x ∷ xs) = text_eq x t || contains t xs

unfoldable pub is_space : ℕ → Bool
is_space c =
    within 9 13 c
    || c == 32
    || c == 0x85
    || c == 0xa0
    || c == 0x1680
    || within 0x2000 0x200a c
    || within 0x2028 0x2029 c
    || c == 0x202f
    || c == 0x205f
    || c == 0x3000

unfoldable pub lower_rune : ℕ → ℕ
lower_rune c =
    if within b'A' b'Z' c
    then c + 32
    else if leb c 0x7f
    then c
    else if within 0xc0 0xde c && not (c == 0xd7)
    then c + 32
    else if c == 0x130
    then b'i'
    else if within 0x400 0x40f c
    then c + 80
    else if within 0x410 0x42f c
    then c + 32
    else if c == 0x212a
    then b'k'
    else c

-- strings.ToLower
abbrev pub to_lower : Text → Text
to_lower = map lower_rune

module _ (p : ℕ → Bool) where
  unfoldable pub trim_left : Text → Text
  trim_left [] = []
  trim_left (c ∷ s) = let rest = trim_left s in if p c then rest else c ∷ s

  unfoldable pub trim_right : Text → Text
  trim_right [] = []
  trim_right (c ∷ s) = let rest = trim_right s in if is_empty rest && p c then [] else c ∷ rest

  -- strings.TrimFunc
  abbrev pub trim : Text → Text
  trim s = trim_right (trim_left s)

-- strings.TrimSpace
abbrev pub trim_space : Text → Text
trim_space = trim is_space

unfoldable pub has_prefix : Text → Text → Bool
has_prefix s [] = true
has_prefix [] (p ∷ ps) = false
has_prefix (c ∷ s) (p ∷ ps) = c == p && has_prefix s ps

-- strings.TrimPrefix
abbrev pub trim_prefix : Text → Text → Text
trim_prefix s p = if has_prefix s p then drop (length p) s else s

unfoldable pub has_suffix : Text → Text → Bool
unfolding text_eq
has_suffix s p = leb (length p) (length s) && text_eq (drop (length s - length p) s) p

-- strings.Contains, for one code point
unfoldable pub contains_rune : ℕ → Text → Bool
contains_rune r [] = false
contains_rune r (c ∷ s) = c == r || contains_rune r s

-- strings.Index for one code point, as the two slices around it
unfoldable pub cut : ℕ → Text → Option (Text × Text)
cut r [] = none
cut r (c ∷ s) =
    let rest : Option (Text × Text) = elim (cut r s) [
      | none ↦ none
      | some (before, after) ↦ some (c ∷ before, after)
    ] in
    if c == r then some ([], s) else rest

abbrev pub push_front : ℕ → List Text → List Text
push_front c [] = (c ∷ []) ∷ []
push_front c (p ∷ ps) = (c ∷ p) ∷ ps

-- The parts between the separators.
unfoldable pub split_by : (ℕ → Bool) → Text → List Text
split_by p [] = [] ∷ []
split_by p (c ∷ s) = let rest = split_by p s in if p c then [] ∷ rest else push_front c rest

-- strings.Split, for one code point
abbrev pub split : ℕ → Text → List Text
split sep = split_by (λ c. c == sep)

-- strings.Fields
abbrev pub fields : Text → List Text
fields s = filter (λ part. not (is_empty part)) (split_by is_space s)

unfoldable pub join : Text → List Text → Text
join sep [] = []
join sep (p ∷ ps) = let rest = join sep ps in if is_empty ps then p else p ++ (sep ++ rest)

-- '0' ≤ r ≤ '9'
unfoldable pub is_digit : ℕ → Bool
is_digit c = within b'0' b'9' c
