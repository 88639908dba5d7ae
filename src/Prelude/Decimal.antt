-- ===== src/Prelude/Decimal.antt =====
-- strconv.FormatInt and strconv.ParseInt with base 10 and 64 bits. An int64 is the residue mod 2^64 of a
-- two's complement number.
use Prim.Native.Nat.{ℕ, zero, suc, ◌+◌, ◌-◌, ◌*◌, ◌/◌, ◌%◌, ◌^◌, ◌≤◌, ◌<◌}
use mathlib.Core.Path.{◌≡◌, refl, ◌∙◌}
use mathlib.Core.Logic.{inl, inr}
use mathlib.Core.Bool.{Bool, true, false, not, ◌||◌}
use mathlib.Core.Option.{Option, none, some}
use mathlib.Core.List.{[], ◌∷◌, ◌++◌}
use native.Mathlib.Omega.{arith}
use smtp_to_max_relay.Prelude.Tests.{ltb, leb, ◌==◌, if◌then◌else◌, Bool-cases}
use smtp_to_max_relay.Prelude.Lists.{is_empty, all, all-append}
use smtp_to_max_relay.Prelude.Text.{Text, is_digit}

abbrev pub word : ℕ → ℕ
word n = n % 2 ^ 64

abbrev pub is_negative : ℕ → Bool
is_negative n = leb (2 ^ 63) n

unfoldable pub digits_value : ℕ → Text → ℕ
digits_value acc [] = acc
digits_value acc (c ∷ s) = digits_value (acc * 10 + (c - b'0')) s

-- The digits behind the sign, in the range of the sign.
signed_digits : Bool → Text → Option ℕ
unfolding digits_value
signed_digits negative s =
    let v = digits_value 0 s in
    if is_empty s || not (all is_digit s)
    then none
    else if negative
    then (if leb v (2 ^ 63) then some (word (2 ^ 64 - v)) else none)
    else (if ltb v (2 ^ 63) then some v else none)

-- strconv.Atoi, strconv.ParseInt with base 10 and 64 bits
unfoldable pub parse_int : Text → Option ℕ
unfolding signed_digits
parse_int [] = none
parse_int (c ∷ s) =
    if c == b'-'
    then signed_digits true s
    else if c == b'+'
    then signed_digits false s
    else signed_digits false (c ∷ s)

-- The digits of a number, on fuel for as many digits as the number: it has no more.
digits_of : ℕ → ℕ → Text
digits_of zero n = (b'0' + n) ∷ []
digits_of (suc fuel) n =
    let rest = digits_of fuel (n / 10) in
    if ltb n 10 then (b'0' + n) ∷ [] else rest ++ ((b'0' + n % 10) ∷ [])

-- strconv.Itoa of a number that is not negative
unfoldable pub decimal : ℕ → Text
unfolding digits_of
decimal n = digits_of n n

-- The magnitude of an int64.
abbrev pub magnitude : ℕ → ℕ
magnitude n = if is_negative n then 2 ^ 64 - n else n

-- strconv.FormatInt with base 10
unfoldable pub format_int : ℕ → Text
format_int n = if is_negative n then b'-' ∷ decimal (magnitude n) else decimal (magnitude n)

digits_value_snoc :
    (acc : ℕ) (s : Text) (c : ℕ)
    → digits_value acc (s ++ (c ∷ [])) ≡ digits_value acc s * 10 + (c - b'0')
unfolding digits_value
digits_value_snoc acc [] c = refl
digits_value_snoc acc (d ∷ s) c = digits_value_snoc (acc * 10 + (d - b'0')) s c

digits_of-value : (fuel n : ℕ) → n ≤ fuel → digits_value 0 (digits_of fuel n) ≡ n
unfolding digits_of digits_value
digits_of-value zero n h = omega (arith, h)
digits_of-value (suc fuel) n h = elim (Bool-cases (ltb n 10)) [
  | inl e ↦ rw e (omega arith)
  | inr e ↦ rw e (
      digits_value_snoc 0 (digits_of fuel (n / 10)) (b'0' + n % 10)
      ∙ rw (digits_of-value fuel (n / 10) (ground (arith, e, h))) (omega arith))
]

all-digits_of : (fuel n : ℕ) → n ≤ fuel → all is_digit (digits_of fuel n) ≡ true
unfolding digits_of is_digit
all-digits_of zero n h = ground (arith, h)
all-digits_of (suc fuel) n h = elim (Bool-cases (ltb n 10)) [
  | inl e ↦ rw e (ground (arith, e))
  | inr e ↦ rw e (
      all-append is_digit (digits_of fuel (n / 10)) ((b'0' + n % 10) ∷ [])
      ∙ rw (all-digits_of fuel (n / 10) (ground (arith, e, h))) (ground arith))
]

is_empty-append_one : (s : Text) (c : ℕ) → is_empty (s ++ (c ∷ [])) ≡ false
is_empty-append_one [] c = refl
is_empty-append_one (d ∷ s) c = refl

is_empty-digits_of : (fuel n : ℕ) → is_empty (digits_of fuel n) ≡ false
unfolding digits_of
is_empty-digits_of zero n = refl
is_empty-digits_of (suc fuel) n =
    ground (arith, is_empty-append_one (digits_of fuel (n / 10)) (b'0' + n % 10))

pub all-decimal : (n : ℕ) → all is_digit (decimal n) ≡ true
unfolding decimal
all-decimal n = all-digits_of n n (omega arith)

pub is_empty-decimal : (n : ℕ) → is_empty (decimal n) ≡ false
unfolding decimal
is_empty-decimal n = is_empty-digits_of n n

decimal-value : (n : ℕ) → digits_value 0 (decimal n) ≡ n
unfolding decimal
decimal-value n = digits_of-value n n (omega arith)

-- A digit is no sign, so that digits are read as they are.
parse_int-digits :
    (s : Text) → all is_digit s ≡ true → is_empty s ≡ false → parse_int s ≡ signed_digits false s
unfolding parse_int is_digit
parse_int-digits [] h e = absurd (ground (arith, e))
parse_int-digits (c ∷ s) h e = elim (Bool-cases (c == b'-')) [
  | inl x ↦ absurd (ground (arith, h, x))
  | inr x ↦ elim (Bool-cases (c == b'+')) [
    | inl y ↦ absurd (ground (arith, h, y))
    | inr y ↦ rw (x, y) refl
  ]
]

signed_digits-decimal :
    (negative : Bool) (v : ℕ)
    → signed_digits negative (decimal v) ≡ (
        if negative
        then (if leb v (2 ^ 63) then some (word (2 ^ 64 - v)) else none)
        else (if ltb v (2 ^ 63) then some v else none))
unfolding signed_digits
signed_digits-decimal negative v = rw (is_empty-decimal v, all-decimal v, decimal-value v) refl

-- ParseInt reads back what FormatInt writes, for every int64.
pub parse_int-format_int : (n : ℕ) → n < 2 ^ 64 → parse_int (format_int n) ≡ some n
unfolding format_int parse_int
parse_int-format_int n h = elim (Bool-cases (is_negative n)) [
  | inl e ↦ rw e (signed_digits-decimal true (2 ^ 64 - n) ∙ ground (arith, e, h))
  | inr e ↦ rw e (
      parse_int-digits (decimal n) (all-decimal n) (is_empty-decimal n)
      ∙ signed_digits-decimal false n
      ∙ ground (arith, e, h))
]
