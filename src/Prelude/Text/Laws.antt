-- ===== src/Prelude/Text/Laws.antt =====
-- Laws of the text functions: equality, trimming, cutting and splitting.
use Prim.Native.Nat.{ℕ}
use mathlib.Core.Path.{◌≡◌, refl}
use mathlib.Core.Bool.{Bool, true, false, not, ◌&&◌, ◌||◌}
use mathlib.Core.Logic.{◌↔◌, inl, inr}
use mathlib.Core.Option.{none, some}
use mathlib.Core.List.{List, [], ◌∷◌, ◌++◌}
use native.Mathlib.Omega.{arith}
use smtp_to_max_relay.Prelude.Tests.{◌==◌, Option-cases}
use smtp_to_max_relay.Prelude.Lists.{length, drop, all, filter}
use smtp_to_max_relay.Prelude.Text.{
  text_before, Text, text_eq, contains, trim_left, trim_right, trim, has_prefix, cut, split_by,
}

pub text_eq_iff : (s t : Text) → (text_eq s t ≡ true) ↔ (s ≡ t)
unfolding text_eq
text_eq_iff (x ∷ xs) (y ∷ ys) = ground (arith, text_eq_iff xs ys)
text_eq_iff _ _ = ground arith

pub text_eq_refl : (s : Text) → text_eq s s ≡ true
text_eq_refl s = (text_eq_iff s s).1 refl

pub contains-append :
    (t : Text) (xs ys : List Text) → contains t (xs ++ ys) ≡ (contains t xs || contains t ys)
unfolding contains
contains-append t [] ys = refl
contains-append t (x ∷ xs) ys = ground (arith, contains-append t xs ys)

pub contains-filter :
    (t : Text) (p : Text → Bool) (xs : List Text)
    → contains t (filter p xs) ≡ (contains t xs && p t)
unfolding contains
contains-filter t p [] = refl
contains-filter t p (x ∷ xs) = ground (arith, contains-filter t p xs, text_eq_iff x t)

module _ (p : ℕ → Bool) where
  -- A text with no trimmed character at either end is kept.
  pub trim_left_keeps : (c : ℕ) (s : Text) → p c ≡ false → trim_left p (c ∷ s) ≡ c ∷ s
  unfolding trim_left
  trim_left_keeps c s h = ground arith

  pub trim_right_keeps : (s : Text) → all (λ c. not (p c)) s ≡ true → trim_right p s ≡ s
  unfolding trim_right
  trim_right_keeps [] h = refl
  trim_right_keeps (c ∷ s) h = ground (arith, trim_right_keeps s)

  pub trim_keeps : (s : Text) → all (λ c. not (p c)) s ≡ true → trim p s ≡ s
  unfolding trim_left
  trim_keeps [] h = trim_right_keeps [] refl
  trim_keeps (c ∷ s) h = ground (arith, trim_left_keeps c s, trim_right_keeps (c ∷ s))

  all-trim_left : (q : ℕ → Bool) (s : Text) → all q s ≡ true → all q (trim_left p s) ≡ true
  unfolding trim_left
  all-trim_left q [] h = h
  all-trim_left q (c ∷ s) h = ground (arith, all-trim_left q s)

  all-trim_right : (q : ℕ → Bool) (s : Text) → all q s ≡ true → all q (trim_right p s) ≡ true
  unfolding trim_right
  all-trim_right q [] h = h
  all-trim_right q (c ∷ s) h = ground (arith, all-trim_right q s)

  -- Trimming brings no character in.
  pub all-trim : (q : ℕ → Bool) (s : Text) → all q s ≡ true → all q (trim p s) ≡ true
  all-trim q s h = all-trim_right q (trim_left p s) (all-trim_left q s h)

pub cut_append :
    (r : ℕ) (s t : Text) → all (λ c. not (c == r)) s ≡ true → cut r (s ++ r ∷ t) ≡ some (s, t)
unfolding cut
cut_append r [] t h = ground arith
cut_append r (c ∷ s) t h = ground (arith, cut_append r s t)

pub cut-none : (r : ℕ) (s : Text) → all (λ c. not (c == r)) s ≡ true → cut r s ≡ none
unfolding cut
cut-none r [] h = refl
cut-none r (c ∷ s) h = ground (arith, cut-none r s)

pub cut-eq-some : (r : ℕ) (s : Text) {a b : Text} → cut r s ≡ some (a, b) → s ≡ a ++ r ∷ b
unfolding cut
cut-eq-some r [] h = cc
cut-eq-some r (c ∷ s) h = elim (Option-cases (cut r s)) [
  | inl e ↦ ground arith
  | inr ((x, y), e) ↦ ground (arith, cut-eq-some r s {a = x} {b = y} e)
]

pub split_one : (p : ℕ → Bool) (s : Text) → all (λ c. not (p c)) s ≡ true → split_by p s ≡ s ∷ []
unfolding split_by
split_one p [] h = refl
split_one p (c ∷ s) h = ground (arith, split_one p s)

pub split_cons :
    (p : ℕ → Bool) (s : Text) (c : ℕ) (t : Text)
    → all (λ x. not (p x)) s ≡ true
    → p c ≡ true
    → split_by p (s ++ c ∷ t) ≡ s ∷ split_by p t
unfolding split_by
split_cons p [] c t h e = ground arith
split_cons p (x ∷ s) c t h e = ground (arith, split_cons p s c t)

pub has_prefix_append : (s t : Text) → has_prefix (s ++ t) s ≡ true
unfolding has_prefix
has_prefix_append [] t = refl
has_prefix_append (c ∷ s) t = ground (arith, has_prefix_append s t)

pub drop_append : (s t : Text) → drop (length s) (s ++ t) ≡ t
drop_append [] t = refl
drop_append (c ∷ s) t = drop_append s t

-- The order of texts is strict and total.
pub text_before_asym : (s t : Text) → text_before s t ≡ true → text_before t s ≡ false
unfolding text_before
text_before_asym s [] h = cc
text_before_asym [] (y ∷ ys) h = refl
text_before_asym (x ∷ xs) (y ∷ ys) h = ground (arith, h, text_before_asym xs ys)

pub text_before_trans :
    (s t u : Text) → text_before t s ≡ false → text_before u t ≡ false → text_before u s ≡ false
unfolding text_before
text_before_trans [] t u h k = refl
text_before_trans (x ∷ xs) [] u h k = cc
text_before_trans (x ∷ xs) (y ∷ ys) [] h k = cc
text_before_trans (x ∷ xs) (y ∷ ys) (z ∷ zs) h k = ground (arith, h, k, text_before_trans xs ys zs)
