-- ===== src/Recipient/Aliases/Normal.antt =====
-- The normal form of names and targets: it is its own normal form.
use smtp_to_max_relay.Prelude.{
  ℕ, Bool, true, false, not, ◌&&◌, List, [], ◌∷◌, ◌≡◌, refl, sym, subst, ◌∙◌, inl, inr, arith,
  is_empty, all, ◌==◌, Bool-cases, ==_iff,
}
use smtp_to_max_relay.Prelude.Text.{
  Text, text_eq, contains, to_lower, lower_rune, trim_left, trim_right, trim, is_space,
}
use smtp_to_max_relay.Prelude.Text.Laws.{text_eq_iff, all-trim, trim_left_keeps}
use smtp_to_max_relay.Recipient.Aliases.{normal_form, normalize_alias_targets}
use smtp_to_max_relay.Recipient.Aliases.Targets.{names, contains-normalize_alias_targets}

lower_rune_twice : (c : ℕ) → lower_rune (lower_rune c) ≡ lower_rune c
unfolding lower_rune
lower_rune_twice c = ground arith

is_lower : ℕ → Bool
is_lower c = lower_rune c == c

all-to_lower : (s : Text) → all is_lower (to_lower s) ≡ true
unfolding is_lower
all-to_lower [] = refl
all-to_lower (c ∷ s) =
    ground
      (arith, lower_rune_twice c, all-to_lower s, ==_iff (lower_rune (lower_rune c)) (lower_rune c))

to_lower-all : (s : Text) → all is_lower s ≡ true → to_lower s ≡ s
unfolding is_lower
to_lower-all [] h = refl
to_lower-all (c ∷ s) h = ground (arith, to_lower-all s, ==_iff (lower_rune c) c)

module _ (p : ℕ → Bool) where
  -- A text that does not begin with what is trimmed.
  abbrev Starts : Text → Type 0
  Starts [] = Unit
  Starts (c ∷ s) = p c ≡ false

  trim_left-Starts : (s : Text) → Starts (trim_left p s)
  unfolding trim_left
  trim_left-Starts [] = tt
  trim_left-Starts (c ∷ s) = ground (arith, trim_left-Starts s)

  Starts-trim_right : (s : Text) → Starts s → Starts (trim_right p s)
  unfolding trim_right
  Starts-trim_right [] h = tt
  Starts-trim_right (c ∷ s) h = ground (arith, h)

  Starts-trim_left : (s : Text) → Starts s → trim_left p s ≡ s
  Starts-trim_left [] h = unfold trim_left in refl
  Starts-trim_left (c ∷ s) h = trim_left_keeps p c s h

  trim_right_twice : (s : Text) → trim_right p (trim_right p s) ≡ trim_right p s
  unfolding trim_right
  trim_right_twice [] = refl
  trim_right_twice (c ∷ s) = ground (arith, trim_right_twice s)

  trim_twice : (s : Text) → trim p (trim p s) ≡ trim p s
  trim_twice s =
      rw (Starts-trim_left (trim p s) (Starts-trim_right (trim_left p s) (trim_left-Starts s)))
        (trim_right_twice (trim_left p s))

pub normal_form_twice : (s : Text) → normal_form (normal_form s) ≡ normal_form s
normal_form_twice s =
    rw (to_lower-all (normal_form s) (all-trim is_space is_lower (to_lower s) (all-to_lower s)))
      (trim_twice is_space (to_lower s))

abbrev pub IsNormal : Text → Type 0
IsNormal t = (is_empty t ≡ false) × (normal_form t ≡ t)

abbrev pub AreNormal : List Text → Type 0
AreNormal ts = (t : Text) → contains t ts ≡ true → IsNormal t

names-normal : (t : Text) (items : List Text) → names t items ≡ true → normal_form t ≡ t
names-normal t [] h = cc
names-normal t (x ∷ items) h = elim (Bool-cases (text_eq (normal_form x) t)) [
  | inl e ↦ subst (λ u. normal_form u ≡ u) ((text_eq_iff _ _).0 e) (normal_form_twice x)
  | inr e ↦ names-normal t items (ground (arith, e, h))
]

pub normalize_alias_targets-AreNormal :
    (items : List Text) → AreNormal (normalize_alias_targets items)
normalize_alias_targets-AreNormal items t h =
    let both : (not (is_empty t) && names t items) ≡ true =
      sym (contains-normalize_alias_targets t items) ∙ h in
    (ground (arith, both), names-normal t items (ground (arith, both)))
