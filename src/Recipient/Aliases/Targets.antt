-- ===== src/Recipient/Aliases/Targets.antt =====
-- What the target lists hold after normalizing, merging and removing.
use smtp_to_max_relay.Prelude.{
  Bool, true, false, not, ◌&&◌, ◌||◌, List, [], ◌∷◌, ◌++◌, ◌≡◌, refl, ◌∙◌, inl, inr, arith,
  if◌then◌else◌, is_empty, any, Bool-cases,
}
use smtp_to_max_relay.Prelude.Text.{Text, text_eq, contains}
use smtp_to_max_relay.Prelude.Text.Laws.{
  text_eq_iff, text_eq_refl, contains-append, contains-filter,
}
use smtp_to_max_relay.Prelude.Assoc.{Distinct}
use smtp_to_max_relay.Recipient.Aliases.{
  normal_form, add_new, merge, normalize_onto, normalize_alias_targets, without,
}

contains-add_new :
    (t : Text) (out : List Text) (x : Text)
    → contains t (add_new out x) ≡ (contains t out || text_eq x t)
contains-add_new t out x = elim (Bool-cases (contains x out)) [
  | inl e ↦ rw e (ground (arith, text_eq_iff x t))
  | inr e ↦ rw e (contains-append t out (x ∷ []) ∙ unfold contains in ground arith)
]

Distinct-concat :
    (out : List Text) (x : Text)
    → Distinct out
    → contains x out ≡ false
    → Distinct (out ++ (x ∷ []))
unfolding contains
Distinct-concat [] x h e = (refl, tt)
Distinct-concat (y ∷ out) x h e = ground (
  arith,
  Distinct-concat out x h.1,
  contains-append y out (x ∷ []),
  text_eq_iff x y,
  text_eq_iff y x,
)

add_new-Distinct : (out : List Text) (x : Text) → Distinct out → Distinct (add_new out x)
add_new-Distinct out x h = ground (arith, Distinct-concat out x h)

-- A merge is the union, in the order of the first appearance.
pub contains-merge :
    (t : Text) (out items : List Text)
    → contains t (merge out items) ≡ (contains t out || contains t items)
unfolding merge contains
contains-merge t out [] = ground arith
contains-merge t out (x ∷ items) =
    contains-merge t (add_new out x) items ∙ rw (contains-add_new t out x) (ground arith)

pub merge-Distinct : (out items : List Text) → Distinct out → Distinct (merge out items)
unfolding merge
merge-Distinct out [] h = h
merge-Distinct out (x ∷ items) h = merge-Distinct (add_new out x) items (add_new-Distinct out x h)

abbrev pub names : Text → List Text → Bool
names t items = any (λ item. text_eq (normal_form item) t) items

contains-normalize_onto :
    (t : Text) (out items : List Text)
    → contains t (normalize_onto out items)
      ≡ (contains t out || (not (is_empty t) && names t items))
unfolding normalize_onto
contains-normalize_onto t out [] = ground arith
contains-normalize_onto t out (x ∷ items) = elim (Bool-cases (is_empty (normal_form x))) [
  | inl e ↦
      rw e (contains-normalize_onto t out items ∙ ground (arith, text_eq_iff (normal_form x) t))
  | inr e ↦ rw e (
      contains-normalize_onto t (add_new out (normal_form x)) items
      ∙ rw (contains-add_new t out (normal_form x)) (ground (arith, text_eq_iff (normal_form x) t)))
]

-- The normalized list holds a target exactly if it is not empty and is an item's normal form.
pub contains-normalize_alias_targets :
    (t : Text) (items : List Text)
    → contains t (normalize_alias_targets items) ≡ (not (is_empty t) && names t items)
unfolding normalize_alias_targets contains
contains-normalize_alias_targets t items = contains-normalize_onto t [] items

normalize_onto-Distinct :
    (out items : List Text) → Distinct out → Distinct (normalize_onto out items)
unfolding normalize_onto
normalize_onto-Distinct out [] h = h
normalize_onto-Distinct out (x ∷ items) h =
    normalize_onto-Distinct (if is_empty (normal_form x) then out else add_new out (normal_form x))
      items (ground (arith, add_new-Distinct out (normal_form x) h))

pub normalize_alias_targets-Distinct :
    (items : List Text) → Distinct (normalize_alias_targets items)
unfolding normalize_alias_targets
normalize_alias_targets-Distinct items = normalize_onto-Distinct [] items tt

pub without-Distinct :
    (removed existing : List Text) → Distinct existing → Distinct (without removed existing)
without-Distinct removed [] h = tt
without-Distinct removed (x ∷ existing) h = ground (
  arith,
  without-Distinct removed existing h.1,
  contains-filter x (λ item. not (contains item removed)) existing,
)

pub contains-without :
    (t : Text) (removed existing : List Text)
    → contains t (without removed existing) ≡ (contains t existing && not (contains t removed))
contains-without t removed existing =
    contains-filter t (λ item. not (contains item removed)) existing

-- A list is empty exactly if it holds nothing.
pub is_empty_of_none : (xs : List Text) → ((t : Text) → contains t xs ≡ false) → is_empty xs ≡ true
unfolding contains
is_empty_of_none [] h = refl
is_empty_of_none (x ∷ xs) h = ground (arith, h x, text_eq_refl x)

-- Some item is not blank.
abbrev pub any_target : List Text → Bool
any_target items = any (λ item. not (is_empty (normal_form item))) items

is_empty-concat : (out : List Text) (x : Text) → is_empty (out ++ (x ∷ [])) ≡ false
is_empty-concat [] x = refl
is_empty-concat (y ∷ out) x = refl

is_empty-normalize_onto :
    (out items : List Text)
    → is_empty (normalize_onto out items) ≡ (is_empty out && not (any_target items))
unfolding normalize_onto contains
is_empty-normalize_onto out [] = ground arith
is_empty-normalize_onto out (x ∷ items) = elim (Bool-cases (is_empty (normal_form x))) [
  | inl e ↦ rw e (is_empty-normalize_onto out items)
  | inr e ↦ rw e (
      is_empty-normalize_onto (add_new out (normal_form x)) items
      ∙ added out (contains (normal_form x) out) refl)
]
  where
    added :
        (out : List Text) (b : Bool)
        → contains (normal_form x) out ≡ b
        → (is_empty (if b then out else out ++ (normal_form x ∷ [])) && not (any_target items))
          ≡ (is_empty out && false)
    added [] true e = ground arith
    added (y ∷ ys) true e = refl
    added out false e = ground (arith, is_empty-concat out (normal_form x))

pub is_empty-normalize_alias_targets :
    (items : List Text) → is_empty (normalize_alias_targets items) ≡ not (any_target items)
unfolding normalize_alias_targets
is_empty-normalize_alias_targets items = is_empty-normalize_onto [] items
