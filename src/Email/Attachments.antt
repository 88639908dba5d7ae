-- ===== src/Email/Attachments.antt =====
-- internal/email/parser.go: which parts become attachments.
use smtp_to_max_relay.Prelude.{
  Bool, true, false, ◌||◌, List, [], ◌∷◌, ◌++◌, Option, none, some, ◌≡◌, refl, arith, Bool-cases,
  inl, inr, All, All-append, map, is_empty, sym, ap, subst, ◌∙◌,
}
use smtp_to_max_relay.Prelude.Text.{Text, contains, has_prefix, to_lower, trim_space, codes}
use smtp_to_max_relay.Prelude.Text.Laws.{contains-append, text_eq_iff, text_eq_refl}
use smtp_to_max_relay.Prelude.Assoc.{Distinct}
use smtp_to_max_relay.Email.{
  Part, Envelope, should_expose_as_attachment, exposed_parts, envelope_parts,
}

abbrev pub ids : List Part → List Text
ids parts = map (λ (p : Part). p.part_id) parts

abbrev pub Exposed : Part → Type 0
Exposed p =
    (is_empty p.content ≡ false)
    × (has_prefix (to_lower (trim_space p.content_type)) (codes "multipart/") ≡ false)

should_expose-Exposed :
    (part : Part) (include_text : Bool)
    → should_expose_as_attachment part include_text ≡ true
    → Exposed part
unfolding should_expose_as_attachment
should_expose-Exposed part include_text h = ground (arith, h)

-- What some passes take, given the ids seen before them, and the ids seen behind them.
record IsPass (seen : List Text) (r : List Part × List Text) : Type 0 where
  exposed : All Exposed r.0
  distinct : Distinct (ids r.0)
  new : (t : Text) → contains t (ids r.0) ≡ true → contains t seen ≡ false
  seen_behind : (t : Text) → contains t r.1 ≡ (contains t seen || contains t (ids r.0))

IsPass-nothing : (seen : List Text) → IsPass seen ([], seen)
unfolding contains
IsPass-nothing seen = record {
  exposed = tt;
  distinct = tt;
  new = λ t h. ground (arith, h);
  seen_behind = λ t. ground arith;
}

IsPass-cons :
    (seen : List Text) (part : Part) (r : List Part × List Text)
    → Exposed part
    → contains part.part_id seen ≡ false
    → IsPass (part.part_id ∷ seen) r
    → IsPass seen (part ∷ r.0, r.1)
unfolding contains
IsPass-cons seen part r e f h = record {
  exposed = (e, h.exposed);
  distinct = (ground (arith, h.new part.part_id, text_eq_refl part.part_id), h.distinct);
  new = λ t k. ground (arith, h.new t, k, f, text_eq_iff part.part_id t);
  seen_behind = λ t. ground (arith, h.seen_behind t);
}

exposed_parts-IsPass :
    (include_text : Bool) (parts : List (Option Part)) (seen : List Text)
    → IsPass seen (exposed_parts include_text parts seen)
unfolding exposed_parts
exposed_parts-IsPass include_text [] seen = IsPass-nothing seen
exposed_parts-IsPass include_text (none ∷ parts) seen = exposed_parts-IsPass include_text parts seen
exposed_parts-IsPass include_text (some part ∷ parts) seen =
    elim (Bool-cases (should_expose_as_attachment part include_text)) [
      | inr e ↦ rw e (exposed_parts-IsPass include_text parts seen)
      | inl e ↦ elim (Bool-cases (contains part.part_id seen)) [
        | inl f ↦ rw (e, f) (exposed_parts-IsPass include_text parts seen)
        | inr f ↦
            rw (e, f)
              (IsPass-cons seen part _ (should_expose-Exposed part include_text e) f
                (exposed_parts-IsPass include_text parts (part.part_id ∷ seen)))
      ]
    ]

Distinct-append :
    (xs ys : List Text)
    → Distinct xs
    → Distinct ys
    → ((t : Text) → contains t ys ≡ true → contains t xs ≡ false)
    → Distinct (xs ++ ys)
unfolding contains
Distinct-append [] ys d e h = e
Distinct-append (x ∷ xs) ys d e h = (
  ground (arith, contains-append x xs ys, d.0, h x, text_eq_refl x),
  Distinct-append xs ys d.1 e (λ t k. ground (arith, h t, k)),
)

ids-append : (a b : List Part) → ids (a ++ b) ≡ ids a ++ ids b
ids-append [] b = refl
ids-append (x ∷ a) b = ap (λ l. x.part_id ∷ l) (ids-append a b)

contains-ids-append :
    (t : Text) (a b : List Part)
    → contains t (ids (a ++ b)) ≡ (contains t (ids a) || contains t (ids b))
contains-ids-append t a b = ap (contains t) (ids-append a b) ∙ contains-append t (ids a) (ids b)

IsPass-append :
    (seen : List Text) (first second : List Part × List Text)
    → IsPass seen first
    → IsPass first.1 second
    → IsPass seen (first.0 ++ second.0, second.1)
IsPass-append seen first second h k = record {
  exposed = All-append Exposed first.0 second.0 h.exposed k.exposed;
  distinct = subst Distinct (sym (ids-append first.0 second.0)) (
      Distinct-append (ids first.0) (ids second.0) h.distinct k.distinct
        (λ t c. ground (arith, k.new t c, h.seen_behind t)));
  new = λ t c.
      ground (arith, c, contains-ids-append t first.0 second.0, h.new t, k.new t, h.seen_behind t);
  seen_behind =
      λ t. ground (arith, contains-ids-append t first.0 second.0, h.seen_behind t, k.seen_behind t);
}

-- The parts of an envelope that become attachments have pairwise different ids, whichever of the three
-- lists a part stands in, and each has a content and is not a multipart container.
pub envelope_parts_lem :
    (env : Envelope) → Distinct (ids (envelope_parts env)) × All Exposed (envelope_parts env)
unfolding envelope_parts
envelope_parts_lem env =
    let first = exposed_parts true env.attached [] in
    let second = exposed_parts false env.inlines first.1 in
    let third = exposed_parts false env.other_parts second.1 in
    let whole =
      IsPass-append [] (first.0 ++ second.0, second.1) third
        (IsPass-append [] first second (exposed_parts-IsPass true env.attached [])
          (exposed_parts-IsPass false env.inlines first.1))
        (exposed_parts-IsPass false env.other_parts second.1) in
    (whole.distinct, whole.exposed)
