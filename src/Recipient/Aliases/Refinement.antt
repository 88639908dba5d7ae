-- ===== src/Recipient/Aliases/Refinement.antt =====
-- The table as a relation between names and targets, and the edits as set operations on it.
use smtp_to_max_relay.Prelude.{
  Bool, true, false, not, ◌&&◌, ◌||◌, List, [], ◌∷◌, ◌≡◌, refl, ◌∙◌, inl, inr, arith, if◌then◌else◌,
  is_empty, Bool-cases,
}
use smtp_to_max_relay.Prelude.Text.{Text, text_eq, contains}
use smtp_to_max_relay.Prelude.Text.Laws.{text_eq_iff}
use smtp_to_max_relay.Prelude.Assoc.{Assoc, insert, delete, lookup-insert, lookup-delete}
use smtp_to_max_relay.Recipient.Address.{Parser}
use smtp_to_max_relay.Recipient.Aliases.Targets.{
  names, any_target, contains-merge, contains-normalize_alias_targets, contains-without,
  is_empty-normalize_alias_targets,
}
use smtp_to_max_relay.Recipient.Aliases.{
  normal_form, merge, normalize_alias_targets, without, is_no_edit, targets_at, set_alias_group,
  add_alias_targets, remove_alias_targets, delete_alias, put_merged, put_updated, AliasEdit,
  set_group, add_targets, remove_targets, remove_alias, edit, edits,
}

-- Does the name reach the target?
abbrev pub Reaches : Type 0
Reaches = Text → Text → Bool

abbrev pub reaches : Assoc (List Text) → Reaches
reaches aliases key t = contains t (targets_at key aliases)

-- The name that an edit is about; a blank one is no name.
abbrev pub is_named : Text → Text → Bool
is_named alias key = text_eq (normal_form alias) key && not (is_empty key)

abbrev pub is_item : List Text → Text → Bool
is_item items t = not (is_empty t) && names t items

-- What each edit is to do.
abbrev pub spec_edit : Reaches → AliasEdit → Reaches
spec_edit r (set_group alias items) key t =
    if is_named alias key && any_target items then is_item items t else r key t
spec_edit r (add_targets alias items) key t = r key t || (is_named alias key && is_item items t)
spec_edit r (remove_targets alias items) key t =
    r key t && not (is_named alias key && is_item items t)
spec_edit r (remove_alias alias) key t = r key t && not (is_named alias key)

abbrev pub spec_edits : Reaches → List AliasEdit → Reaches
spec_edits r [] = r
spec_edits r (e ∷ es) = spec_edits (spec_edit r e) es

abbrev pub Implements : Assoc (List Text) → Reaches → Type 0
Implements aliases r = (key t : Text) → reaches aliases key t ≡ r key t

reaches-insert :
    (k key t : Text) (ts : List Text) (aliases : Assoc (List Text))
    → reaches (insert k ts aliases) key t
      ≡ (if text_eq k key then contains t ts else reaches aliases key t)
reaches-insert k key t ts aliases = elim (Bool-cases (text_eq k key)) [
  | inl e ↦ rw (lookup-insert k key ts aliases, e, targets_at)
  | inr e ↦ rw (lookup-insert k key ts aliases, e, targets_at)
]

reaches-delete :
    (k key t : Text) (aliases : Assoc (List Text))
    → reaches (delete k aliases) key t ≡ (not (text_eq k key) && reaches aliases key t)
unfolding contains
reaches-delete k key t aliases = elim (Bool-cases (text_eq k key)) [
  | inl e ↦ rw (lookup-delete k key aliases, e, targets_at)
  | inr e ↦ rw (lookup-delete k key aliases, e, targets_at)
]

any_target_of_is_item :
    (items : List Text) (t : Text) → is_item items t ≡ true → any_target items ≡ true
any_target_of_is_item [] t h = ground arith
any_target_of_is_item (x ∷ items) t h =
    ground (arith, any_target_of_is_item items t, text_eq_iff (normal_form x) t)

is_no_edit_lem :
    (alias key : Text) (items : List Text)
    → text_eq (normal_form alias) key ≡ true
    → is_no_edit alias items ≡ not (not (is_empty key) && any_target items)
is_no_edit_lem alias key [] e =
    ground (arith, text_eq_iff (normal_form alias) key, is_empty-normalize_alias_targets [])
is_no_edit_lem alias key (x ∷ items) e =
    rw (is_empty-normalize_alias_targets (x ∷ items))
      (ground (arith, text_eq_iff (normal_form alias) key))

module _ (p : Parser) (key t : Text) where
  -- Both sides of an insertion under the alias's name.
  insert_cases :
      (alias : Text) (ts : List Text)
      → reaches (insert (normal_form alias) ts p.aliases) key t
        ≡ (if text_eq (normal_form alias) key then contains t ts else reaches p.aliases key t)
  insert_cases alias ts = reaches-insert (normal_form alias) key t ts p.aliases

  set_alias_group-reaches :
      (alias : Text) (items : List Text)
      → reaches (set_alias_group p alias items).aliases key t
        ≡ spec_edit (reaches p.aliases) (set_group alias items) key t
  unfolding set_alias_group
  set_alias_group-reaches alias items = elim (Bool-cases (is_no_edit alias items)) [
    | inl e ↦ rw e (ground (arith, is_no_edit_lem alias key items))
    | inr e ↦ rw e (
        insert_cases alias (normalize_alias_targets items)
        ∙ ground (arith, is_no_edit_lem alias key items, contains-normalize_alias_targets t items))
  ]

contains_of_is_empty : (xs : List Text) (t : Text) → is_empty xs ≡ true → contains t xs ≡ false
unfolding contains
contains_of_is_empty [] t h = refl
contains_of_is_empty (x ∷ xs) t h = cc

put_merged-reaches :
    (p : Parser) (k key t : Text) (merged : List Text)
    → reaches (put_merged p k merged).aliases key t ≡ (
        if text_eq k key && not (is_empty merged)
        then contains t merged
        else reaches p.aliases key t)
unfolding put_merged
put_merged-reaches p k key t merged = elim (Bool-cases (is_empty merged)) [
  | inl e ↦ rw e (ground arith)
  | inr e ↦ rw e (reaches-insert k key t merged p.aliases ∙ ground arith)
]

put_updated-reaches :
    (p : Parser) (k key t : Text) (updated : List Text)
    → reaches (put_updated p k updated).aliases key t
      ≡ (if text_eq k key then contains t updated else reaches p.aliases key t)
unfolding put_updated
put_updated-reaches p k key t updated = elim (Bool-cases (is_empty updated)) [
  | inl e ↦ rw e (reaches-delete k key t p.aliases ∙ ground (arith, contains_of_is_empty updated t))
  | inr e ↦ rw e (reaches-insert k key t updated p.aliases)
]

reaches_named :
    (k key t : Text) (aliases : Assoc (List Text))
    → text_eq k key ≡ true
    → contains t (targets_at k aliases) ≡ reaches aliases key t
reaches_named k key t aliases e = rw ((text_eq_iff k key).0 e)

module _ (p : Parser) (key t : Text) (alias : Text) where
  module _ (items : List Text) where
    add_alias_targets-reaches :
        reaches (add_alias_targets p alias items).aliases key t
        ≡ spec_edit (reaches p.aliases) (add_targets alias items) key t
    unfolding add_alias_targets contains
    add_alias_targets-reaches = elim (Bool-cases (is_no_edit alias items)) [
      | inl e ↦ rw e (ground (arith, is_no_edit_lem alias key items, any_target_of_is_item items t))
      | inr e ↦
          let k = normal_form alias in
          let old = targets_at k p.aliases in
          let new = normalize_alias_targets items in
          let merged = merge (merge [] old) new in
          rw e (
            put_merged-reaches p k key t merged
            ∙ ground (
              arith,
              is_no_edit_lem alias key items,
              contains-merge t (merge [] old) new,
              contains-merge t [] old,
              contains-normalize_alias_targets t items,
              contains_of_is_empty merged t,
              reaches_named k key t p.aliases,
            ))
    ]

    remove_alias_targets-reaches :
        reaches (remove_alias_targets p alias items).aliases key t
        ≡ spec_edit (reaches p.aliases) (remove_targets alias items) key t
    unfolding remove_alias_targets
    remove_alias_targets-reaches = elim (Bool-cases (is_no_edit alias items)) [
      | inl e ↦ rw e (ground (arith, is_no_edit_lem alias key items, any_target_of_is_item items t))
      | inr e ↦
          let k = normal_form alias in
          let old = targets_at k p.aliases in
          let gone = normalize_alias_targets items in
          let is_spec = is_no_edit_lem alias key items in
          elim (Bool-cases (is_empty old)) [
            | inl e' ↦
                rw (e, e')
                  (ground (arith, contains_of_is_empty old t, reaches_named k key t p.aliases))
            | inr e' ↦
                rw (e, e')
                  (put_updated-reaches p k key t (without gone old)
                    ∙ ground (
                      arith,
                      is_spec,
                      contains-without t gone old,
                      contains-normalize_alias_targets t items,
                      reaches_named k key t p.aliases,
                    ))
          ]
    ]

  delete_alias-reaches :
      reaches (delete_alias p alias).aliases key t
      ≡ spec_edit (reaches p.aliases) (remove_alias alias) key t
  unfolding delete_alias
  delete_alias-reaches = elim (Bool-cases (is_empty (normal_form alias))) [
    | inl e ↦ rw e (ground (arith, text_eq_iff (normal_form alias) key))
    | inr e ↦ rw e (
        reaches-delete (normal_form alias) key t p.aliases
        ∙ ground (arith, text_eq_iff (normal_form alias) key))
  ]

edit-reaches :
    (p : Parser) (e : AliasEdit) (key t : Text)
    → reaches (edit p e).aliases key t ≡ spec_edit (reaches p.aliases) e key t
unfolding edit
edit-reaches p (set_group alias items) key t = set_alias_group-reaches p key t alias items
edit-reaches p (add_targets alias items) key t = add_alias_targets-reaches p key t alias items
edit-reaches p (remove_targets alias items) key t = remove_alias_targets-reaches p key t alias items
edit-reaches p (remove_alias alias) key t = delete_alias-reaches p key t alias

spec_edit-cong :
    (r s : Reaches) (e : AliasEdit)
    → ((key t : Text) → r key t ≡ s key t)
    → (key t : Text) → spec_edit r e key t ≡ spec_edit s e key t
spec_edit-cong r s (set_group alias items) h key t = rw (h key t)
spec_edit-cong r s (add_targets alias items) h key t = rw (h key t)
spec_edit-cong r s (remove_targets alias items) h key t = rw (h key t)
spec_edit-cong r s (remove_alias alias) h key t = rw (h key t)

-- A table that reaches the targets of a relation still does after any sequence of edits, the
-- relation changed by the edits' set operations: a group is replaced, targets are united with it
-- or taken away, a name is dropped. Names and items count in their normal form, blank ones not.
pub edits-Implements :
    (p : Parser) (r : Reaches) (es : List AliasEdit)
    → Implements p.aliases r
    → Implements (edits p es).aliases (spec_edits r es)
unfolding edits
edits-Implements p r [] h = h
edits-Implements p r (e ∷ es) h =
    edits-Implements (edit p e) (spec_edit r e) es
      λ key t. edit-reaches p e key t ∙ spec_edit-cong (reaches p.aliases) r e h key t
