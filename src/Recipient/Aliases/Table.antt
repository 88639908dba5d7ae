-- ===== src/Recipient/Aliases/Table.antt =====
-- What each edit does to the table, and the invariant that all of them keep.
use smtp_to_max_relay.Prelude.{
  false, true, subst, List, [], ◌∷◌, some, ◌≡◌, inl, inr, arith, is_empty, Bool-cases, Option-cases,
}
use smtp_to_max_relay.Prelude.Text.{Text, text_eq, contains}
use smtp_to_max_relay.Prelude.Text.Laws.{text_eq_iff}
use smtp_to_max_relay.Prelude.Assoc.{
  Assoc, Distinct, lookup, insert, delete, lookup-insert, lookup-delete, keys, insert-Distinct,
  delete-Distinct,
}
use smtp_to_max_relay.Recipient.Address.{Parser}
use smtp_to_max_relay.Recipient.Aliases.Targets.{
  contains-merge, merge-Distinct, normalize_alias_targets-Distinct, without-Distinct,
  contains-without,
}
use smtp_to_max_relay.Recipient.Aliases.Normal.{
  IsNormal, AreNormal, normal_form_twice, normalize_alias_targets-AreNormal,
}
use smtp_to_max_relay.Recipient.Aliases.{
  normal_form, merge, normalize_alias_targets, without, is_no_edit, targets_at, set_alias_group,
  add_alias_targets, remove_alias_targets, delete_alias, put_merged, put_updated, AliasEdit,
  set_group, add_targets, remove_targets, remove_alias, edit, edits,
}

-- An alias has a name and a target; both are in normal form, and the targets differ.
abbrev pub IsEntry : Text → List Text → Type 0
IsEntry key targets =
    IsNormal key × (is_empty targets ≡ false) × Distinct targets × AreNormal targets

abbrev pub IsTable : Assoc (List Text) → Type 0
IsTable aliases =
    Distinct (keys aliases)
    × ((key : Text) (targets : List Text) → lookup key aliases ≡ some targets → IsEntry key targets)

pub insert-IsTable :
    (key : Text) (targets : List Text) (aliases : Assoc (List Text))
    → IsTable aliases
    → IsEntry key targets
    → IsTable (insert key targets aliases)
insert-IsTable key targets aliases h e = (
  insert-Distinct key targets aliases h.0,
  λ k ts found. elim (Bool-cases (text_eq key k)) [
    | inl same ↦
        let k_is : key ≡ k = (text_eq_iff key k).0 same in
        let ts_is : targets ≡ ts = ground (arith, lookup-insert key k targets aliases) in
        subst (λ x. IsEntry x ts) k_is (subst (λ x. IsEntry key x) ts_is e)
    | inr other ↦ h.1 k ts (ground (arith, lookup-insert key k targets aliases))
  ],
)

delete-IsTable :
    (key : Text) (aliases : Assoc (List Text)) → IsTable aliases → IsTable (delete key aliases)
delete-IsTable key aliases h = (
  delete-Distinct key aliases h.0,
  λ k ts found. h.1 k ts (ground (arith, lookup-delete key k aliases)),
)

-- Normalized targets make an entry, if there are any.
normalized-IsEntry :
    (alias : Text) (targets : List Text)
    → is_no_edit alias targets ≡ false
    → IsEntry (normal_form alias) (normalize_alias_targets targets)
normalized-IsEntry alias targets e = (
  (ground arith, normal_form_twice alias),
  ground arith,
  normalize_alias_targets-Distinct targets,
  normalize_alias_targets-AreNormal targets,
)

targets_at-IsTable :
    (key : Text) (aliases : Assoc (List Text))
    → IsTable aliases
    → Distinct (targets_at key aliases) × AreNormal (targets_at key aliases)
unfolding contains
targets_at-IsTable key aliases h = elim (Option-cases (lookup key aliases)) [
  | inl e ↦ rw (e, targets_at) (tt, λ t f. cc)
  | inr (ts, e) ↦ rw (e, targets_at) ((h.1 key ts e).2, (h.1 key ts e).3)
]

-- A merge holds what is in either list.
merge-AreNormal :
    (out items : List Text) → AreNormal out → AreNormal items → AreNormal (merge out items)
merge-AreNormal out items a b t h = elim (Bool-cases (contains t out)) [
  | inl e ↦ a t e
  | inr e ↦ b t (ground (arith, contains-merge t out items, e, h))
]

set_alias_group-IsTable :
    (p : Parser) (alias : Text) (targets : List Text)
    → IsTable p.aliases
    → IsTable (set_alias_group p alias targets).aliases
unfolding set_alias_group
set_alias_group-IsTable p alias targets h = elim (Bool-cases (is_no_edit alias targets)) [
  | inl e ↦ rw e h
  | inr e ↦ rw e (
      insert-IsTable (normal_form alias) (normalize_alias_targets targets) p.aliases h
        (normalized-IsEntry alias targets e))
]

put_merged-IsTable :
    (p : Parser) (key : Text) (merged : List Text)
    → IsTable p.aliases
    → IsNormal key
    → Distinct merged
    → AreNormal merged
    → IsTable (put_merged p key merged).aliases
unfolding put_merged
put_merged-IsTable p key merged h e d n = elim (Bool-cases (is_empty merged)) [
  | inl none_left ↦ rw none_left h
  | inr some_left ↦ rw some_left (insert-IsTable key merged p.aliases h (e, some_left, d, n))
]

put_updated-IsTable :
    (p : Parser) (key : Text) (updated : List Text)
    → IsTable p.aliases
    → IsNormal key
    → Distinct updated
    → AreNormal updated
    → IsTable (put_updated p key updated).aliases
unfolding put_updated
put_updated-IsTable p key updated h e d n = elim (Bool-cases (is_empty updated)) [
  | inl none_left ↦ rw none_left (delete-IsTable key p.aliases h)
  | inr some_left ↦ rw some_left (insert-IsTable key updated p.aliases h (e, some_left, d, n))
]

nothing_in : (t : Text) → contains t [] ≡ true → IsNormal t
unfolding contains
nothing_in t f = cc

add_alias_targets-IsTable :
    (p : Parser) (alias : Text) (targets : List Text)
    → IsTable p.aliases
    → IsTable (add_alias_targets p alias targets).aliases
unfolding add_alias_targets
add_alias_targets-IsTable p alias targets h = elim (Bool-cases (is_no_edit alias targets)) [
  | inl e ↦ rw e h
  | inr e ↦
      let key = normal_form alias in
      let new = normalize_alias_targets targets in
      let old = targets_at key p.aliases in
      let good = targets_at-IsTable key p.aliases h in
      rw e (
        put_merged-IsTable p key (merge (merge [] old) new) h (normalized-IsEntry alias targets e).0
          (merge-Distinct (merge [] old) new (merge-Distinct [] old tt))
          (merge-AreNormal (merge [] old) new
            (merge-AreNormal [] old (λ t f. nothing_in t f) good.1)
            (normalize_alias_targets-AreNormal targets)))
]

remove_alias_targets-IsTable :
    (p : Parser) (alias : Text) (targets : List Text)
    → IsTable p.aliases
    → IsTable (remove_alias_targets p alias targets).aliases
unfolding remove_alias_targets
remove_alias_targets-IsTable p alias targets h = elim (Bool-cases (is_no_edit alias targets)) [
  | inl e ↦ rw e h
  | inr e ↦
      let key = normal_form alias in
      let gone = normalize_alias_targets targets in
      let old = targets_at key p.aliases in
      let good = targets_at-IsTable key p.aliases h in
      elim (Bool-cases (is_empty old)) [
        | inl e' ↦ rw (e, e') h
        | inr e' ↦
            rw (e, e')
              (put_updated-IsTable p key (without gone old) h (normalized-IsEntry alias targets e).0
                (without-Distinct gone old good.0)
                (λ t f. good.1 t (ground (arith, contains-without t gone old, f))))
      ]
]

delete_alias-IsTable :
    (p : Parser) (alias : Text) → IsTable p.aliases → IsTable (delete_alias p alias).aliases
unfolding delete_alias
delete_alias-IsTable p alias h = elim (Bool-cases (is_empty (normal_form alias))) [
  | inl e ↦ rw e h
  | inr e ↦ rw e (delete-IsTable (normal_form alias) p.aliases h)
]

pub edit-IsTable : (p : Parser) (e : AliasEdit) → IsTable p.aliases → IsTable (edit p e).aliases
unfolding edit
edit-IsTable p (set_group alias targets) h = set_alias_group-IsTable p alias targets h
edit-IsTable p (add_targets alias targets) h = add_alias_targets-IsTable p alias targets h
edit-IsTable p (remove_targets alias targets) h = remove_alias_targets-IsTable p alias targets h
edit-IsTable p (remove_alias alias) h = delete_alias-IsTable p alias h

-- Any edits of a well-formed table leave it well formed.
pub edits-IsTable :
    (p : Parser) (es : List AliasEdit) → IsTable p.aliases → IsTable (edits p es).aliases
unfolding edits
edits-IsTable p [] h = h
edits-IsTable p (e ∷ es) h = edits-IsTable (edit p e) es (edit-IsTable p e h)
