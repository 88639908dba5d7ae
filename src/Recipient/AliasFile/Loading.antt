-- ===== src/Recipient/AliasFile/Loading.antt =====
-- internal/recipient/alias.go: what is loaded is a well-formed table.
use smtp_to_max_relay.Prelude.{
  false, true, subst, List, [], ◌∷◌, ◌≡◌, refl, inl, inr, arith, is_empty, Bool-cases,
}
use smtp_to_max_relay.Prelude.Result.{ok, bind-eq-ok, ok-injective}
use smtp_to_max_relay.Prelude.Text.{Text, contains}
use smtp_to_max_relay.Prelude.Text.Laws.{text_eq_iff}
use smtp_to_max_relay.Prelude.Assoc.{Assoc, Distinct, lookup}
use smtp_to_max_relay.Recipient.Address.{new_parser}
use smtp_to_max_relay.Recipient.Aliases.{normal_form, normalize_alias_targets, AliasEdit, edits}
use smtp_to_max_relay.Recipient.Aliases.Targets.{normalize_alias_targets-Distinct}
use smtp_to_max_relay.Recipient.Aliases.Normal.{
  IsNormal, AreNormal, normal_form_twice, normalize_alias_targets-AreNormal,
}
use smtp_to_max_relay.Recipient.Aliases.Table.{IsTable, insert-IsTable, edits-IsTable}
use smtp_to_max_relay.Recipient.AliasFile.{
  JsonValue, string, strings, null, other, parse_alias_value, put_alias, load_entries, AliasFile,
  missing, unreadable, empty, malformed, entries, load_aliases,
}

abbrev pub AreTargets : List Text → Type 0
AreTargets targets = (is_empty targets ≡ false) × Distinct targets × AreNormal targets

parse_alias_value-AreTargets :
    (value : JsonValue) {targets : List Text}
    → parse_alias_value value ≡ ok targets
    → AreTargets targets
unfolding parse_alias_value contains
parse_alias_value-AreTargets (string s) h = elim (Bool-cases (is_empty (normal_form s))) [
  | inl e ↦ absurd (ground arith)
  | inr e ↦ rw (← ok-injective (rw e at h)) (refl, (refl, tt), λ t f. single_normal t f e)
]
  where
    single_normal :
        (t : Text)
        → contains t (normal_form s ∷ []) ≡ true
        → is_empty (normal_form s) ≡ false
        → IsNormal t
    single_normal t f e =
        let same : normal_form s ≡ t = (text_eq_iff (normal_form s) t).0 (ground (arith, f)) in
        subst (λ u. IsNormal u) same (e, normal_form_twice s)
parse_alias_value-AreTargets null h = cc
parse_alias_value-AreTargets (strings items) h =
    elim (Bool-cases (is_empty (normalize_alias_targets items))) [
      | inl e ↦ absurd (ground arith)
      | inr e ↦
          rw (← ok-injective (rw e at h))
            (e, normalize_alias_targets-Distinct items, normalize_alias_targets-AreNormal items)
    ]
parse_alias_value-AreTargets other h = cc

put_alias-IsTable :
    (aliases : Assoc (List Text)) (name : Text) (targets : List Text)
    → IsTable aliases
    → normal_form name ≡ name
    → AreTargets targets
    → IsTable (put_alias aliases name targets)
unfolding put_alias
put_alias-IsTable aliases name targets h n e = elim (Bool-cases (is_empty name)) [
  | inl blank ↦ rw blank h
  | inr named ↦ rw (named, e.0) (insert-IsTable name targets aliases h ((named, n), e.0, e.1, e.2))
]

load_entries-IsTable :
    (raw : List (Text × JsonValue)) (aliases : Assoc (List Text)) {loaded : Assoc (List Text)}
    → IsTable aliases
    → load_entries aliases raw ≡ ok loaded
    → IsTable loaded
unfolding load_entries
load_entries-IsTable [] aliases h e = rw (← ok-injective e) h
load_entries-IsTable ((alias, value) ∷ raw) aliases h e =
    let (targets, parsed, rest) = bind-eq-ok (parse_alias_value value) _ e in
    load_entries-IsTable raw (put_alias aliases (normal_form alias) targets)
      (put_alias-IsTable aliases (normal_form alias) targets h (normal_form_twice alias)
        (parse_alias_value-AreTargets value parsed))
      rest

nothing-IsTable : IsTable []
unfolding lookup
nothing-IsTable = (tt, λ key targets e. cc)

pub load_aliases-IsTable :
    (file : AliasFile) {loaded : Assoc (List Text)} → load_aliases file ≡ ok loaded → IsTable loaded
unfolding load_aliases
load_aliases-IsTable missing h = rw (← ok-injective h) nothing-IsTable
load_aliases-IsTable unreadable h = cc
load_aliases-IsTable empty h = rw (← ok-injective h) nothing-IsTable
load_aliases-IsTable malformed h = cc
load_aliases-IsTable (entries raw) h = load_entries-IsTable raw [] nothing-IsTable h

-- A parser over a loaded alias file has a well-formed table after any sequence of edits: no name
-- stands twice, every name has a target, the targets of a name differ, and names and targets are in
-- normal form and not empty.
pub edits-load-IsTable :
    (file : AliasFile) (domain : Text) (es : List AliasEdit) {loaded : Assoc (List Text)}
    → load_aliases file ≡ ok loaded
    → IsTable (edits (new_parser domain loaded) es).aliases
unfolding new_parser
edits-load-IsTable file domain es {loaded} h =
    edits-IsTable (new_parser domain loaded) es (load_aliases-IsTable file h)
