-- ===== src/Recipient/AliasFile/Saving.antt =====
-- internal/recipient/alias.go: a saved alias table is loaded as it was.
use smtp_to_max_relay.Prelude.{
  true, false, List, [], ◌∷◌, ◌++◌, none, some, map, ◌≡◌, refl, sym, subst, ap, ◌∙◌, inl, inr,
  arith, Bool-cases, All,
}
use mathlib.Core.List.{append-nil}
use smtp_to_max_relay.Prelude.Result.{ok}
use smtp_to_max_relay.Prelude.Text.{Text, text_eq, contains}
use smtp_to_max_relay.Prelude.Text.Laws.{text_eq_iff, text_eq_refl, contains-append}
use smtp_to_max_relay.Prelude.Assoc.{Assoc, Distinct, keys, lookup, insert}
use smtp_to_max_relay.Prelude.Assoc.Entries.{contains_of_lookup}
use smtp_to_max_relay.Recipient.Address.{new_parser}
use smtp_to_max_relay.Recipient.Aliases.{normalize_onto, normalize_alias_targets, AliasEdit, edits}
use smtp_to_max_relay.Recipient.Aliases.Normal.{IsNormal, AreNormal}
use smtp_to_max_relay.Recipient.Aliases.Table.{IsEntry, IsTable}
use smtp_to_max_relay.Recipient.AliasFile.{
  strings, AliasFile, parse_alias_value, put_alias, load_entries, load_aliases, written_file,
  save_aliases,
}
use smtp_to_max_relay.Recipient.AliasFile.Loading.{edits-load-IsTable}

-- Nothing of `out` is in `items`.
abbrev Apart : List Text → List Text → Type 0
Apart out items = (t : Text) → contains t out ≡ true → contains t items ≡ false

append_one {ℓ} : {A : Type ℓ} (xs ys : List A) (x : A) → (xs ++ (x ∷ [])) ++ ys ≡ xs ++ (x ∷ ys)
append_one [] ys x = refl
append_one (z ∷ xs) ys x = ap (λ l. z ∷ l) (append_one xs ys x)

Apart-head : (x : Text) (out items : List Text) → Apart out (x ∷ items) → contains x out ≡ false
unfolding contains
Apart-head x out items a = elim (Bool-cases (contains x out)) [
  | inl e ↦ absurd (ground (arith, a x e, text_eq_refl x))
  | inr e ↦ e
]

Apart-move :
    (x : Text) (out items : List Text)
    → contains x items ≡ false
    → Apart out (x ∷ items)
    → Apart (out ++ (x ∷ [])) items
unfolding contains
Apart-move x out items d a t h = elim (Bool-cases (contains t out)) [
  | inl e ↦ ground (arith, a t e)
  | inr e ↦
      let same : x ≡ t =
        (text_eq_iff x t).0 (ground (arith, contains-append t out (x ∷ []), e, h)) in
      subst (λ u. contains u items ≡ false) same d
]

AreNormal-tail :
    (x : Text) (items : List Text) → AreNormal (x ∷ items) → IsNormal x × AreNormal items
unfolding contains
AreNormal-tail x items h = (h x (ground (arith, text_eq_refl x)), λ t e. h t (ground (arith, e)))

-- Normalizing targets that are normal and differ changes nothing.
normalize_onto_keeps :
    (out items : List Text)
    → Distinct items
    → AreNormal items
    → Apart out items
    → normalize_onto out items ≡ out ++ items
unfolding normalize_onto
normalize_onto_keeps out [] d h a = sym (append-nil out)
normalize_onto_keeps out (x ∷ items) d h a =
    let (n, ns) = AreNormal-tail x items h in
    rw (n.1, n.0, Apart-head x out items a)
      (normalize_onto_keeps (out ++ (x ∷ [])) items d.1 ns (Apart-move x out items d.0 a)
        ∙ append_one out items x)

normalize_alias_targets_keeps :
    (items : List Text) → Distinct items → AreNormal items → normalize_alias_targets items ≡ items
unfolding normalize_alias_targets contains
normalize_alias_targets_keeps items d h = normalize_onto_keeps [] items d h (λ t e. cc)

insert-new :
    (k : Text) (v : List Text) (m : Assoc (List Text))
    → contains k (keys m) ≡ false
    → insert k v m ≡ m ++ ((k, v) ∷ [])
unfolding insert contains
insert-new k v [] h = refl
insert-new k v ((j, w) ∷ m) h =
    let other : text_eq j k ≡ false = ground (arith, h) in
    rw (other, insert-new k v m (ground (arith, h))) refl

abbrev AreEntries : Assoc (List Text) → Type 0
AreEntries = All (λ e. IsEntry e.0 e.1)

IsTable-AreEntries : (m : Assoc (List Text)) → IsTable m → AreEntries m
unfolding lookup contains
IsTable-AreEntries [] h = tt
IsTable-AreEntries ((k, v) ∷ m) h = (
  h.1 k v (rw (text_eq_refl k) refl),
  IsTable-AreEntries m (h.0.1, λ j w found. h.1 j w (behind j w found)),
)
  where
    behind : (j : Text) (w : List Text) → lookup j m ≡ some w → lookup j ((k, v) ∷ m) ≡ some w
    behind j w found = elim (Bool-cases (text_eq k j)) [
      | inr e ↦ rw e found
      | inl e ↦
          absurd
            (ground (arith, contains_of_lookup j m {v = w} found, h.0.0, (text_eq_iff k j).0 e))
    ]

keys-append : (m n : Assoc (List Text)) → keys (m ++ n) ≡ keys m ++ keys n
keys-append [] n = refl
keys-append (e ∷ m) n = ap (λ l. e.0 ∷ l) (keys-append m n)

-- The entries that are written are read one behind the other.
load_entries-written :
    (m rest : Assoc (List Text))
    → AreEntries rest
    → Distinct (keys rest)
    → Apart (keys m) (keys rest)
    → load_entries m (map (λ e. (e.0, strings e.1)) rest) ≡ ok (m ++ rest)
unfolding load_entries parse_alias_value put_alias
load_entries-written m [] es d a = ap ok (sym (append-nil m))
load_entries-written m ((k, v) ∷ rest) es d a =
    let (n, ne, dv, nv) = es.0 in
    let new = Apart-head k (keys m) (keys rest) a in
    rw (normalize_alias_targets_keeps v dv nv, ne, n.1, n.0, insert-new k v m new, ne)
      (load_entries-written (m ++ ((k, v) ∷ [])) rest es.1 d.1
          (rw (keys-append m ((k, v) ∷ [])) (Apart-move k (keys m) (keys rest) d.0 a))
        ∙ ap ok (append_one m rest (k, v)))

pub load_aliases-written_file :
    (aliases : Assoc (List Text))
    → IsTable aliases
    → load_aliases (written_file aliases) ≡ ok aliases
unfolding load_aliases contains
load_aliases-written_file aliases h =
    load_entries-written [] aliases (IsTable-AreEntries aliases h) h.0 (λ t e. cc)

-- A restart loses no edit: when the table that any edits of a loaded alias file lead to is saved and the
-- write succeeds, loading the file gives this very table.
pub load_aliases-save_aliases :
    (file : AliasFile) (domain : Text) (es : List AliasEdit) {loaded : Assoc (List Text)}
    → load_aliases file ≡ ok loaded
    → let table = (edits (new_parser domain loaded) es).aliases in
      ((save_aliases none table).1 ≡ none) × (load_aliases (save_aliases none table).0 ≡ ok table)
unfolding save_aliases
load_aliases-save_aliases file domain es {loaded} h = (
  refl,
  load_aliases-written_file (edits (new_parser domain loaded) es).aliases
      (edits-load-IsTable file domain es h),
)
