-- ===== src/Recipient/Aliases.antt =====
-- internal/recipient/parser.go: the alias table that the administrator edits. Each operation holds
-- the write lock from its first read to its last write, so it is one function of the state.
pub mod Targets
pub mod Normal
pub mod Table
pub mod Refinement
pub mod Expansion
use smtp_to_max_relay.Prelude.{
  Bool, true, false, not, ◌||◌, List, [], ◌∷◌, ◌++◌, Option, none, some, if◌then◌else◌, is_empty,
  filter,
}
use smtp_to_max_relay.Prelude.Result.{Result, ok, err, ◌>>=◌}
use smtp_to_max_relay.Prelude.Text.{Text, contains, to_lower, trim_space}
use smtp_to_max_relay.Prelude.Assoc.{Assoc, lookup, insert, delete}
use smtp_to_max_relay.Recipient.Address.{Parser, ParseError, base_of, parse_chat_id_base}

abbrev pub normal_form : Text → Text
normal_form value = trim_space (to_lower value)

-- `seen` holds what is in the output.
abbrev pub add_new : List Text → Text → List Text
add_new out target = if contains target out then out else out ++ (target ∷ [])

unfoldable pub merge : List Text → List Text → List Text
merge out [] = out
merge out (item ∷ items) = merge (add_new out item) items

unfoldable pub normalize_onto : List Text → List Text → List Text
normalize_onto out [] = out
normalize_onto out (item ∷ items) =
    normalize_onto (if is_empty (normal_form item) then out else add_new out (normal_form item))
      items

unfoldable pub normalize_alias_targets : List Text → List Text
unfolding normalize_onto
normalize_alias_targets targets = normalize_onto [] targets

pub data TargetError : Type 0 where
  target_empty : TargetError
  not_a_target : ParseError → TargetError

-- What ValidateAliasTarget returns: no error, or one.
unfoldable pub checked : Result ParseError Text → Option TargetError
checked (ok id) = none
checked (err e) = some (not_a_target e)

unfoldable pub validate_alias_target : Text → Option TargetError
unfolding checked
validate_alias_target local =
    if is_empty (normal_form local)
    then some target_empty
    else checked (parse_chat_id_base (base_of (normal_form local)) (normal_form local))

-- The three guards that SetAliasGroup, AddAliasTargets and RemoveAliasTargets begin with.
abbrev pub is_no_edit : Text → List Text → Bool
is_no_edit alias targets =
    is_empty (normal_form alias) || is_empty targets || is_empty (normalize_alias_targets targets)

unfoldable pub set_alias_group : Parser → Text → List Text → Parser
set_alias_group p alias targets = if is_no_edit alias targets then p else record p {
  aliases = insert (normal_form alias) (normalize_alias_targets targets) p.aliases;
}

-- A missing key reads as the nil slice.
abbrev pub targets_at : Text → Assoc (List Text) → List Text
targets_at key aliases = elim (lookup key aliases) [ none ↦ [] | some targets ↦ targets ]

put_merged : Parser → Text → List Text → Parser
put_merged p key merged =
    if is_empty merged then p else record p { aliases = insert key merged p.aliases }

unfoldable pub add_alias_targets : Parser → Text → List Text → Parser
unfolding put_merged
add_alias_targets p alias targets =
    if is_no_edit alias targets
    then p
    else put_merged p (normal_form alias) (
        merge (merge [] (targets_at (normal_form alias) p.aliases))
          (normalize_alias_targets targets))

abbrev pub without : List Text → List Text → List Text
without removed existing = filter (λ item. not (contains item removed)) existing

put_updated : Parser → Text → List Text → Parser
put_updated p key updated =
    if is_empty updated
    then record p { aliases = delete key p.aliases }
    else record p { aliases = insert key updated p.aliases }

unfoldable pub remove_alias_targets : Parser → Text → List Text → Parser
unfolding put_updated
remove_alias_targets p alias targets =
    if is_no_edit alias targets
    then p
    else if is_empty (targets_at (normal_form alias) p.aliases)
    then p
    else put_updated p (normal_form alias)
        (without (normalize_alias_targets targets) (targets_at (normal_form alias) p.aliases))

unfoldable pub delete_alias : Parser → Text → Parser
delete_alias p alias =
    if is_empty (normal_form alias)
    then p
    else record p { aliases = delete (normal_form alias) p.aliases }

-- A copy of the table; slices are values here.
unfoldable pub snapshot_aliases : Parser → Assoc (List Text)
snapshot_aliases p = p.aliases

-- The calls of the AliasAdmin interface that write.
pub data AliasEdit : Type 0 where
  set_group add_targets remove_targets : Text → List Text → AliasEdit
  remove_alias : Text → AliasEdit

unfoldable pub edit : Parser → AliasEdit → Parser
edit p (set_group alias targets) = set_alias_group p alias targets
edit p (add_targets alias targets) = add_alias_targets p alias targets
edit p (remove_targets alias targets) = remove_alias_targets p alias targets
edit p (remove_alias alias) = delete_alias p alias

unfoldable pub edits : Parser → List AliasEdit → Parser
edits p [] = p
edits p (e ∷ es) = edits (edit p e) es
