-- ===== src/Recipient/AliasFile.antt =====
-- internal/recipient/alias.go: reading the alias file. The decoded JSON is the input; a null in a
-- list reads as the empty string, as encoding/json leaves it. A write that fails may leave anything.
pub mod Loading
pub mod Saving
use smtp_to_max_relay.Prelude.{
  false, true, subst, ◌||◌, List, [], ◌∷◌, ◌≡◌, refl, inl, inr, arith, if◌then◌else◌, is_empty,
  Bool-cases, Option, none, some, map,
}
use smtp_to_max_relay.Prelude.Result.{Result, ok, err, ◌>>=◌, bind-eq-ok, ok-injective}
use smtp_to_max_relay.Prelude.Text.{Text, contains}
use smtp_to_max_relay.Prelude.Text.Laws.{text_eq_iff}
use smtp_to_max_relay.Prelude.Assoc.{Assoc, Distinct, lookup, insert}
use smtp_to_max_relay.Recipient.Address.{new_parser}
use smtp_to_max_relay.Recipient.Aliases.{normal_form, normalize_alias_targets, AliasEdit, edits}
use smtp_to_max_relay.Recipient.Aliases.Targets.{normalize_alias_targets-Distinct}
use smtp_to_max_relay.Recipient.Aliases.Normal.{
  IsNormal, AreNormal, normal_form_twice, normalize_alias_targets-AreNormal,
}
use smtp_to_max_relay.Recipient.Aliases.Table.{IsTable, insert-IsTable, edits-IsTable}

pub data JsonValue : Type 0 where
  string : Text → JsonValue
  strings : List Text → JsonValue
  null other : JsonValue

pub data AliasError : Type 0 where
  target_empty not_string_or_list list_empty read_failed bad_json : AliasError

non_empty_list : List Text → Result AliasError (List Text)
non_empty_list targets = if is_empty targets then err list_empty else ok targets

single_target : Text → Result AliasError (List Text)
single_target single = if is_empty single then err target_empty else ok (single ∷ [])

-- The loop over the list is the one of normalizeAliasTargets.
unfoldable pub parse_alias_value : JsonValue → Result AliasError (List Text)
unfolding non_empty_list single_target
parse_alias_value (string s) = single_target (normal_form s)
parse_alias_value null = err target_empty
parse_alias_value (strings items) = non_empty_list (normalize_alias_targets items)
parse_alias_value other = err not_string_or_list

unfoldable pub put_alias : Assoc (List Text) → Text → List Text → Assoc (List Text)
put_alias aliases name targets =
    if is_empty name || is_empty targets then aliases else insert name targets aliases

unfoldable pub load_entries :
    Assoc (List Text) → List (Text × JsonValue) → Result AliasError (Assoc (List Text))
unfolding put_alias
load_entries aliases [] = ok aliases
load_entries aliases ((alias, value) ∷ raw) = do
  targets ← parse_alias_value value
  load_entries (put_alias aliases (normal_form alias) targets) raw

-- What reading the file and decoding it gives.
pub data AliasFile : Type 0 where
  missing unreadable empty malformed : AliasFile
  entries : List (Text × JsonValue) → AliasFile

unfoldable pub load_aliases : AliasFile → Result AliasError (Assoc (List Text))
unfolding load_entries
load_aliases missing = ok []
load_aliases unreadable = err read_failed
load_aliases empty = ok []
load_aliases malformed = err bad_json
load_aliases (entries raw) = load_entries [] raw

-- What SaveAliases writes, as reading it and decoding it gives it.
abbrev pub written_file : Assoc (List Text) → AliasFile
written_file aliases = entries (map (λ e. (e.0, strings e.1)) aliases)

-- SaveAliases: what the file is behind the call, and the error. `none` stands for a write that succeeds,
-- and the other value for an error with what it leaves of the file.
unfoldable pub save_aliases :
    Option (Text × AliasFile) → Assoc (List Text) → AliasFile × Option Text
save_aliases none aliases = (written_file aliases, none)
save_aliases (some (e, left)) aliases = (left, some e)
