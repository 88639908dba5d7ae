-- ===== src/Max/Targets.antt =====
-- internal/max/bot_runtime.go: the arguments of the alias commands, and the list of the aliases.
use smtp_to_max_relay.Prelude.{
  Bool, not, ◌&&◌, ◌-◌, List, [], ◌∷◌, ◌++◌, Option, none, some, if◌then◌else◌, is_empty, all, take,
  length, map, ◌||◌, ◌==◌, ℕ, within,
}
use smtp_to_max_relay.Prelude.Result.{Result, ok, err, ◌>>=◌}
use smtp_to_max_relay.Prelude.Text.{
  Text, codes, to_lower, trim_space, has_prefix, has_suffix, trim_prefix, cut, split, is_digit,
  text_before,
}
use smtp_to_max_relay.Prelude.Assoc.{Assoc}
use smtp_to_max_relay.Prelude.Sorting.{sort_by}
use smtp_to_max_relay.Recipient.Aliases.{add_new}

unfoldable pub is_name_rune : ℕ → Bool
is_name_rune r = within b'a' b'z' r || is_digit r || r == b'.' || r == b'_' || r == b'-'

-- The empty text stands for a name that is refused.
unfoldable pub normalize_alias_name : Text → Text
normalize_alias_name value =
    let v = trim_space (to_lower value) in if all is_name_rune v then v else []

-- ^-?\d+(\.silent)?$
unfoldable pub is_numeric_alias_target : Text → Bool
is_numeric_alias_target target =
    let unsigned = trim_prefix target (codes "-") in
    let digits : Text =
      if has_suffix unsigned (codes ".silent")
      then take (length unsigned - length (codes ".silent")) unsigned
      else unsigned in
    not (is_empty digits) && all is_digit digits

pub data TargetRefused : Type 0 where
  target_is_empty target_is_no_chat no_target_given : TargetRefused

unfoldable pub normalize_alias_target : Text → Result TargetRefused Text
normalize_alias_target value =
    let target = to_lower (trim_space value) in
    if is_empty target
    then err target_is_empty
    else if has_prefix target (codes "chatid")
    then ok target
    else if is_numeric_alias_target target
    then ok (codes "chatid" ++ target)
    else err target_is_no_chat

-- The loop over the items; the first that is refused ends it.
collect_targets : List Text → List Text → Result TargetRefused (List Text)
collect_targets targets [] = ok targets
collect_targets targets (item ∷ items) = do
  target ← normalize_alias_target item
  collect_targets (add_new targets target) items

some_targets : List Text → Result TargetRefused (List Text)
some_targets targets = if is_empty targets then err no_target_given else ok targets

unfoldable pub normalize_alias_targets_arg : Text → Result TargetRefused (List Text)
unfolding collect_targets some_targets
normalize_alias_targets_arg value = collect_targets [] (split b',' value) >>= some_targets

before_dot : Text → Option (Text × Text) → Text
before_dot v none = v
before_dot v (some (before, after)) = before

unfoldable pub extract_chat_id_from_alias_target : Text → Text
unfolding before_dot
extract_chat_id_from_alias_target target =
    let v = trim_space (to_lower target) in
    let id = trim_prefix (before_dot v (cut b'.' v)) (codes "chatid") in
    if is_empty id then codes "unknown" else id

abbrev name_before : Text × List Text → Text × List Text → Bool
name_before a b = text_before a.0 b.0

-- A line for each alias, in the order of the names; no line is the text for an empty table.
unfoldable pub build_aliases_list_reply : Assoc (List Text) → List (Text × List Text)
build_aliases_list_reply aliases =
    map (λ e. (e.0, map extract_chat_id_from_alias_target e.1)) (sort_by name_before aliases)
