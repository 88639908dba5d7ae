-- ===== src/Max/Help.antt =====
-- internal/max/bot_help.go: the commands that a message holds, and the reply that tells an address. The
-- template of the reply is the record of what it is filled with; the version of the bot is left out.
use smtp_to_max_relay.Prelude.{
  Bool, false, ◌||◌, List, [], ◌∷◌, ◌++◌, Option, none, some, if◌then◌else◌, is_empty, drop,
}
use smtp_to_max_relay.Prelude.Text.{
  Text, codes, text_eq, to_lower, trim_space, has_prefix, trim_prefix, cut, fields,
}

unfoldable pub normalize_bot_username : Text → Text
normalize_bot_username username = trim_prefix (trim_space (to_lower username)) (codes "@")

-- The name in front of the first at sign, and what stands behind it.
command_and_target : Text → Option (Text × Text) → Text × Text
unfolding normalize_bot_username
command_and_target cmd none = (cmd, [])
command_and_target cmd (some (before, after)) = (before, normalize_bot_username after)

-- Of the first field; a text that is not blank has one.
parts_of : List Text → Text × Text
unfolding command_and_target
parts_of [] = ([], [])
parts_of (cmd ∷ rest) =
    if has_prefix cmd (codes "/")
    then command_and_target (drop 1 cmd) (cut b'@' (drop 1 cmd))
    else ([], [])

unfoldable pub extract_command_parts : Text → Text × Text
unfolding parts_of
extract_command_parts text =
    let t = trim_space (to_lower text) in if is_empty t then ([], []) else parts_of (fields t)

abbrev pub extract_command : Text → Text
extract_command text = (extract_command_parts text).0

unfoldable pub command_targets_bot : Text → Text → Bool
command_targets_bot text bot_username =
    let target = (extract_command_parts text).1 in
    is_empty target || text_eq target (normalize_bot_username bot_username)

-- strings.Contains
unfoldable pub contains_text : Text → Text → Bool
contains_text [] sub = has_prefix [] sub
contains_text (c ∷ s) sub = has_prefix (c ∷ s) sub || contains_text s sub

mentions : Text → Text → Bool
mentions t username =
    contains_text t (codes "@" ++ username)
    || has_prefix t (username ++ codes " ")
    || has_prefix t (username ++ codes ",")
    || has_prefix t (username ++ codes ":")

unfoldable pub message_mentions_bot : Text → Text → Bool
unfolding mentions
message_mentions_bot text bot_username =
    let username = normalize_bot_username bot_username in
    let t = to_lower (trim_space text) in
    if is_empty username then false else if is_empty t then false else mentions t username

-- Whose address it is, which decides the title and the label of the id.
pub data InfoTitle : Type 0 where
  your_address chat_address : InfoTitle

pub record InfoReply : Type 0 where
  pub title : InfoTitle
  pub local_part : Text
  pub domain : Text
  pub id_value : Text

unfoldable pub chat_address_local_part : Text → Text
chat_address_local_part id =
    let value = trim_space id in
    if is_empty value || text_eq value (codes "<unknown>")
    then codes "chatidunknown"
    else codes "chatid" ++ value

abbrev pub id_or_unknown : Text → Text
id_or_unknown id = if is_empty (trim_space id) then codes "<unknown>" else trim_space id

abbrev pub domain_or_default : Text → Text
domain_or_default domain =
    if is_empty (trim_space domain) then codes "relay.local" else trim_space domain

unfoldable pub build_info_reply : InfoTitle → Text → Text → InfoReply
build_info_reply title id allowed_domain = record {
  title = title;
  local_part = chat_address_local_part (id_or_unknown id);
  domain = domain_or_default allowed_domain;
  id_value = id_or_unknown id;
}

unfoldable pub build_user_info_reply : Text → Text → InfoReply
unfolding build_info_reply
build_user_info_reply user_id allowed_domain = build_info_reply your_address user_id allowed_domain

unfoldable pub build_chat_info_reply : Text → Text → InfoReply
unfolding build_info_reply
build_chat_info_reply chat_id allowed_domain = build_info_reply chat_address chat_id allowed_domain
