-- ===== src/Version.antt =====
-- internal/version/version.go and internal/trace/context.go: the version that the bot tells, and the request id
-- that a context carries. A context that has no id carries the empty text.
use smtp_to_max_relay.Prelude.{◌++◌, [], if◌then◌else◌, is_empty}
use smtp_to_max_relay.Prelude.Text.{Text, codes, trim_space}

abbrev pub base_version : Text
base_version = codes "0.2"

unfoldable pub bot_version : Text → Text → Text
bot_version build_number build_suffix =
    let build = if is_empty (trim_space build_number) then codes "0" else trim_space build_number in
    let version = base_version ++ (codes "." ++ build) in
    if is_empty (trim_space build_suffix)
    then version
    else version ++ (codes "-" ++ trim_space build_suffix)

-- WithRequestID: the id that the context carries behind it
unfoldable pub with_request_id : Text → Text → Text
with_request_id carried request_id =
    if is_empty (trim_space request_id) then carried else trim_space request_id

unfoldable pub request_id : Text → Text
request_id carried = trim_space carried

-- Prefix
unfoldable pub log_prefix : Text → Text
log_prefix carried =
    if is_empty (request_id carried)
    then []
    else codes "[req=" ++ (request_id carried ++ codes "] ")
