-- ===== src/Email.antt =====
-- internal/email/parser.go: from an enmime envelope to the email. The envelope of the raw message, the
-- error of reading it, the text content test of a part and the extension of a content type are
-- what the libraries give. A missing part is none.
pub mod Attachments
pub mod Names
use smtp_to_max_relay.Prelude.{
  ℕ, Bool, true, false, not, ◌&&◌, ◌||◌, List, [], ◌∷◌, ◌++◌, Option, none, some, if◌then◌else◌,
  ltb, ◌==◌, within, is_empty, length, map,
}
use smtp_to_max_relay.Prelude.Result.{Result, ok, err}
use smtp_to_max_relay.Prelude.Text.{Text, codes, contains, to_lower, trim, trim_space, has_prefix}

pub record Part : Type 0 where
  pub part_id : Text
  pub content_type : Text
  pub content_id : Text
  pub file_name : Text
  pub content : List ℕ
  pub has_text_content : Bool

pub record Envelope : Type 0 where
  pub subject : Text
  pub from_header : Text
  pub message_id : Text
  pub to_header : Text
  pub text : Text
  pub html : Text
  pub attached : List (Option Part)
  pub inlines : List (Option Part)
  pub other_parts : List (Option Part)

pub record Attachment : Type 0 where
  pub filename : Text
  pub content_type : Text
  pub size_bytes : ℕ
  pub data_bytes : List ℕ

pub record ParsedEmail : Type 0 where
  pub subject : Text
  pub sender : Text
  pub recipients : List Text
  pub text_body : Text
  pub html_body : Text
  pub attachments : List Attachment
  pub message_id : Text

pub data EmailError : Type 0 where
  message_too_large : ℕ → ℕ → EmailError
  unreadable_message : Text → EmailError

unfoldable pub is_token_rune : ℕ → Bool
is_token_rune r = within b'a' b'z' r || within b'A' b'Z' r || within b'0' b'9' r

-- The loop of sanitizeAttachmentToken, with lastDash.
unfoldable pub dashed : Bool → Text → Text
dashed last_dash [] = []
dashed last_dash (r ∷ value) =
    let kept = r ∷ dashed false value in
    let dash = b'-' ∷ dashed true value in
    let dropped = dashed true value in
    if is_token_rune r then kept else if last_dash then dropped else dash

abbrev pub is_angle : ℕ → Bool
is_angle c = c == b'<' || c == b'>'

abbrev pub is_dash : ℕ → Bool
is_dash c = c == b'-'

unfoldable pub sanitize_attachment_token : Text → Text
sanitize_attachment_token value = trim is_dash (dashed false (trim is_angle (trim_space value)))

unfoldable pub should_expose_as_attachment : Part → Bool → Bool
should_expose_as_attachment part include_text =
    let content_type = to_lower (trim_space part.content_type) in
    if is_empty part.content
    then false
    else if has_prefix content_type (codes "multipart/")
    then false
    else if include_text
    then true
    else if part.has_text_content
    then false
    else has_prefix content_type (codes "image/")
      || has_prefix content_type (codes "audio/")
      || has_prefix content_type (codes "video/")
      || not (is_empty (trim_space part.file_name))
      || not (is_empty (trim_space part.content_id))

-- The parts that appendPartsAsAttachments takes, and the ids seen behind them.
unfoldable pub exposed_parts : Bool → List (Option Part) → List Text → List Part × List Text
exposed_parts include_text [] seen = ([], seen)
exposed_parts include_text (none ∷ parts) seen = exposed_parts include_text parts seen
exposed_parts include_text (some part ∷ parts) seen =
    let skipped = exposed_parts include_text parts seen in
    let rest = exposed_parts include_text parts (part.part_id ∷ seen) in
    if not (should_expose_as_attachment part include_text)
    then skipped
    else if contains part.part_id seen
    then skipped
    else (part ∷ rest.0, rest.1)

-- The parts of an envelope that become attachments, in order.
unfoldable pub envelope_parts : Envelope → List Part
unfolding exposed_parts
envelope_parts env =
    let first = exposed_parts true env.attached [] in
    let second = exposed_parts false env.inlines first.1 in
    let third = exposed_parts false env.other_parts second.1 in first.0 ++ second.0 ++ third.0

module _ (extensions_by_type : Text → Option (List Text)) where
  extension_of : Option (List Text) → Text
  extension_of none = codes ".bin"
  extension_of (some []) = codes ".bin"
  extension_of (some (ext ∷ exts)) = ext

  unfoldable pub base_name : Part → Text
  base_name part =
      let base = sanitize_attachment_token part.content_id in
      let id = sanitize_attachment_token part.part_id in
      if not (is_empty base)
      then base
      else if is_empty id
      then codes "part"
      else codes "part-" ++ id

  unfoldable pub attachment_file_name : Part → Text
  unfolding extension_of base_name
  attachment_file_name part =
      if not (is_empty (trim_space part.file_name))
      then trim_space part.file_name
      else base_name part ++ extension_of (extensions_by_type (trim_space part.content_type))

  unfoldable pub attachment_of : Part → Attachment
  unfolding attachment_file_name
  attachment_of part = record {
    filename = attachment_file_name part;
    content_type = part.content_type;
    size_bytes = length part.content;
    data_bytes = part.content;
  }

  unfoldable pub email_of : Envelope → ParsedEmail
  unfolding envelope_parts attachment_of
  email_of env = record {
    subject = env.subject;
    sender = env.from_header;
    recipients = if is_empty env.to_header then [] else env.to_header ∷ [];
    text_body = env.text;
    html_body = env.html;
    attachments = map attachment_of (envelope_parts env);
    message_id = env.message_id;
  }

  read_envelope_or : Result Text Envelope → Result EmailError ParsedEmail
  unfolding email_of
  read_envelope_or (err e) = err (unreadable_message e)
  read_envelope_or (ok env) = ok (email_of env)

  -- parser.Parse
  unfoldable pub parse :
      ℕ → (List ℕ → Result Text Envelope) → List ℕ → Result EmailError ParsedEmail
  unfolding read_envelope_or
  parse max_bytes read_envelope raw =
      if ltb max_bytes (length raw)
      then err (message_too_large (length raw) max_bytes)
      else read_envelope_or (read_envelope raw)
