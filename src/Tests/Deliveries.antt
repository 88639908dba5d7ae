-- ===== src/Tests/Deliveries.antt =====
-- internal/email and internal/relay at concrete inputs.
use smtp_to_max_relay.Prelude.{
  ℕ, Bool, true, false, not, List, [], ◌∷◌, Option, none, some, ◌≡◌, refl, arith, is_empty, all,
  ◌++◌, length, ◌+◌, ◌≤◌, ◌<◌, inl, inr, ◌⊎◌, map, if◌then◌else◌, ◌==◌, ltb, All,
}
use smtp_to_max_relay.Prelude.Result.{ok}
use smtp_to_max_relay.Prelude.Text.{Text, codes}
use smtp_to_max_relay.Prelude.Assoc.{Assoc, Distinct}
use smtp_to_max_relay.Recipient.Address.{Parser}
use smtp_to_max_relay.Relay.Split.{split_text_message}
use smtp_to_max_relay.Relay.Split.Laws.{concat}
use smtp_to_max_relay.Relay.Split.Boundaries.{split_text_message_lem}
use smtp_to_max_relay.Relay.Retry.{Reply, send_with_retry, Ends, send_with_retry-Ends}
use smtp_to_max_relay.Email.{
  Part, Envelope, ParsedEmail, attachment_file_name, sanitize_attachment_token, envelope_parts,
}
use smtp_to_max_relay.Email.Attachments.{Exposed, ids, envelope_parts_lem}
use smtp_to_max_relay.Relay.Message.{strip_html_basic}
use smtp_to_max_relay.Relay.Service.{Run, Surroundings, Service, Counters, relay}
use smtp_to_max_relay.Relay.Service.Outcomes.{IsRelayed, relay-IsRelayed}

split_text_message_lem_example :
    concat (split_text_message (97 ∷ 32 ∷ 98 ∷ 99 ∷ 100 ∷ []) 4) ≡ 97 ∷ 32 ∷ 98 ∷ 99 ∷ 100 ∷ []
split_text_message_lem_example =
    (split_text_message_lem (97 ∷ 32 ∷ 98 ∷ 99 ∷ 100 ∷ []) 4 (omega arith)).0

-- The first two calls fail.
abbrev third_time : ℕ → Reply
third_time n = record { failure = if ltb n 2 then some (codes "busy") else none; cancelled = false }

send_with_retry-Ends_example : Ends third_time (0 + 2) 0 (send_with_retry third_time 2 0)
send_with_retry-Ends_example = send_with_retry-Ends third_time 2 0

strip_html_basic_test : strip_html_basic (codes "<p>Hi<br/>you <b>x</b></p>") ≡ codes "Hi\nyou bx/b"
unfolding strip_html_basic smtp_to_max_relay.Prelude.Text.trim_right
    smtp_to_max_relay.Prelude.Text.trim_left smtp_to_max_relay.Relay.Message.replace_tags
    smtp_to_max_relay.Relay.Message.tag_length smtp_to_max_relay.Prelude.Text.has_prefix
    smtp_to_max_relay.Prelude.Text.is_space
strip_html_basic_test = refl

abbrev some_service : Service
some_service = record {
  recipients = record { allowed_domain = codes "r.l"; aliases = [] };
  max_send_retries = 1;
  bypass_dlq = false;
}

abbrev some_surroundings : Surroundings
some_surroundings = record {
  replies = third_time;
  context_error = codes "context canceled";
  now = 6;
  new_id = codes "c";
  disk_write = none;
}

abbrev hello_email : ParsedEmail
hello_email = record {
  subject = codes "Hello";
  sender = codes "me";
  recipients = [];
  text_body = codes "Hi";
  html_body = [];
  attachments =
      record {
        filename = codes "a.txt";
        content_type = codes "text/plain";
        size_bytes = 0;
        data_bytes = [];
      }
      ∷ [];
  message_id = [];
}

abbrev first_run : Run
first_run = record {
  call = 0;
  sent = [];
  dlq = some (record { items = []; disk = none });
  counters = record {
    received = 0;
    relayed = 0;
    failed = 0;
    text_sent = 0;
    files_sent = 0;
    dlq_enqueued = 0;
    deliveries = [];
  };
}

relay-IsRelayed_example :
    IsRelayed
      (λ t. t)
      (λ raw. ok hello_email)
      some_service
      some_surroundings
      (codes "chatid1@r.l")
      (72 ∷ [])
      first_run
      (relay
        (λ t. t)
        (λ raw. ok hello_email)
        some_service
        some_surroundings
        (codes "chatid1@r.l")
        (72 ∷ [])
        first_run)
relay-IsRelayed_example =
    relay-IsRelayed (λ t. t) (λ raw. ok hello_email) some_service some_surroundings
      (codes "chatid1@r.l") (72 ∷ []) first_run

-- Two failures are one more than the retries: the message is in the queue.
relay_test :
    (relay
      (λ t. t)
      (λ raw. ok hello_email)
      some_service
      some_surroundings
      (codes "chatid1@r.l")
      (72 ∷ [])
      first_run).0.counters.dlq_enqueued
    ≡ 1
unfolding relay smtp_to_max_relay.Recipient.Address.parse
    smtp_to_max_relay.Recipient.Address.parse_parts smtp_to_max_relay.Prelude.Text.split_by
    smtp_to_max_relay.Prelude.Text.trim_right smtp_to_max_relay.Prelude.Text.trim_left
    smtp_to_max_relay.Prelude.Text.is_space smtp_to_max_relay.Prelude.Text.lower_rune
    smtp_to_max_relay.Prelude.Text.text_eq smtp_to_max_relay.Recipient.Address.resolve
    smtp_to_max_relay.Recipient.Address.resolve_targets smtp_to_max_relay.Prelude.Assoc.lookup
    smtp_to_max_relay.Recipient.Address.resolve_target
    smtp_to_max_relay.Recipient.Address.parse_chat_id_base smtp_to_max_relay.Prelude.Text.has_prefix
    smtp_to_max_relay.Prelude.Text.cut smtp_to_max_relay.Recipient.Address.parse_prefixed_chat_id
    smtp_to_max_relay.Dlq.Item.fingerprint_input smtp_to_max_relay.Dlq.Item.hex
    smtp_to_max_relay.Dlq.Item.hex_digit smtp_to_max_relay.Dlq.Item.persist_locked
    smtp_to_max_relay.Dlq.Item.persisted smtp_to_max_relay.Dlq.Store.enqueue
    smtp_to_max_relay.Dlq.Store.find_live smtp_to_max_relay.Dlq.Store.payload_fingerprint
    smtp_to_max_relay.Prelude.Assoc.insert smtp_to_max_relay.Prelude.Sorting.insert_by
    smtp_to_max_relay.Prelude.Sorting.sort_by smtp_to_max_relay.Prelude.Text.contains_rune
    smtp_to_max_relay.Prelude.Text.is_digit smtp_to_max_relay.Prelude.Text.join
    smtp_to_max_relay.Recipient.Address.has_flag smtp_to_max_relay.Relay.Retry.attempts
    send_with_retry smtp_to_max_relay.Relay.Service.and_then smtp_to_max_relay.Relay.Message.body_of
    smtp_to_max_relay.Relay.Service.count smtp_to_max_relay.Relay.Service.deliver
    smtp_to_max_relay.Relay.Service.deliver_target smtp_to_max_relay.Relay.Service.error_text
    smtp_to_max_relay.Relay.Message.fallback smtp_to_max_relay.Relay.Service.in_turn
    smtp_to_max_relay.Relay.Message.message_text smtp_to_max_relay.Relay.Service.queued
    smtp_to_max_relay.Relay.Service.relay_email smtp_to_max_relay.Relay.Message.replace_tags
    smtp_to_max_relay.Relay.Message.rune_bytes smtp_to_max_relay.Relay.Service.send
    smtp_to_max_relay.Relay.Service.send_attachment smtp_to_max_relay.Relay.Service.send_chunk
    strip_html_basic smtp_to_max_relay.Relay.Message.tag_length smtp_to_max_relay.Relay.Message.utf8
    smtp_to_max_relay.Relay.Split.back_off smtp_to_max_relay.Relay.Split.best_text_split
    smtp_to_max_relay.Relay.Split.is_break smtp_to_max_relay.Relay.Split.last_break
    smtp_to_max_relay.Relay.Split.rune_cut smtp_to_max_relay.Relay.Split.split_loop
    split_text_message smtp_to_max_relay.Relay.Split.starts_at
relay_test = refl

abbrev some_image : Part
some_image = record {
  part_id = codes "1.2";
  content_type = codes " Image/png";
  content_id = codes "<logo@mail>";
  file_name = [];
  content = 1 ∷ 2 ∷ [];
  has_text_content = false;
}

-- The image is attached and inline.
abbrev some_envelope : Envelope
some_envelope = record {
  subject = [];
  from_header = [];
  message_id = [];
  to_header = [];
  text = [];
  html = [];
  attached = some some_image ∷ none ∷ [];
  inlines = some some_image ∷ [];
  other_parts = [];
}

envelope_parts_lem_example :
    Distinct (ids (envelope_parts some_envelope)) × All Exposed (envelope_parts some_envelope)
envelope_parts_lem_example = envelope_parts_lem some_envelope

attachment_file_name_test :
    attachment_file_name (λ t. some (codes ".png" ∷ [])) some_image ≡ codes "logo-mail.png"
unfolding attachment_file_name smtp_to_max_relay.Prelude.Text.trim_right
    smtp_to_max_relay.Prelude.Text.trim_left sanitize_attachment_token
    smtp_to_max_relay.Email.dashed smtp_to_max_relay.Prelude.Text.is_space
    smtp_to_max_relay.Email.is_token_rune
attachment_file_name_test = refl

envelope_parts_test : length (envelope_parts some_envelope) ≡ 1
unfolding smtp_to_max_relay.Prelude.Text.text_eq envelope_parts
    smtp_to_max_relay.Email.should_expose_as_attachment smtp_to_max_relay.Prelude.Text.has_prefix
    smtp_to_max_relay.Prelude.Text.trim_right smtp_to_max_relay.Prelude.Text.trim_left
    smtp_to_max_relay.Prelude.Text.is_space smtp_to_max_relay.Prelude.Text.lower_rune
    smtp_to_max_relay.Prelude.Text.contains
envelope_parts_test = refl
