-- ===== src/Relay/Service/Outcomes.antt =====
-- internal/relay/service.go: what Service.Relay delivers, and what it leaves in the queue.
use mathlib.Core.List.{append-nil}
use smtp_to_max_relay.Prelude.{ℕ, List, [], Option, some, ◌≡◌, refl, sym, ◌∙◌}
use smtp_to_max_relay.Prelude.Result.{Result, ok, err}
use smtp_to_max_relay.Prelude.Text.{Text}
use smtp_to_max_relay.Recipient.Address.{ParsedRecipient, ParseError, parse}
use smtp_to_max_relay.Relay.Split.{split_text_message}
use smtp_to_max_relay.Email.{ParsedEmail}
use smtp_to_max_relay.Relay.Message.{message_text}
use smtp_to_max_relay.Relay.Service.{
  RelayError, Run, Surroundings, Service, relay_email, relay_parsed, relay, max_text_message_bytes,
  parse_recipient, parse_email,
}
use smtp_to_max_relay.Relay.Service.Sending.{requests, Sends, Sending, Sends-then, deliver-Sending}

module _ (sha256_hex : Text → Text) (email_parse : List ℕ → Result Text ParsedEmail)
    (service : Service) (around : Surroundings) (rcpt : Text) (raw : List ℕ) where
  -- A message that is not parsed changes the counters only; the requests of one that is are those of
  -- its chunks and attachments, for every target.
  pub data IsRelayed (run : Run) : Run × Option RelayError → Type 0 where
    no_recipient :
        {after : Run} (e : ParseError)
        → parse service.recipients rcpt ≡ err e
        → after.sent ≡ run.sent
        → after.dlq ≡ run.dlq
        → IsRelayed run (after, some (parse_recipient e))
    no_email :
        {after : Run} (pr : ParsedRecipient) (e : Text)
        → parse service.recipients rcpt ≡ ok pr
        → email_parse raw ≡ err e
        → after.sent ≡ run.sent
        → after.dlq ≡ run.dlq
        → IsRelayed run (after, some (parse_email e))
    delivered :
        {r : Run × Option RelayError} (pr : ParsedRecipient) (em : ParsedEmail)
        → parse service.recipients rcpt ≡ ok pr
        → email_parse raw ≡ ok em
        → Sends sha256_hex email_parse service around rcpt raw
            (requests
              (split_text_message (message_text em) max_text_message_bytes)
              em.attachments
              pr.targets)
            run
            r
        → IsRelayed run r

  relay_email-IsRelayed :
      (run next : Run) (pr : ParsedRecipient) (m : Result Text ParsedEmail)
      → parse service.recipients rcpt ≡ ok pr
      → email_parse raw ≡ m
      → next.sent ≡ run.sent
      → next.dlq ≡ run.dlq
      → IsRelayed run (relay_email sha256_hex email_parse service around rcpt raw pr m next)
  unfolding relay_email Sending
  relay_email-IsRelayed run next pr (err e) h k s d = no_email pr e h k s d
  relay_email-IsRelayed run next pr (ok em) h k s d = delivered pr em h k (
      Sends-then sha256_hex email_parse service around rcpt raw [] _ run next _
        (s ∙ sym (append-nil run.sent)) d
        (deliver-Sending sha256_hex email_parse service around rcpt raw pr.source_local _
          em.attachments pr.targets next))

  relay_parsed-IsRelayed :
      (run next : Run) (m : Result ParseError ParsedRecipient)
      → parse service.recipients rcpt ≡ m
      → next.sent ≡ run.sent
      → next.dlq ≡ run.dlq
      → IsRelayed run (relay_parsed sha256_hex email_parse service around rcpt raw m next)
  unfolding relay_parsed
  relay_parsed-IsRelayed run next (err e) h s d = no_recipient e h s d
  relay_parsed-IsRelayed run next (ok pr) h s d =
      relay_email-IsRelayed run next pr (email_parse raw) h refl s d

  -- Every outcome of Relay. A recipient or an email that does not parse is an error, and nothing is sent
  -- or queued. Otherwise the error is nil just when every chunk of the text and every attachment
  -- was delivered to every target, in order, and the queue is as it was; with an error the
  -- requests before the failed one were delivered, and Enqueue has run for the message, unless
  -- there is no queue or the message comes from it.
  pub relay-IsRelayed :
      (run : Run) → IsRelayed run (relay sha256_hex email_parse service around rcpt raw run)
  unfolding relay
  relay-IsRelayed run = relay_parsed-IsRelayed run _ (parse service.recipients rcpt) refl refl refl
