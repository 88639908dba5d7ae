-- ===== src/Main/DryRun.antt =====
-- cmd/smtp-to-max-relay/main.go, with internal/relay/service.go: what the dry run foretells.
use smtp_to_max_relay.Prelude.{ℕ, List, Option, some, ◌≡◌, refl, length}
use smtp_to_max_relay.Prelude.Result.{Result, ok, err}
use smtp_to_max_relay.Prelude.Text.{Text}
use smtp_to_max_relay.Recipient.Address.{ParsedRecipient, parse}
use smtp_to_max_relay.Email.{ParsedEmail}
use smtp_to_max_relay.Relay.Split.{split_text_message}
use smtp_to_max_relay.Relay.Message.{message_text}
use smtp_to_max_relay.Relay.Service.{
  RelayError, parse_recipient, parse_email, Run, Surroundings, Service, relay,
  max_text_message_bytes,
}
use smtp_to_max_relay.Relay.Service.Sending.{requests, Sends}
use smtp_to_max_relay.Relay.Service.Outcomes.{
  IsRelayed, no_recipient, no_email, delivered, relay-IsRelayed,
}
use smtp_to_max_relay.Main.{
  DryRunError, bad_recipient, bad_email, dry_run, dry_recipient, dry_email,
}

module _ (sha256_hex : Text → Text) (email_parse : List ℕ → Result Text ParsedEmail)
    (service : Service) (around : Surroundings) (rcpt : Text) (raw : List ℕ) (run : Run) where
  -- What Relay makes of the error.
  wrapped : DryRunError → RelayError
  wrapped (bad_recipient e) = parse_recipient e
  wrapped (bad_email e) = parse_email e

  -- What the relay does, by what the dry run says.
  unfoldable pub IsForetold :
      Result DryRunError (ParsedRecipient × ℕ) → Run × Option RelayError → Type 0
  unfolding wrapped
  IsForetold (err e) r = (r.1 ≡ some (wrapped e)) × (r.0.sent ≡ run.sent) × (r.0.dlq ≡ run.dlq)
  IsForetold (ok (pr, attachments)) r =
      (em : ParsedEmail) × (parse service.recipients rcpt ≡ ok pr)
      × (email_parse raw ≡ ok em)
      × (attachments ≡ length em.attachments)
      × Sends sha256_hex email_parse service around rcpt raw
          (requests (split_text_message (message_text em) max_text_message_bytes) em.attachments
            pr.targets)
          run r

  foretold :
      (r : Run × Option RelayError)
      → IsRelayed sha256_hex email_parse service around rcpt raw run r
      → IsForetold (dry_run email_parse service.recipients rcpt raw) r
  unfolding dry_run dry_recipient dry_email IsForetold
  foretold r (no_recipient e h s d) = rw h (refl, s, d)
  foretold r (no_email pr e h k s d) = rw (h, k) (refl, s, d)
  foretold r (delivered pr em h k sends) = rw (h, k) (em, h, k, refl, sends)

  -- When the dry run of a dead letter fails, on its recipient or its email, the relay fails with that error
  -- in its own wrapping, and sends and queues nothing. Otherwise the recipient and the email are
  -- parsed, the dry run tells that recipient and the number of the email's attachments, and the relay
  -- sends the requests of that email to that recipient's targets: all of them, or those before the
  -- first that fails.
  pub dry_run-relay :
      IsForetold
        (dry_run email_parse service.recipients rcpt raw)
        (relay sha256_hex email_parse service around rcpt raw run)
  dry_run-relay =
      foretold (relay sha256_hex email_parse service around rcpt raw run)
        (relay-IsRelayed sha256_hex email_parse service around rcpt raw run)
