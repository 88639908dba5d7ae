-- ===== src/Relay/Service.antt =====
-- internal/relay/service.go: Service.Relay. The calls of the sender are
-- numbered, and the environment says what each gives. The email parser is an interface.
-- Latencies and the log are not modelled; the metrics are there.
pub mod Sending
pub mod Outcomes
use smtp_to_max_relay.Prelude.{
  ℕ, zero, suc, ◌+◌, ◌-◌, ◌/◌, ◌%◌, Bool, true, false, not, ◌&&◌, ◌||◌, List, [], ◌∷◌, ◌++◌, Option,
  none, some, if◌then◌else◌, ltb, ◌==◌, is_empty, filter, map,
}
use smtp_to_max_relay.Prelude.Result.{Result, ok, err}
use smtp_to_max_relay.Prelude.Text.{Text, codes, trim_space, has_prefix}
use smtp_to_max_relay.Recipient.Address.{
  Parser, RecipientTarget, ParsedRecipient, ParseError, parse,
}
use smtp_to_max_relay.Dlq.Item.{Item, Store, StoreError}
use smtp_to_max_relay.Dlq.Store.{enqueue}
use smtp_to_max_relay.Email.{Attachment, ParsedEmail}
use smtp_to_max_relay.Relay.Message.{message_text}
use smtp_to_max_relay.Relay.Split.{split_text_message}
use smtp_to_max_relay.Relay.Retry.{Reply, SendError, refused, context_done, send_with_retry}

abbrev pub max_text_message_bytes : ℕ
max_text_message_bytes = 4000

pub data Request : Type 0 where
  send_text : Text → List ℕ → Bool → Request
  send_file : Text → Attachment → Bool → Request

-- The error that stopped the sending, and the queue's own error when the message was not queued.
pub data RelayError : Type 0 where
  parse_recipient : ParseError → RelayError
  parse_email : Text → RelayError
  text_failed : SendError → Option StoreError → RelayError
  file_failed : Text → SendError → Option StoreError → RelayError

-- One call of ObserveDelivery: the recipient, success, the chat and the source.
pub record Delivery : Type 0 where
  pub recipient : Text
  pub success : Bool
  pub chat : Text
  pub source : Text

pub record Counters : Type 0 where
  pub received : ℕ
  pub relayed : ℕ
  pub failed : ℕ
  pub text_sent : ℕ
  pub files_sent : ℕ
  pub dlq_enqueued : ℕ
  pub deliveries : List Delivery

-- The state of the service: the next call of the sender, what it has delivered, and the queue,
-- if there is one.
pub record Run : Type 0 where
  pub call : ℕ
  pub sent : List Request
  pub dlq : Option Store
  pub counters : Counters

-- What a relay meets: the sender's replies, the text of the context's error, and for Enqueue the
-- clock, the new id and the disk write.
pub record Surroundings : Type 0 where
  pub replies : ℕ → Reply
  pub context_error : Text
  pub now : ℕ
  pub new_id : Text
  pub disk_write : Option Text

pub record Service : Type 0 where
  pub recipients : Parser
  pub max_send_retries : ℕ
  pub bypass_dlq : Bool

abbrev pub Action : Type 0
Action = Run → Run × Option RelayError

unfoldable pub and_then : Run × Option RelayError → Action → Run × Option RelayError
and_then (run, none) next = next run
and_then (run, some e) next = (run, some e)

-- One action after the other, up to the first that fails.
unfoldable pub in_turn : List Action → Action
unfolding and_then
in_turn [] run = (run, none)
in_turn (action ∷ actions) run = and_then (action run) (in_turn actions)

unfoldable pub count : (Counters → Counters) → Action
count change run = (record run { counters = change run.counters }, none)

abbrev pub count_failure : Delivery → Counters → Counters
count_failure delivery counters = record counters {
  failed = counters.failed + 1;
  deliveries = counters.deliveries ++ delivery ∷ [];
}

abbrev pub count_text : Counters → Counters
count_text counters = record counters { text_sent = counters.text_sent + 1 }

abbrev pub count_file : Counters → Counters
count_file counters = record counters { files_sent = counters.files_sent + 1 }

abbrev pub count_relayed : Delivery → Counters → Counters
count_relayed delivery counters = record counters {
  relayed = counters.relayed + 1;
  deliveries = counters.deliveries ++ delivery ∷ [];
}

module _ (sha256_hex : Text → Text) (email_parse : List ℕ → Result Text ParsedEmail) where
  module _ (service : Service) (around : Surroundings) where
    unfoldable pub error_text : SendError → Text
    error_text (refused e) = e
    error_text context_done = around.context_error

    -- The queue behind a failed send: the message is put in, if there is a queue and no replay.
    unfoldable pub queued :
        Text → List ℕ → SendError → Option Store → Option (Store × Result StoreError Item)
    queued rcpt raw e none = none
    queued rcpt raw e (some store) =
        if service.bypass_dlq
        then none
        else some (
            enqueue sha256_hex rcpt raw (some (error_text e)) around.now around.new_id
              around.disk_write store)

    stopped_with :
        (SendError → Option StoreError → RelayError)
        → SendError
        → Run
        → Option (Store × Result StoreError Item)
        → Run × Option RelayError
    stopped_with failure e run none = (run, some (failure e none))
    stopped_with failure e run (some (store, err q)) =
        (record run { dlq = some store }, some (failure e (some q)))
    stopped_with failure e run (some (store, ok item)) =
        let counters = record run.counters { dlq_enqueued = run.counters.dlq_enqueued + 1 } in
        (record run { dlq = some store; counters = counters }, some (failure e none))

    -- Behind the retries of a request.
    after_send :
        Text
        → List ℕ
        → Delivery
        → Request
        → (SendError → Option StoreError → RelayError)
        → Run
        → Option SendError
        → Run × Option RelayError
    unfolding queued stopped_with
    after_send rcpt raw delivery request failure run none =
        (record run { sent = run.sent ++ request ∷ [] }, none)
    after_send rcpt raw delivery request failure run (some e) =
        stopped_with failure e (record run { counters = count_failure delivery run.counters })
          (queued rcpt raw e run.dlq)

    unfoldable pub send :
        Text → List ℕ → Delivery → Request → (SendError → Option StoreError → RelayError) → Action
    unfolding after_send
    send rcpt raw delivery request failure run =
        let result = send_with_retry around.replies service.max_send_retries run.call in
        after_send rcpt raw delivery request failure (record run { call = result.next_call })
          result.failed

    module _ (rcpt : Text) (raw : List ℕ) (source : Text) where
      abbrev pub delivery_to : Bool → RecipientTarget → Delivery
      delivery_to success target = record {
        recipient = rcpt;
        success = success;
        chat = target.chat_id;
        source = source;
      }

      unfoldable pub send_chunk : RecipientTarget → List ℕ → Action
      unfolding send
      send_chunk target chunk =
          send rcpt raw (delivery_to false target) (send_text target.chat_id chunk target.silent)
            text_failed

      unfoldable pub send_attachment : RecipientTarget → Attachment → Action
      unfolding send
      send_attachment target a = in_turn (
          send rcpt raw (delivery_to false target) (send_file target.chat_id a target.silent)
            (file_failed a.filename)
          ∷ count count_file
          ∷ [])

      -- The body of the loop over the targets.
      unfoldable pub deliver_target : List (List ℕ) → List Attachment → RecipientTarget → Action
      unfolding send_chunk send_attachment
      deliver_target chunks attachments target = in_turn (
          in_turn (map (send_chunk target) chunks)
          ∷ count count_text
          ∷ in_turn (map (send_attachment target) attachments)
          ∷ count (count_relayed (delivery_to true target))
          ∷ [])

      unfoldable pub deliver : List (List ℕ) → List Attachment → List RecipientTarget → Action
      unfolding deliver_target
      deliver chunks attachments targets = in_turn (map (deliver_target chunks attachments) targets)

  abbrev pub first_chat : List RecipientTarget → Text
  first_chat [] = []
  first_chat (target ∷ targets) = target.chat_id

  unfoldable pub relay_email :
      Service → Surroundings → Text → List ℕ → ParsedRecipient → Result Text ParsedEmail → Action
  unfolding message_text deliver
  relay_email service around rcpt raw pr (err e) run =
      let delivery : Delivery = record {
        recipient = rcpt;
        success = false;
        chat = first_chat pr.targets;
        source = pr.source_local;
      } in
      (record run { counters = count_failure delivery run.counters }, some (parse_email e))
  relay_email service around rcpt raw pr (ok em) run =
      deliver service around rcpt raw pr.source_local
        (split_text_message (message_text em) max_text_message_bytes) em.attachments pr.targets run

  relay_parsed : Service → Surroundings → Text → List ℕ → Result ParseError ParsedRecipient → Action
  unfolding relay_email
  relay_parsed service around rcpt raw (err e) run =
      let delivery : Delivery = record {
        recipient = rcpt;
        success = false;
        chat = [];
        source = [];
      } in
      (record run { counters = count_failure delivery run.counters }, some (parse_recipient e))
  relay_parsed service around rcpt raw (ok pr) run =
      relay_email service around rcpt raw pr (email_parse raw) run

  -- Service.Relay
  unfoldable pub relay : Service → Surroundings → Text → List ℕ → Action
  unfolding relay_parsed
  relay service around rcpt raw run =
      let counters = record run.counters { received = run.counters.received + 1 } in
      relay_parsed service around rcpt raw (parse service.recipients rcpt)
        (record run { counters = counters })
