-- ===== src/Relay/Service/Sending.antt =====
-- internal/relay/service.go: the requests of a message and the queue behind them, for every loop of
-- Service.Relay.
use mathlib.Core.List.{append_assoc, append-nil}
use smtp_to_max_relay.Prelude.{
  ℕ, true, false, List, [], ◌∷◌, ◌++◌, Option, none, some, map, ◌≡◌, refl, sym, ap, subst, ◌∙◌,
  if-cases,
}
use smtp_to_max_relay.Prelude.Result.{Result, ok, err}
use smtp_to_max_relay.Prelude.Text.{Text}
use smtp_to_max_relay.Recipient.Address.{RecipientTarget}
use smtp_to_max_relay.Dlq.Item.{Store, Item, StoreError}
use smtp_to_max_relay.Dlq.Store.{enqueue}
use smtp_to_max_relay.Relay.Retry.{SendError, send_with_retry}
use smtp_to_max_relay.Email.{Attachment, ParsedEmail}
use smtp_to_max_relay.Relay.Service.{
  Request, send_text, send_file, RelayError, Delivery, Counters, Run, Surroundings, Service, Action,
  and_then, in_turn, count, queued, count_failure, stopped_with, after_send, send, send_chunk,
  send_attachment, deliver_target, deliver, count_text, count_file, count_relayed, text_failed,
  file_failed, error_text,
}

-- The requests that make up a message: for every target the chunks, then the attachments.
unfoldable pub requests_to : List (List ℕ) → List Attachment → RecipientTarget → List Request
requests_to chunks attachments t =
    map (λ chunk. send_text t.chat_id chunk t.silent) chunks
    ++ map (λ a. send_file t.chat_id a t.silent) attachments

unfoldable pub requests : List (List ℕ) → List Attachment → List RecipientTarget → List Request
unfolding requests_to
requests chunks attachments [] = []
requests chunks attachments (t ∷ targets) =
    requests_to chunks attachments t ++ requests chunks attachments targets

module _ (sha256_hex : Text → Text) (email_parse : List ℕ → Result Text ParsedEmail)
    (service : Service) (around : Surroundings) (rcpt : Text) (raw : List ℕ) where
  -- The queue behind a failed send: none stays none, a replay leaves it, and otherwise Enqueue has run
  -- on it for the whole message.
  pub data IsQueued (before : Option Store) : Option Store → Type 0 where
    no_queue : before ≡ none → IsQueued before none
    bypassed : service.bypass_dlq ≡ true → IsQueued before before
    enqueued :
        (e : Text) (store : Store)
        → before ≡ some store
        → service.bypass_dlq ≡ false
        → IsQueued before (
            some
              (enqueue sha256_hex rcpt raw
                (some e)
                around.now
                around.new_id
                around.disk_write
                store).0)

  -- All requests were delivered, in order, with no error and the queue as it was; or those before one
  -- of them, with an error, and the message is in the queue.
  pub data Sends (all_of : List Request) (run : Run) : Run × Option RelayError → Type 0 where
    complete :
        {after : Run}
        → after.sent ≡ run.sent ++ all_of
        → after.dlq ≡ run.dlq
        → Sends all_of run (after, none)
    stopped :
        {after : Run} {e : RelayError} (before : List Request) (request : Request)
        (behind : List Request)
        → all_of ≡ before ++ request ∷ behind
        → after.sent ≡ run.sent ++ before
        → IsQueued run.dlq after.dlq
        → Sends all_of run (after, some e)

  unfoldable pub Sending : List Request → Action → Type 0
  Sending all_of action = (run : Run) → Sends all_of run (action run)

  nothing-Sending : (change : Counters → Counters) → Sending [] (count change)
  unfolding Sending count
  nothing-Sending change run = complete (sym (append-nil run.sent)) refl

  pub Sends-then :
      (first second : List Request) (run after : Run) (r : Run × Option RelayError)
      → after.sent ≡ run.sent ++ first
      → after.dlq ≡ run.dlq
      → Sends second after r
      → Sends (first ++ second) run r
  Sends-then first second run after r s d (complete s' d') =
      complete (s' ∙ ap (λ l. l ++ second) s ∙ append_assoc run.sent first second) (d' ∙ d)
  Sends-then first second run after r s d (stopped {after = last} before request behind e s' q) =
      stopped (first ++ before) request behind
        (ap (λ l. first ++ l) e ∙ sym (append_assoc first before (request ∷ behind)))
        (s' ∙ ap (λ l. l ++ before) s ∙ append_assoc run.sent first before)
        (subst (λ o. IsQueued o last.dlq) d q)

  and_then-Sends :
      (first second : List Request) (run : Run) (r : Run × Option RelayError) (next : Action)
      → Sends first run r
      → Sending second next
      → Sends (first ++ second) run (and_then r next)
  unfolding and_then Sending
  and_then-Sends first second run (after, none) next (complete s d) h =
      Sends-then first second run after (next after) s d (h after)
  and_then-Sends first second run (after, some e) next (stopped before request behind eq s q) h =
      stopped before request (behind ++ second)
        (ap (λ l. l ++ second) eq ∙ append_assoc before (request ∷ behind) second) s q

  Sending-append-nil :
      (l : List Request) (action : Action) → Sending (l ++ []) action → Sending l action
  Sending-append-nil l action h = subst (λ x. Sending x action) (append-nil l) h

  in_turn-nil : Sending [] (in_turn [])
  unfolding Sending in_turn
  in_turn-nil run = complete (sym (append-nil run.sent)) refl

  in_turn-cons :
      (first second : List Request) (action : Action) (actions : List Action)
      → Sending first action
      → Sending second (in_turn actions)
      → Sending (first ++ second) (in_turn (action ∷ actions))
  unfolding Sending in_turn
  in_turn-cons first second action actions h k run =
      and_then-Sends first second run (action run) (in_turn actions) (h run) k

  -- The queue that a result of `queued` leaves.
  left_by : Option Store → Option (Store × Result StoreError Item) → Option Store
  left_by before none = before
  left_by before (some (store, q)) = some store

  queued-IsQueued :
      (e : SendError) (before : Option Store)
      → IsQueued before
          (left_by before (queued sha256_hex email_parse service around rcpt raw e before))
  unfolding queued left_by
  queued-IsQueued e none = no_queue refl
  queued-IsQueued e (some store) =
      if-cases (λ q. IsQueued (some store) (left_by (some store) q)) service.bypass_dlq
        (λ b. bypassed b)
        (λ b. enqueued (error_text sha256_hex email_parse service around e) store refl b)

  stopped_with-Sends :
      (failure : SendError → Option StoreError → RelayError) (e : SendError) (request : Request)
      (run next : Run) (q : Option (Store × Result StoreError Item))
      → next.sent ≡ run.sent
      → IsQueued run.dlq (left_by next.dlq q)
      → Sends
          (request ∷ [])
          run
          (stopped_with sha256_hex email_parse service around failure e next q)
  unfolding stopped_with left_by
  stopped_with-Sends failure e request run next none s h =
      stopped [] request [] refl (s ∙ sym (append-nil run.sent)) h
  stopped_with-Sends failure e request run next (some (store, err x)) s h =
      stopped [] request [] refl (s ∙ sym (append-nil run.sent)) h
  stopped_with-Sends failure e request run next (some (store, ok item)) s h =
      stopped [] request [] refl (s ∙ sym (append-nil run.sent)) h

  module _ (delivery : Delivery) (request : Request)
      (failure : SendError → Option StoreError → RelayError) where
    after_send-Sends :
        (run next : Run) (o : Option SendError)
        → next.sent ≡ run.sent
        → next.dlq ≡ run.dlq
        → Sends (request ∷ []) run (
            after_send sha256_hex email_parse service around rcpt raw delivery request failure next
              o)
    unfolding after_send
    after_send-Sends run next none s d = complete (ap (λ l. l ++ request ∷ []) s) d
    after_send-Sends run next (some e) s d =
        stopped_with-Sends failure e request run
          (record next { counters = count_failure delivery next.counters }) _ s
          (subst
            (λ o.
              IsQueued o (
                left_by next.dlq
                  (queued sha256_hex email_parse service around rcpt raw e next.dlq)))
            d (queued-IsQueued e next.dlq))

    send-Sending :
        Sending
          (request ∷ [])
          (send sha256_hex email_parse service around rcpt raw delivery request failure)
    unfolding Sending send
    send-Sending run =
        let result = send_with_retry around.replies service.max_send_retries run.call in
        after_send-Sends run (record run { call = result.next_call }) result.failed refl refl

  module _ (source : Text) (t : RecipientTarget) where
    texts-Sending :
        (chunks : List (List ℕ))
        → Sending (map (λ chunk. send_text t.chat_id chunk t.silent) chunks) (
            in_turn
              (map (send_chunk sha256_hex email_parse service around rcpt raw source t) chunks))
    unfolding send_chunk
    texts-Sending [] = in_turn-nil
    texts-Sending (chunk ∷ chunks) =
        in_turn-cons (send_text t.chat_id chunk t.silent ∷ []) _ _ _ (send-Sending _ _ text_failed)
          (texts-Sending chunks)

    attachment-Sending :
        (a : Attachment)
        → Sending
            (send_file t.chat_id a t.silent ∷ [])
            (send_attachment sha256_hex email_parse service around rcpt raw source t a)
    unfolding send_attachment
    attachment-Sending a =
        in_turn-cons (send_file t.chat_id a t.silent ∷ []) [] _ _
          (send-Sending _ _ (file_failed a.filename))
          (in_turn-cons [] [] _ _ (nothing-Sending count_file) in_turn-nil)

    files-Sending :
        (attachments : List Attachment)
        → Sending (map (λ a. send_file t.chat_id a t.silent) attachments) (
            in_turn (
              map
                (send_attachment sha256_hex email_parse service around rcpt raw source t)
                attachments))
    files-Sending [] = in_turn-nil
    files-Sending (a ∷ attachments) =
        in_turn-cons (send_file t.chat_id a t.silent ∷ []) _ _ _ (attachment-Sending a)
          (files-Sending attachments)

    deliver_target-Sending :
        (chunks : List (List ℕ)) (attachments : List Attachment)
        → Sending (requests_to chunks attachments t) (
            deliver_target sha256_hex email_parse service around rcpt raw source chunks attachments
              t)
    unfolding deliver_target requests_to
    deliver_target-Sending chunks attachments =
        let files = map (λ a. send_file t.chat_id a t.silent) attachments in
        in_turn-cons _ files _ _ (texts-Sending chunks) (
          in_turn-cons [] files _ _ (nothing-Sending count_text) (
            Sending-append-nil files _ (
              in_turn-cons files [] _ _ (files-Sending attachments) (
                in_turn-cons [] [] _ _
                  (nothing-Sending (
                    count_relayed (record {
                      recipient = rcpt;
                      success = true;
                      chat = t.chat_id;
                      source = source;
                    })))
                  in_turn-nil))))

  pub deliver-Sending :
      (source : Text) (chunks : List (List ℕ)) (attachments : List Attachment)
      (targets : List RecipientTarget)
      → Sending
          (requests chunks attachments targets)
          (deliver sha256_hex email_parse service around rcpt raw source chunks attachments targets)
  unfolding deliver requests
  deliver-Sending source chunks attachments [] = in_turn-nil
  deliver-Sending source chunks attachments (t ∷ targets) =
      in_turn-cons (requests_to chunks attachments t) _ _ _
        (deliver_target-Sending source t chunks attachments)
        (deliver-Sending source chunks attachments targets)
