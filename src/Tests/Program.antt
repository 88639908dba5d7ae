-- ===== src/Tests/Program.antt =====
-- The listener and the start of the program at concrete inputs.
use smtp_to_max_relay.Prelude.{
  ℕ, Bool, true, false, List, [], ◌∷◌, Option, none, some, ◌≡◌, refl, arith, ◌≤◌, ◌<◌, ◌+◌,
  if◌then◌else◌, length,
}
use smtp_to_max_relay.Prelude.Result.{ok}
use smtp_to_max_relay.Prelude.Text.{Text, codes, text_eq}
use smtp_to_max_relay.Smtp.Listen.{
  Listener, Event, accepted, slot_taken, session_done, context_done, accept_failed, all_done, run,
  new_listener, returned, waiting,
}
use smtp_to_max_relay.Smtp.Listen.Slots.{IsListener, run-IsListener}
use smtp_to_max_relay.Recipient.Address.{invalid_recipient_format}
use smtp_to_max_relay.Recipient.AliasFile.{AliasFile, missing}
use smtp_to_max_relay.Dlq.Item.{Store}
use smtp_to_max_relay.Dlq.Store.{StoreFile}
use smtp_to_max_relay.Email.{ParsedEmail}
use smtp_to_max_relay.Config.{config_from, Numbers}
use smtp_to_max_relay.Relay.Service.{Service, Surroundings, Run, relay, parse_recipient}
use smtp_to_max_relay.Main.{Program, start, program_of}
use smtp_to_max_relay.Main.DryRun.{dry_run-relay}
use smtp_to_max_relay.Main.Start.{IsProgram, start-IsProgram}

abbrev one_slot : List Event
one_slot = accepted ∷ slot_taken ∷ accepted ∷ session_done 1 ∷ slot_taken ∷ context_done ∷ []

abbrev after_one_slot : Listener
after_one_slot = record (new_listener 1) { cancelled = true; session_seq = 2; running = 2 ∷ [] }

run-IsListener_example : IsListener 6 after_one_slot
unfolding new_listener run smtp_to_max_relay.Smtp.Listen.step
run-IsListener_example = run-IsListener 1 one_slot {last = after_one_slot} (omega arith) refl

abbrev no_variables : Text → Text
no_variables key = []

abbrev default_numbers : Numbers
default_numbers = record {
  message_bytes = 15728640;
  sessions = 200;
  send_timeout_sec = 15;
  send_rps = 20;
  burst = 40;
  queue_capacity = 200;
  queue_wait_ms = 1000;
  relay_retries = 2;
  retry_delay_ms = 300;
  admin_chat = 0;
  enabled = true;
  worker_interval_ms = 2000;
  dlq_retries = 10;
  base_delay_ms = 1000;
  max_delay_ms = 300000;
}

abbrev empty_store : Store
empty_store = record { items = []; disk = none }

abbrev default_program : Program
default_program = program_of (config_from no_variables default_numbers) [] none (some empty_store)

start-IsProgram_example : IsProgram AliasFile.missing default_program
unfolding start smtp_to_max_relay.Config.load smtp_to_max_relay.Config.read_numbers
    smtp_to_max_relay.Config.get_env_int smtp_to_max_relay.Config.get_env_bool
    smtp_to_max_relay.Config.checks_of config_from smtp_to_max_relay.Config.get_env text_eq
    smtp_to_max_relay.Recipient.AliasFile.load_aliases smtp_to_max_relay.Main.open_store
    smtp_to_max_relay.Dlq.Store.new_file_store
start-IsProgram_example =
    start-IsProgram (λ t. t) no_variables AliasFile.missing none none StoreFile.missing
      {p = default_program} refl

abbrev plain_email : ParsedEmail
plain_email = record {
  sender = codes "a@b.c";
  subject = codes "S";
  recipients = [];
  text_body = codes "Hi";
  html_body = [];
  attachments = [];
  message_id = [];
}

abbrev idle_run : Run
idle_run = record {
  call = 0;
  sent = [];
  dlq = none;
  counters = record {
    received = 0;
    relayed = 0;
    failed = 0;
    text_sent = 0;
    files_sent = 0;
    dlq_enqueued = 0;
    deliveries = [];
  };
}

abbrev replay_service : Service
replay_service = record {
  recipients = record { allowed_domain = codes "r.l"; aliases = [] };
  max_send_retries = 0;
  bypass_dlq = true;
}

abbrev idle_surroundings : Surroundings
idle_surroundings = record {
  replies = λ n. record { failure = none; cancelled = false };
  context_error = codes "context canceled";
  now = 6;
  new_id = codes "c";
  disk_write = none;
}

dry_run-relay_example :
    (relay
      (λ t. t)
      (λ raw. ok plain_email)
      replay_service
      idle_surroundings
      (codes "x")
      (72 ∷ [])
      idle_run).1
    ≡ some (parse_recipient (invalid_recipient_format (codes "x")))
unfolding smtp_to_max_relay.Main.DryRun.IsForetold smtp_to_max_relay.Main.dry_run
    smtp_to_max_relay.Recipient.Address.parse smtp_to_max_relay.Recipient.Address.parse_parts
    smtp_to_max_relay.Prelude.Text.split_by smtp_to_max_relay.Prelude.Text.trim_right
    smtp_to_max_relay.Prelude.Text.trim_left smtp_to_max_relay.Prelude.Text.is_space
    smtp_to_max_relay.Prelude.Text.lower_rune
dry_run-relay_example =
    (dry_run-relay (λ t. t) (λ raw. ok plain_email) replay_service idle_surroundings (codes "x")
      (72 ∷ []) idle_run).0
