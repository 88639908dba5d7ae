-- ===== src/Tests/Recipients.antt =====
-- internal/recipient and internal/config at concrete inputs.
use smtp_to_max_relay.Prelude.{
  ℕ, Bool, true, false, not, List, [], ◌∷◌, Option, none, some, ◌≡◌, refl, arith, is_empty, all,
  ◌++◌, map, ◌⊎◌, if◌then◌else◌,
}
use smtp_to_max_relay.Prelude.Result.{ok, err}
use smtp_to_max_relay.Prelude.Text.{Text, codes, contains, is_digit, text_eq}
use smtp_to_max_relay.Prelude.Assoc.{Assoc, lookup}
use smtp_to_max_relay.Recipient.Address.{
  Parser, ParseError, ParsedRecipient, RecipientTarget, new_parser, parse,
}
use smtp_to_max_relay.Recipient.Address.Sound.{parse-IsParsed, IsParsed}
use smtp_to_max_relay.Recipient.Address.Written.{local_part}
use smtp_to_max_relay.Recipient.Address.RoundTrip.{parse-address_of}
use smtp_to_max_relay.Recipient.Aliases.{AliasEdit, edits, set_group, add_targets, remove_targets}
use smtp_to_max_relay.Recipient.Aliases.Table.{IsEntry}
use smtp_to_max_relay.Recipient.Aliases.Expansion.{is_valid, parse_alias_lem}
use smtp_to_max_relay.Recipient.Aliases.Refinement.{edits-Implements, reaches}
use smtp_to_max_relay.Recipient.AliasFile.{AliasFile, entries, strings, string, load_aliases}
use smtp_to_max_relay.Recipient.AliasFile.Loading.{edits-load-IsTable, load_aliases-IsTable}
use smtp_to_max_relay.Config.{Config, load, config_from, read_numbers, Numbers}
use smtp_to_max_relay.Config.Checks.{IsValid, load-IsValid}

abbrev relay_parser : Parser
relay_parser = record { allowed_domain = codes "r.l"; aliases = [] }

abbrev silent_target : RecipientTarget
silent_target = record { chat_id = codes "-12"; silent = true; local = codes "chatid-12.silent" }

abbrev silent_recipient : ParsedRecipient
silent_recipient = record {
  targets = silent_target ∷ [];
  raw_local = codes "chatid-12.silent";
  raw_addr = codes "chatid-12.silent@r.l";
  source_local = codes "chatid-12.silent";
  alias_used = false;
}

abbrev written_recipient : ParsedRecipient
written_recipient = record silent_recipient { raw_addr = codes " ChatID-12.silent@R.l" }

parse-IsParsed_example : IsParsed relay_parser (codes " ChatID-12.silent@R.l") written_recipient
unfolding parse smtp_to_max_relay.Recipient.Address.parse_parts
    smtp_to_max_relay.Prelude.Text.split_by smtp_to_max_relay.Prelude.Text.trim_right
    smtp_to_max_relay.Prelude.Text.trim_left smtp_to_max_relay.Prelude.Text.is_space
    smtp_to_max_relay.Prelude.Text.lower_rune text_eq smtp_to_max_relay.Recipient.Address.resolve
    smtp_to_max_relay.Recipient.Address.resolve_targets lookup
    smtp_to_max_relay.Recipient.Address.resolve_target
    smtp_to_max_relay.Recipient.Address.parse_chat_id_base smtp_to_max_relay.Prelude.Text.has_prefix
    smtp_to_max_relay.Prelude.Text.cut smtp_to_max_relay.Recipient.Address.parse_prefixed_chat_id
    is_digit smtp_to_max_relay.Prelude.Text.contains_rune smtp_to_max_relay.Prelude.Text.join
    smtp_to_max_relay.Recipient.Address.has_flag
parse-IsParsed_example =
    parse-IsParsed relay_parser (codes " ChatID-12.silent@R.l") {r = written_recipient} refl

parse-address_of_example : parse relay_parser (codes "chatid-12.silent@r.l") ≡ ok silent_recipient
unfolding is_digit smtp_to_max_relay.Recipient.Address.Written.is_local
    smtp_to_max_relay.Recipient.Address.Written.is_plain smtp_to_max_relay.Prelude.Text.lower_rune
    smtp_to_max_relay.Prelude.Text.is_space lookup
parse-address_of_example = parse-address_of relay_parser true (codes "12") true refl refl refl refl

abbrev some_edits : List AliasEdit
some_edits =
    set_group (codes " Ops ") (codes "chatid1" ∷ codes "chatid2" ∷ codes "CHATID1" ∷ [])
    ∷ add_targets (codes "ops") (codes "chatid3" ∷ [])
    ∷ remove_targets (codes "ops") (codes "chatid1" ∷ [])
    ∷ []

edits-Implements_example :
    reaches (edits relay_parser some_edits).aliases (codes "ops") (codes "chatid3") ≡ true
unfolding text_eq smtp_to_max_relay.Prelude.Text.trim_right smtp_to_max_relay.Prelude.Text.trim_left
    smtp_to_max_relay.Prelude.Text.is_space smtp_to_max_relay.Prelude.Text.lower_rune
edits-Implements_example =
    edits-Implements relay_parser (reaches []) some_edits (λ key t. refl) (codes "ops")
      (codes "chatid3")

abbrev alias_file : AliasFile
alias_file = entries ((codes " Team", strings (codes "chatid7" ∷ codes "ChatID7 " ∷ [])) ∷ [])

edits-load-IsTable_example : IsEntry (codes "team") (codes "chatid7" ∷ [])
unfolding load_aliases smtp_to_max_relay.Recipient.AliasFile.parse_alias_value
    smtp_to_max_relay.Recipient.Aliases.normalize_alias_targets
    smtp_to_max_relay.Prelude.Text.trim_right smtp_to_max_relay.Prelude.Text.trim_left
    smtp_to_max_relay.Prelude.Text.is_space smtp_to_max_relay.Prelude.Text.lower_rune contains
    text_eq smtp_to_max_relay.Prelude.Assoc.insert lookup edits
    smtp_to_max_relay.Recipient.Aliases.edit
    smtp_to_max_relay.Recipient.Aliases.remove_alias_targets
    smtp_to_max_relay.Recipient.Aliases.add_alias_targets smtp_to_max_relay.Recipient.Aliases.merge
    smtp_to_max_relay.Recipient.Aliases.set_alias_group smtp_to_max_relay.Prelude.Assoc.delete
    smtp_to_max_relay.Recipient.Aliases.delete_alias new_parser
edits-load-IsTable_example =
    (edits-load-IsTable alias_file (codes "r.l") some_edits
        {loaded = (codes "team", codes "chatid7" ∷ []) ∷ []} refl).1
      (codes "team") (codes "chatid7" ∷ []) refl

abbrev mixed_file : AliasFile
mixed_file = entries ((codes "team", strings (codes "chatid7" ∷ codes "chatidx" ∷ [])) ∷ [])

abbrev mixed_parser : Parser
mixed_parser = record {
  allowed_domain = codes "r.l";
  aliases = (codes "team", codes "chatid7" ∷ codes "chatidx" ∷ []) ∷ [];
}

parse_alias_lem_example :
    ((all is_valid (codes "chatid7" ∷ codes "chatidx" ∷ []) ≡ true)
      × ((r : ParsedRecipient) × (parse mixed_parser (codes "team@r.l") ≡ ok r)
          × (map (λ t. t.local) r.targets ≡ codes "chatid7" ∷ codes "chatidx" ∷ [])
          × (r.source_local ≡ codes "team")
          × (r.alias_used ≡ true)))
    ⊎ ((all is_valid (codes "chatid7" ∷ codes "chatidx" ∷ []) ≡ false)
        × ((x : ParseError) × (parse mixed_parser (codes "team@r.l") ≡ err x)))
unfolding smtp_to_max_relay.Recipient.Address.Written.is_local
    smtp_to_max_relay.Recipient.Address.Written.is_plain smtp_to_max_relay.Prelude.Text.lower_rune
    smtp_to_max_relay.Prelude.Text.is_space load_aliases
    smtp_to_max_relay.Recipient.AliasFile.parse_alias_value
    smtp_to_max_relay.Recipient.Aliases.normalize_alias_targets
    smtp_to_max_relay.Prelude.Text.trim_right smtp_to_max_relay.Prelude.Text.trim_left contains
    text_eq smtp_to_max_relay.Prelude.Assoc.insert lookup
parse_alias_lem_example =
    parse_alias_lem mixed_parser (codes "team") (codes "chatid7" ∷ codes "chatidx" ∷ []) refl refl
      (load_aliases-IsTable mixed_file {loaded = mixed_parser.aliases} refl) refl

abbrev bot_env : Text → Text
bot_env key =
    if text_eq key (codes "MAX_SENDER_MODE")
    then codes "botapi"
    else if text_eq key (codes "MAX_BOT_TOKEN")
    then codes "secret"
    else if text_eq key (codes "MAX_BURST")
    then codes "+7"
    else []

abbrev some_numbers : Numbers
some_numbers = record {
  message_bytes = 15728640;
  sessions = 200;
  send_timeout_sec = 15;
  send_rps = 20;
  burst = 7;
  queue_capacity = 200;
  queue_wait_ms = 1000;
  relay_retries = 2;
  retry_delay_ms = 300;
  admin_chat = 0;
  enabled = true;
  worker_interval_ms = 2000;
  dlq_retries = 10;
  base_delay_ms = 1000;
  max_delay_ms = 300000;
}

load-IsValid_example : IsValid (config_from bot_env some_numbers)
unfolding load read_numbers smtp_to_max_relay.Config.get_env_int text_eq
    smtp_to_max_relay.Prelude.Decimal.parse_int is_digit smtp_to_max_relay.Config.get_env_bool
    smtp_to_max_relay.Config.checks_of config_from smtp_to_max_relay.Config.get_env
load-IsValid_example = load-IsValid bot_env {cfg = config_from bot_env some_numbers} refl
