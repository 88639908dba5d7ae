-- ===== src/Lib.antt =====
-- smtp-to-max-relay: a gateway that receives mail by SMTP and sends it to the chats of the MAX
-- messenger.
--
-- A session of the SMTP server (internal/smtp/server.go) takes recipients and a message, and hands
-- both to the relay service (internal/relay/service.go). The service asks the recipient parser
-- (internal/recipient) for the chats, splits the text, and calls the sender, with retries; a rate
-- limiter (internal/max/limited_sender.go) may stand before it. A message that is not delivered goes
-- into the dead-letter queue (internal/dlq), whose worker relays it again, as the administrator can
-- by hand. In the messenger a bot (internal/max/bot_runtime.go) tells a chat its address and takes
-- the administrator's commands: they edit the alias table and its file, show the queue, and replay
-- from it once a token is confirmed. A collector (internal/metrics) counts and reports. The
-- configuration (internal/config/config.go) comes from the environment, and main makes the parts.
--
-- The files and the code that they are about:
--   Prelude      lists, options, results, texts, maps, sorting and decimals as the Go code uses them
--   Config       internal/config/config.go; Config/Checks has what Load guarantees
--   Recipient    internal/recipient: Address is Parse, Aliases the edits of the alias table, and
--                AliasFile is LoadAliases and SaveAliases; their children have the proofs
--   Dlq          internal/dlq: Item and Store are FileStore, Queries its reading methods, Backoff
--                the two functions nextDelay, Worker is Run and its runOnce, Admin the replay commands,
--                with Admin/Reports for those that only read
--   Email        internal/email: Parse over an enmime envelope, the attachments and their names
--   Relay        internal/relay/service.go: Message is the text sent for an email, Split is
--                splitTextMessage, Retry is sendWithRetry, Service is Relay; Service/Outcomes has
--                every outcome of a relay
--   Smtp         internal/smtp/server.go: Data is readData, Session is handleConn, Listen is
--                ListenAndServe
--   Max          internal/max: LimitedSender and AdminConfirm; Help is bot_help.go; Targets and
--                Commands are the administrator's commands of bot_runtime.go, and Runtime what the
--                bot does with a message; BotSender is bot_sender.go
--   Metrics      internal/metrics/collector.go: the collector, its Lines and its Report
--   Version      internal/version and internal/trace
--   Main         cmd/smtp-to-max-relay/main.go: the parts made of the configuration, the dry run
--   Tests        concrete runs
-- A function has the name of the Go function in lower case with underscores. A method takes the state
-- of its receiver and returns the new one with its result; a Go error is a constructor with the
-- values that its text quotes. What comes from outside is a parameter: the clock, new ids, random
-- draws, results of disk writes and of calls of the sender and of the MAX client, SHA-256, what the
-- enmime library reads, and the email parser where the relay calls it. A reply of the bot and a line of
-- the metrics are values with what their texts quote.
--
-- Bounds: a duration, a chat id and a config number are residues mod 2^64, and so are the counters of
-- the collector and the session numbers; the other counters are not bounded.
-- The loop of splitTextMessage has the length of the text for fuel, since every part takes a byte;
-- the session has one round more than there are lines, since every command takes a line. The retries
-- of a file message have fuel for the five attempts, and a decimal for as many digits as its number.
-- Texts are lists of code points, or of bytes where the code counts bytes. Lower case covers ASCII,
-- Latin-1, Cyrillic and the letters whose lower case is ASCII.
--
-- Not modelled: locks (a method of the store or the alias table is one step, as its mutex makes it),
-- files and JSON texts, sockets and deadlines, logs, the latencies that the relay observes, the
-- polling of the MAX client, the stub sender, the signals and the metrics server, and the MAX
-- client, which is another project's library. A latency is compared in nanoseconds, and its sum has
-- no rounding.
pub mod Prelude
pub mod Config
pub mod Recipient
pub mod Dlq
pub mod Email
pub mod Relay
pub mod Smtp
pub mod Max
pub mod Metrics
pub mod Version
pub mod Main
pub mod Tests
