-- ===== src/Max.antt =====
-- internal/max: the rate limiter in front of the sender, the confirmations of admin commands, the bot's
-- commands, and the sender that calls the MAX client.
pub mod LimitedSender
pub mod AdminConfirm
pub mod Help
pub mod Targets
pub mod Commands
pub mod Runtime
pub mod BotSender
