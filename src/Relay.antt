-- ===== src/Relay.antt =====
-- internal/relay/service.go: from a raw message to the messages of the MAX chats.
pub mod Split
pub mod Retry
pub mod Message
pub mod Service
