-- ===== src/Recipient.antt =====
-- internal/recipient: recipient addresses, the alias table, and the alias file.
pub mod Address
pub mod Aliases
pub mod AliasFile
