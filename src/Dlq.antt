-- ===== src/Dlq.antt =====
-- internal/dlq: the dead-letter queue, its retry worker and its administrator's commands.
pub mod Item
pub mod Store
pub mod Queries
pub mod Backoff
pub mod Worker
pub mod Admin
