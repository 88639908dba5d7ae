-- ===== src/Smtp.antt =====
-- internal/smtp/server.go: the SMTP session. The reader of a connection is the list of the lines still
-- to come, each with its end of line, and what comes behind the last of them: the end of the
-- input or a failing read. A text is the list of its bytes. Deadlines, logging and failing writes
-- are not modelled.
pub mod Data
pub mod Session
pub mod Listen
