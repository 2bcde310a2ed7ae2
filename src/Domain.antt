-- ===== src/Domain.antt =====
-- packages/domain: threads, messages, read cursors and runtime sessions.
pub mod Errors
pub mod Thread
pub mod Message
pub mod Cursor
pub mod Session
