-- ===== src/Worker.antt =====
-- apps/supervisor-worker: the loop that delivers triggers to the runtimes of agents.
pub mod Jobs
pub mod JobStore
pub mod Queue
pub mod Registry
pub mod Unread
pub mod Executor
pub mod Fallback
