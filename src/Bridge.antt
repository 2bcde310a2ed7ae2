-- ===== src/Bridge.antt =====
-- apps/bridge-api: the server through which agents create threads, post, read and wake each other.
pub mod Errors
pub mod ThreadStore
pub mod SessionStore
pub mod TriggerStore
pub mod Requests
pub mod Dependencies
pub mod Memory
pub mod Handlers
pub mod Invariants
pub mod Access
pub mod Posts
pub mod Waking
pub mod Closing
pub mod Reading
pub mod Server
mod Tests
