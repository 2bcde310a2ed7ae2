-- ===== src/Bridge/Posts.antt =====
-- What `post_message` of apps/bridge-api/src/app.ts does: its attempts, its deliveries and its replays.
pub mod Attempts
pub mod Permission
pub mod Delivery
pub mod Replays
