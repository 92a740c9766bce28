-- ===== src/Sync.antt =====
-- main/sync_manager.c: the exchange of events with public relays over websockets.
pub mod Frames
pub mod Reading
pub mod Replies
pub mod Manager
pub mod Ignored
