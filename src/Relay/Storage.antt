-- ===== src/Relay/Storage.antt =====
-- components/wisp_relay/storage_engine.c: the index of the stored events, their files, and the copy
-- of the index in NVS.
pub mod State
pub mod Calls
pub mod Upkeep
pub mod Compaction
pub mod Queries
pub mod Sound
pub mod Reach
pub mod Effects
pub mod Saving
pub mod Restart
