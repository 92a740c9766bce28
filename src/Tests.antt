-- ===== src/Tests.antt =====
-- The theorems at concrete inputs.
pub mod World
pub mod Access
pub mod Payments
pub mod Others
pub mod Panels
pub mod Beacons
pub mod Dns
pub mod Stored
pub mod Relayed
pub mod Clients
pub mod Selectors
pub mod Syncs
pub mod Connected
pub mod Miners
