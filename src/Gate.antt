-- ===== src/Gate.antt =====
-- components/tollgate_core/src: the gate that lets paying clients through.
pub mod State
pub mod Auth
pub mod Firewall
pub mod Session
pub mod Invariant
pub mod Grants
pub mod Slots
pub mod Opening
pub mod Upkeep
pub mod Creation
pub mod Tick
pub mod Results
pub mod Refusals
pub mod Filter
pub mod Owner
