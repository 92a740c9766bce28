-- ===== src/Client.antt =====
-- The client of another gate: components/tollgate_core/src/tollgate_core_client.c and
-- main/tollgate_client.c, with the usage that a gate answers (tollgate_core_portal.c).
pub mod Usage
pub mod Parse
pub mod Machine
