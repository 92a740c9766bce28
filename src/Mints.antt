-- ===== src/Mints.antt =====
-- components/tollgate_core/src/tollgate_core_mint_health.c and the probe loops of
-- main/mint_health.c: which mints answer.
pub mod Health
pub mod Probes
pub mod Recovery
