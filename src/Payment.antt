-- ===== src/Payment.antt =====
-- Cashu tokens and payments: tollgate_core_cashu.c, and tollgate_core_process_payment of
-- tollgate_core.c.
pub mod Outside
pub mod Token
pub mod Process
pub mod Laws
pub mod Accepted
