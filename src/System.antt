-- ===== src/System.antt =====
-- The gate as a whole: every call that the firmware makes on it, and what holds after any sequence
-- of calls.
pub mod Calls
pub mod RevokeAll
pub mod Histories
pub mod FreeRide
pub mod Startup
