-- ===== src/Relay.antt =====
-- components/wisp_relay: the subscriptions and the rate limits of the relay's connections.
pub mod Limiter
pub mod Outside
pub mod Validator
pub mod Deletion
pub mod Handlers
pub mod Router
pub mod Local
pub mod Connections
pub mod Scan
pub mod Storage
pub mod Subs
