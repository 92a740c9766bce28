-- ===== src/Ehash.antt =====
-- components/ehash_relay/src/ehash_relay.c: the packets of the E-Hash relay.
pub mod Packet
pub mod Bytes
pub mod RoundTrip
pub mod Hops
