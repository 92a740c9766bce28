-- ===== src/Dns.antt =====
-- components/tollgate_core/src/tollgate_core_dns.c: the resolver's answers.
pub mod Queries
pub mod Names
pub mod Answers
