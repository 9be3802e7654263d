-- ===== src/Testing.antt =====
-- src/testing.rs: the doubles of a provider and of a responder that keep their records in memory.
pub mod Provider
pub mod Responder
pub mod Newest
