-- ===== src/Common.antt =====
-- src/providers/common.rs: what the HTTP providers share.
pub mod Validate
pub mod Names
pub mod Body
pub mod Retry
pub mod Locks
