-- ===== src/Admin.antt =====
-- crates/server/src/admin: the sessions of the administration.
pub mod Sessions
pub mod Sweeps
pub mod Lifetimes
