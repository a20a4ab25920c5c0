-- ===== src/Common.antt =====
-- The crate `common`: shared types and errors, and the text operations that they need.
pub mod Text
pub mod Types
pub mod Errors
pub mod Results
