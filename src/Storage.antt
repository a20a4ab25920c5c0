-- ===== src/Storage.antt =====
-- The crate `storage` as the gateway's core sees it: tables of rows, and the adapter of
-- crates/server/src/pipeline.rs over them.
pub mod Table
pub mod Ledger
pub mod Updates
