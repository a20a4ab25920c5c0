-- ===== src/Stream.antt =====
-- crates/translator/src/stream_state.rs: the translation of streams.
pub mod ToClaude
pub mod Chunks
pub mod Blocks
pub mod Parts
pub mod Protocol
pub mod ToOpenai
pub mod Events
pub mod Roles
pub mod Heard
