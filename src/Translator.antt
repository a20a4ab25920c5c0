-- ===== src/Translator.antt =====
-- crates/translator: requests and responses between the two formats.
pub mod Parts
pub mod ToClaude
pub mod ToOpenai
pub mod Responses
pub mod Turns
pub mod Requests
pub mod Answers
pub mod RoundTrip
pub mod Options
