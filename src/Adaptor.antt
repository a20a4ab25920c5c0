-- ===== src/Adaptor.antt =====
-- crates/adaptor: the upstreams' requests, and the usage in their streams.
pub mod Urls
pub mod Requests
pub mod Usage
pub mod Cuts
