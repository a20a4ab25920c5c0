-- ===== src/Tests.antt =====
-- Concrete runs, and each theorem at a concrete input.
mod Billing
mod Health
mod Routing
mod Executor
mod Auth
mod Catalog
mod Stream
mod Routes
mod Translator
mod Settlement
mod Proxy
mod Admin
mod Accounts
