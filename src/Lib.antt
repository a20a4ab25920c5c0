-- ===== src/Lib.antt =====
-- chenniX-api: an HTTP gateway that offers several upstream AI providers under one API. A request
-- names a model; the gateway resolves the name, routes to the keys of the channels that serve the
-- model, charges an estimate, tries the keys in order, settles the real cost, and logs the usage.
--
-- The parts, with the file that models each, and its source:
-- - Common: the shared data (crates/common/src/types.rs) and errors (crates/common/src/error.rs).
--   Common/Results is `ProxyResult` and its `?`, Common/Text is what is used of Rust's `str`.
-- - Billing: `BillingManager::pre_charge`, `settle`, `refund` over the trait `BillingRepo`
--   (crates/core/src/billing.rs). Billing/Contract states what the trait promises, Billing/Effects
--   what the manager does on every repository that keeps the promise.
-- - Storage: the tables and transactions of `StorageAdapter` (crates/server/src/pipeline.rs), which
--   Storage/Ledger/Balances shows to keep the promise.
-- - Normalizer: `resolve` and `reload` (crates/core/src/normalizer.rs).
-- - Cache: the snapshot, its look-ups, and `ConfigCache` (crates/core/src/cache.rs).
-- - Health: `HealthManager` (crates/core/src/health.rs): cooldowns, disabled keys, and the quotas of
--   the small models (Health/Quota).
-- - Router: `Router::route` and both strategies (crates/core/src/router.rs).
-- - Tracker: the usage log and the counters (crates/core/src/tracker.rs).
-- - Executor: `Executor::execute` and `execute_stream` (crates/core/src/executor.rs), with the costs
--   (and crates/core/src/billing_expr.rs) in Executor/Costs, the bodies in Executor/Bodies, the
--   loops in Executor/Loop, the prefix in Executor/Run, and the answer in Executor/Serve.
-- - Auth: `validate_token` (crates/storage/src/tokens.rs) and the middleware with its check of a
--   role (crates/server/src/middleware/auth.rs).
-- - Stream: `OpenaiToClaudeStreamState` (crates/translator/src/stream_state.rs): the parts of a chunk in
--   Stream/ToClaude, `process_json` and `process_chunk` in Stream/Chunks, and the protocol that a
--   client checks in Stream/Blocks. `ClaudeToOpenaiStreamState`: the parts of an event in
--   Stream/ToOpenai, `process_event` in Stream/Events, and what a client checks in Stream/Roles.
-- - Translator: the requests and responses of the other format (crates/translator/src/o2c.rs and
--   c2o.rs). Translator/Responses makes them the executor's translators.
-- - Adaptor: requests to upstreams and the usage in their streams (crates/adaptor/src).
-- - Routes: the choice of a stream's translator (crates/server/src/routes/mod.rs), the frame parser
--   in Routes/Sse, `proxy_request` with the rows of its audit log in Routes/Proxy, and the task
--   that forwards and bills a stream in Routes/Stream, with the usage of its chunks in Routes/Readings
--   and Routes/Counting. A client that
--   leaves is a function that says which sendings fail.
-- - Admin: the sessions of the administration (crates/server/src/admin/auth.rs). Admin/Lifetimes
--   has the requests on them as events, and what the log-ins and log-outs alone decide.
-- - Accounts: `UserRepo` and `TokenRepo` (crates/storage/src/users.rs and tokens.rs) on the tables of
--   crates/storage/src/schema.rs: a row per user and token, by ascending ids, and the ids to which
--   `usage_logs` refers. Accounts/Calls has a call of each method that writes, Accounts/Integrity
--   what the schema promises.
-- - Catalog: the queries on channels, keys, models and bindings (crates/storage/src/channels.rs, keys.rs
--   and models.rs), and `CacheLoader` for `StorageAdapter` (crates/server/src/pipeline.rs) in
--   Catalog/Loader. Catalog/Queries says what
--   queries answer, and Catalog/Answers compares the loaded snapshot with them. Catalog/Keys has the
--   methods of `KeyRepo` that write, with the order in which a channel tries its keys, and
--   Catalog/Models those of `ModelRepo`.
-- - Json: `serde_json::Value`, as far as the executor and the streams read and write it.
--
-- State is passed explicitly: an operation on a state `S` that may fail is `Action S A`, which gives
-- back the state after a failure too. An `Arc<RwLock<..>>` is the value behind it, and a method is
-- one step; a `try_read` that may find the lock taken has a Boolean for it. The executor's `World`
-- holds the balances, the usage tables, the health, the cache, and a moment, which counts readings
-- of the clock and requests sent.
--
-- Row ids are natural numbers. `i64` is ℤ with `wrap_i64` where a difference is taken; the
-- additions of SQLite and those of an `i64` column are taken without overflow. `u64` sums wrap or
-- saturate as in the source. `f64` is its bit pattern with an interface for its arithmetic.
--
-- Parameters, for what is not in the repository: `str::to_lowercase`, the clock, the calendar and
-- the date formats of chrono, the random generator, SQLite refusing a statement, the answers of
-- the upstreams, serde_json's reading and writing, the expression evaluator evalexpr, and the
-- printing of errors. The translators of crates/translator are an interface of the executor, and
-- Translator/Responses has the instance.
--
-- Every loop is a structural recursion, except two. The weighted drawing of the router takes one round
-- for each group and so as many rounds as there are groups. The frame parser takes a frame in each
-- round, with as many rounds as the buffer has characters, and a round takes two at least.
--
-- Not modelled: the handlers of the administration but for its sessions, the request id and the times
-- of an audit row and the row at the end of a stream, the list of models, the configuration and
-- start-up, the statements of the repositories for channels and usage but for the queries of the
-- loader, the web interface, and the HTTP client.
pub mod Prelude
pub mod Common
pub mod Json
pub mod Billing
pub mod Storage
pub mod Normalizer
pub mod Cache
pub mod Catalog
pub mod Health
pub mod Router
pub mod Tracker
pub mod Executor
pub mod Auth
pub mod Stream
pub mod Adaptor
pub mod Routes
pub mod Accounts
pub mod Admin
pub mod Translator
pub mod Tests
