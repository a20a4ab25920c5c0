-- ===== src/Executor/Attempts.antt =====
-- crates/core/src/executor.rs: the two loops that `execute` and `execute_stream` share, over the
-- bindings and over the keys of a binding. They differ in what they do with an accepted request.
use chenni_x_api.Prelude.{ℕ, ◌<>◌, String, Option, none, some, List, []}
use chenni_x_api.Common.Text.{decimal}
use chenni_x_api.Common.Errors.{ProxyError}
use chenni_x_api.Billing.{BillingRepo}
use chenni_x_api.Cache.Store.{ConfigCache}
use chenni_x_api.Health.{Instant, HealthManager}
use chenni_x_api.Router.{RoutedKey}
use chenni_x_api.Tracker.{UsageWriter}
use chenni_x_api.Json.{Json}
use chenni_x_api.Executor.{ExecutionFailure}
use chenni_x_api.Executor.Bodies.{Translators}

-- What a request to an upstream comes to.
pub data Reply (A : Type 0) : Type 0 where
  timed_out : Reply A
  refused : ProxyError → Reply A
  answered : A → Reply A

-- What the loops are given: the traits, the upstreams and the clock at each moment, the timeout,
-- the printing of an error, and `str::to_lowercase`.
pub record Outside (S W A : Type 0) : Type 0 where
  pub repo : BillingRepo S
  pub writer : UsageWriter W
  pub translators : Translators
  pub send : ℕ → RoutedKey → Json → Reply A
  pub clock : ℕ → Instant
  pub timeout : ℕ
  pub display : ProxyError → String
  pub lower : String → String

-- `S` stores the balances, `W` the usage. The moment counts the readings of the clock and the
-- requests sent.
pub record World (S W : Type 0) : Type 0 where
  pub ledger : S
  pub usage : W
  pub health : HealthManager
  pub cache : ConfigCache
  pub moment : ℕ

-- The variables that the loops write.
pub record Progress : Type 0 where
  pub attempted : List String
  pub last_error : Option String
  pub last_upstream_status : Option ℕ
  pub last_tried : Option RoutedKey

abbrev pub nothing_tried : Progress
nothing_tried = record {
  attempted = [];
  last_error = none;
  last_upstream_status = none;
  last_tried = none;
}

-- `Result<R, ExecutionFailure>`, or an index out of range.
pub data Result (R : Type 0) : Type 0 where
  success : R → Result R
  failure : ExecutionFailure → Result R
  panics : Result R

-- How a body of the inner loop ends: `continue`, `break`, or `return`.
pub data Next (R : Type 0) : Type 0 where
  continues : Progress → Next R
  breaks : Progress → Next R
  returns : Result R → Next R

unfoldable pub key_name : RoutedKey → String
unfolding decimal
key_name rk = elim rk.key.label [ some label ↦ label | none ↦ "key-" <> decimal rk.key.id ]
