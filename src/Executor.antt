-- ===== src/Executor.antt =====
-- crates/core/src/executor.rs: a request, from the model to the answer of an upstream. The parent
-- declares the data and the classification of the failures.
pub mod Bodies
pub mod Costs
pub mod Range
pub mod Attempts
pub mod Loop
pub mod Run
pub mod Serve
pub mod Ledger
pub mod Start
pub mod Classes
pub mod Invariant
pub mod Whole
pub mod Quotas
pub mod Tries
pub mod Limit
pub mod Money
pub mod Deliveries
pub mod Charges
use chenni_x_api.Prelude.Tests.{◌==◌, if◌then◌else◌}
use chenni_x_api.Prelude.Int.{ℤ}
use chenni_x_api.Prelude.{ℕ, String, Bool, Option, none, some, List, []}
use chenni_x_api.Common.Text.{contains}
use chenni_x_api.Common.Types.{RowId, ChannelProvider, openai_compatible, anthropic}
use chenni_x_api.Common.Errors.{
  ProxyError, upstream, invalid_request, upstream_timeout, all_keys_exhausted,
}
use chenni_x_api.Router.{RoutedKey}

pub data EntryFormat : Type 0 where
  openai claude : EntryFormat

abbrev pub provider : EntryFormat → ChannelProvider
provider openai = openai_compatible
provider claude = anthropic

pub record ExecutionContext : Type 0 where
  pub user_id : RowId
  pub token_id : RowId
  pub user_group : String
  pub model_id : RowId
  pub canonical_name : String

abbrev pub max_binding_attempts : ℕ
max_binding_attempts = 3

pub data FailureAction : Type 0 where
  cool_down disable return_to_client skip_binding : FailureAction

-- `lower` is `str::to_lowercase`.
module _ (lower : String → String) where
  unfoldable pub body_contains_context_length_exceeded : String → Bool
  body_contains_context_length_exceeded body = contains "context_length_exceeded" (lower body)

  unfoldable pub classify_failure : ProxyError → FailureAction
  unfolding body_contains_context_length_exceeded
  classify_failure (upstream status body) =
      if status == 404
      then skip_binding
      else if status == 400
      then (if body_contains_context_length_exceeded body then skip_binding else return_to_client)
      else if status == 422
      then return_to_client
      else if status == 401
      then disable
      else if status == 403
      then disable
      else cool_down
  classify_failure (invalid_request _) = return_to_client
  classify_failure (upstream_timeout _) = cool_down
  classify_failure _ = cool_down

-- `upstream_status` of a failed attempt.
unfoldable pub status_of : ProxyError → Option ℕ
status_of (upstream status _) = some status
status_of _ = none

pub record ExecutionResult : Type 0 where
  pub body : String
  pub channel_name : String
  pub key_label : Option String
  pub upstream_status : Option ℕ
  pub upstream_model_name : String
  pub quota_cost : ℤ
  pub attempted_keys : List String

pub record ExecutionFailure : Type 0 where
  pub channel_name : Option String
  pub key_label : Option String
  pub attempted_keys : List String
  pub upstream_status : Option ℕ
  pub upstream_model_name : Option String
  pub error : ProxyError

unfoldable pub no_attempt : ProxyError → ExecutionFailure
no_attempt error = record {
  channel_name = none;
  key_label = none;
  attempted_keys = [];
  upstream_status = none;
  upstream_model_name = none;
  error = error;
}

unfoldable pub from_last_attempt :
    RoutedKey → List String → Option ℕ → ProxyError → ExecutionFailure
from_last_attempt rk attempted upstream_status error = record {
  channel_name = some rk.channel.name;
  key_label = rk.key.label;
  attempted_keys = attempted;
  upstream_status = upstream_status;
  upstream_model_name = some rk.upstream_model_name;
  error = error;
}
