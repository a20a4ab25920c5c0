-- ===== src/Common/Errors.antt =====
-- crates/common/src/error.rs: the error type, and how the gateway classifies an error.
use chenni_x_api.Prelude.Tests.{◌==◌, leb, ltb}
use chenni_x_api.Prelude.Int.{ℤ}
use chenni_x_api.Prelude.{ℕ, String, Bool, true, false, ◌&&◌, ◌||◌, Option, List}
use chenni_x_api.Common.Types.{RowId}

-- The texts of `ProxyError::Config`: a message that `format!` builds is kept as its parts.
pub data ConfigError : Type 0 where
  negative_estimate : ℤ → ConfigError
  negative_actual : ℤ → ConfigError
  already_settled : ConfigError
  token_not_found : RowId → ConfigError
  insufficient_user_quota : RowId → ℤ → ConfigError
  insufficient_token_quota : RowId → ℤ → ConfigError
  billing_expr : String → ConfigError
  bad_header : String → ConfigError

-- `Io`, `Json` and `Http` wrap foreign errors, which are kept as texts.
pub data ProxyError : Type 0 where
  client_auth_failed : ProxyError
  model_not_found : String → ProxyError
  all_keys_disabled : String → ProxyError
  all_keys_cooldown : String → Option ℕ → ProxyError
  all_keys_quota_exhausted : String → ProxyError
  all_keys_exhausted : String → List String → Option String → ProxyError
  upstream : ℕ → String → ProxyError
  invalid_request translator storage : String → ProxyError
  config : ConfigError → ProxyError
  io json http : String → ProxyError
  upstream_timeout : ℕ → ProxyError

unfoldable pub is_retryable : ProxyError → Bool
is_retryable (upstream status _) = status == 429 || (leb 500 status && ltb status 600)
is_retryable (upstream_timeout _) = true
is_retryable _ = false

unfoldable pub is_fatal : ProxyError → Bool
is_fatal (upstream status _) = status == 401 || status == 403
is_fatal _ = false

unfoldable pub is_invalid_request : ProxyError → Bool
is_invalid_request (upstream status _) = status == 400 || status == 422
is_invalid_request (invalid_request _) = true
is_invalid_request _ = false

unfoldable pub http_status : ProxyError → ℕ
http_status client_auth_failed = 401
http_status (model_not_found _) = 404
http_status (all_keys_disabled _) = 503
http_status (all_keys_cooldown _ _) = 503
http_status (all_keys_quota_exhausted _) = 503
http_status (all_keys_exhausted _ _ _) = 503
http_status (upstream status _) = status
http_status (invalid_request _) = 400
http_status (translator _) = 502
http_status (storage _) = 500
http_status (config _) = 500
http_status (io _) = 500
http_status (json _) = 500
http_status (http _) = 500
http_status (upstream_timeout _) = 504
