-- ===== src/Executor/Classes.antt =====
-- crates/core/src/executor.rs and crates/common/src/error.rs: the executor's classification of the
-- failures against the predicates of the error type.
use chenni_x_api.Prelude.{◌≡◌, String, Bool, true, false, not, ◌&&◌, arith}
use chenni_x_api.Common.Errors.{ProxyError, is_retryable, is_fatal, is_invalid_request}
use chenni_x_api.Executor.{
  FailureAction, cool_down, disable, return_to_client, skip_binding, classify_failure,
}

abbrev pub is_disable : FailureAction → Bool
is_disable disable = true
is_disable _ = false

abbrev pub is_cool_down : FailureAction → Bool
is_cool_down cool_down = true
is_cool_down _ = false

-- What the predicates of the error type say for the action.
abbrev pub Agrees : ProxyError → FailureAction → Type 0
Agrees e cool_down = (is_fatal e ≡ false) × (is_invalid_request e ≡ false)
Agrees e disable = is_fatal e ≡ true
Agrees e return_to_client = is_invalid_request e ≡ true
Agrees e skip_binding = (is_retryable e ≡ false) × (is_fatal e ≡ false)

-- The executor disables a key exactly for the fatal errors, cools a key for each retryable error,
-- and gives only errors of the request back to the client; it skips a binding only for an error
-- that is neither retryable nor fatal.
classify_failure-Agrees :
    (lower : String → String) (e : ProxyError)
    → Agrees e (classify_failure lower e)
      × (is_disable (classify_failure lower e) ≡ is_fatal e)
      × ((is_retryable e && not (is_cool_down (classify_failure lower e))) ≡ false)
unfolding classify_failure is_retryable is_fatal is_invalid_request
classify_failure-Agrees lower e = ground arith
