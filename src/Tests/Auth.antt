-- ===== src/Tests/Auth.antt =====
-- Requests with a key, as in the tests of crates/server/src/middleware/auth.rs.
use chenni_x_api.Prelude.Int.{pos}
use chenni_x_api.Prelude.Lists.{find}
use chenni_x_api.Prelude.{◌≡◌, refl, str_eq, none, some, [], ◌∷◌}
use chenni_x_api.Common.Text.{trim, is_blank, split, strip_prefix}
use chenni_x_api.Common.Results.{ok}
use chenni_x_api.Auth.{
  AuthDb, Headers, admitted, unauthorized, validate_token, token_auth_middleware, require_role,
}
use chenni_x_api.Auth.Checks.{Trusted, context_of, validate_token-eq, require_role-Trusted}
use chenni_x_api.Tests.Billing.{alice, token}

abbrev auth_db : AuthDb
auth_db = record {
  tokens = token ∷ [];
  users = alice ∷ [];
  token_refusal = none;
  user_refusal = none;
}

abbrev request : Headers
request = record {
  authorization = some "Bearer sk-abc";
  x_forwarded_for = some "10.0.0.1, 10.0.0.2";
  x_real_ip = none;
}

admitted_alice :
    token_auth_middleware auth_db (pos 5) request
    ≡ admitted record { user = alice; token = token; client_ip = some "10.0.0.1" }
unfolding token_auth_middleware strip_prefix is_blank trim split
admitted_alice = refl

no_header :
    token_auth_middleware auth_db (pos 5) (record request { authorization = some "Basic x" })
    ≡ unauthorized
unfolding token_auth_middleware strip_prefix
no_header = refl

validate_token-eq_example :
    validate_token auth_db (pos 5) "sk-abc" none
    ≡ ok (context_of auth_db (pos 5) none (find (λ t. str_eq t.key "sk-abc") (token ∷ [])))
validate_token-eq_example = validate_token-eq auth_db (pos 5) "sk-abc" none refl refl

require_role-Trusted_example :
    Trusted (pos 5) (pos 1) (require_role (pos 1) (token_auth_middleware auth_db (pos 5) request))
require_role-Trusted_example = require_role-Trusted auth_db (pos 5) (pos 1) request
