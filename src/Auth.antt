-- ===== src/Auth.antt =====
-- crates/storage/src/tokens.rs, `validate_token`, and crates/server/src/middleware/auth.rs: who may
-- send a request.
pub mod Checks
use chenni_x_api.Prelude.Int.{ℤ, pos, negsuc, leb_ℤ, eqb_ℤ}
use chenni_x_api.Prelude.Lists.{find, any}
use chenni_x_api.Prelude.Tests.{◌==◌, if◌then◌else◌}
use chenni_x_api.Prelude.{
  ℕ, String, str_eq, Bool, true, false, not, ◌&&◌, Option, none, some, List, [], ◌∷◌,
}
use chenni_x_api.Common.Text.{trim, is_blank, split, strip_prefix}
use chenni_x_api.Common.Types.{RowId, UserConfig, TokenConfig, AuthContext}
use chenni_x_api.Common.Errors.{ProxyError, storage}
use chenni_x_api.Common.Results.{ProxyResult, ok, err}

-- The tables, and what SQLite answers to the two queries: `none`, or the text of its error.
pub record AuthDb : Type 0 where
  pub tokens : List TokenConfig
  pub users : List UserConfig
  pub token_refusal : Option String
  pub user_refusal : Option String

unfoldable pub get_token_by_key : AuthDb → String → ProxyResult (Option TokenConfig)
get_token_by_key db key = elim db.token_refusal [
  | some e ↦ err (storage e)
  | none ↦ ok (find (λ t. str_eq t.key key) db.tokens)
]

unfoldable pub get_user_by_id : AuthDb → RowId → ProxyResult (Option UserConfig)
get_user_by_id db id = elim db.user_refusal [
  | some e ↦ err (storage e)
  | none ↦ ok (find (λ u. u.id == id) db.users)
]

-- Step 3: is the address refused by the token's list?
ip_refused : TokenConfig → Option String → Bool
ip_refused token client_ip = elim token.allow_ips [
  | none ↦ false
  | some ips ↦ elim client_ip [
    | none ↦ true
    | some ip ↦ not (any (λ allowed. str_eq allowed ip) ips)
  ]
]

unfoldable pub validate_user :
    TokenConfig → Option String → Option UserConfig → ProxyResult (Option AuthContext)
validate_user token client_ip none = ok none
validate_user token client_ip (some user) =
    if not (eqb_ℤ user.status (pos 1))
    then ok none
    else ok (some record { user = user; token = token; client_ip = client_ip })

-- `now` is the time in seconds.
unfoldable pub validate_found :
    AuthDb → ℤ → Option String → Option TokenConfig → ProxyResult (Option AuthContext)
unfolding ip_refused get_user_by_id validate_user
validate_found db now client_ip none = ok none
validate_found db now client_ip (some token) =
    if not (eqb_ℤ token.status (pos 1))
    then ok none
    else if not (eqb_ℤ token.expired_time (negsuc 0)) && leb_ℤ token.expired_time now
    then ok none
    else if ip_refused token client_ip
    then ok none
    else elim (get_user_by_id db token.user_id) [
      | err e ↦ err e
      | ok user ↦ validate_user token client_ip user
    ]

unfoldable pub validate_token :
    AuthDb → ℤ → String → Option String → ProxyResult (Option AuthContext)
unfolding get_token_by_key validate_found
validate_token db now key client_ip = elim (get_token_by_key db key) [
  | err e ↦ err e
  | ok token ↦ validate_found db now client_ip token
]

-- The headers that the middleware reads; a value that is not visible ASCII counts as absent.
pub record Headers : Type 0 where
  pub authorization : Option String
  pub x_forwarded_for : Option String
  pub x_real_ip : Option String

trimmed : Option String → Option String
trimmed none = none
trimmed (some s) = if is_blank (trim s) then none else some (trim s)

unfoldable pub extract_bearer : Headers → Option String
unfolding trimmed
extract_bearer req = elim req.authorization [
  | none ↦ none
  | some value ↦ elim (strip_prefix "Bearer " value) [
    | some t ↦ trimmed (some t)
    | none ↦ trimmed (strip_prefix "bearer " value)
  ]
]

first_part : Option String → Option String
first_part none = none
first_part (some s) = elim (split 44 s) [ [] ↦ none | part ∷ _ ↦ some part ]

unfoldable pub extract_client_ip : Headers → Option String
unfolding trimmed first_part
extract_client_ip req = elim (trimmed (first_part req.x_forwarded_for)) [
  | some ip ↦ some ip
  | none ↦ trimmed req.x_real_ip
]

-- What the client gets: the handler's turn, or a status.
pub data Verdict : Type 0 where
  admitted : AuthContext → Verdict
  unauthorized forbidden internal_error : Verdict

unfoldable pub answer_validation : ProxyResult (Option AuthContext) → Verdict
answer_validation (err _) = internal_error
answer_validation (ok none) = unauthorized
answer_validation (ok (some auth_ctx)) = admitted auth_ctx

unfoldable pub validate_bearer : AuthDb → ℤ → Option String → Option String → Verdict
unfolding answer_validation validate_token
validate_bearer db now client_ip none = unauthorized
validate_bearer db now client_ip (some token_key) =
    answer_validation (validate_token db now token_key client_ip)

unfoldable pub token_auth_middleware : AuthDb → ℤ → Headers → Verdict
unfolding extract_bearer extract_client_ip validate_bearer
token_auth_middleware db now req =
    validate_bearer db now (extract_client_ip req) (extract_bearer req)

-- `require_role` after the middleware, on a request without an admin session.
unfoldable pub require_role : ℤ → Verdict → Verdict
require_role min_role (admitted ctx) =
    if leb_ℤ min_role ctx.user.role then admitted ctx else forbidden
require_role min_role v = v
