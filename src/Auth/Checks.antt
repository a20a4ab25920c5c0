-- ===== src/Auth/Checks.antt =====
-- crates/storage/src/tokens.rs and crates/server/src/middleware/auth.rs: the checks of a request
-- against the predicates of crates/common/src/types.rs.
use chenni_x_api.Prelude.Int.{ℤ, ◌≤ℤ◌}
use chenni_x_api.Prelude.Lists.{find, Passes, find-Passes}
use chenni_x_api.Prelude.Tests.{◌==◌, ==_iff, if◌then◌else◌}
use chenni_x_api.Prelude.{
  ◌≡◌, String, str_eq, Bool, true, false, not, ◌&&◌, Option, none, some, arith,
}
use chenni_x_api.Common.Types.{
  UserConfig, TokenConfig, AuthContext, token_is_enabled, is_expired, allows_ip, user_is_enabled,
}
use chenni_x_api.Common.Results.{ProxyResult, ok, err}
use chenni_x_api.Auth.{
  AuthDb, get_token_by_key, get_user_by_id, ip_refused, validate_user, validate_found,
  validate_token, Headers, extract_bearer, extract_client_ip, Verdict, admitted, answer_validation,
  validate_bearer, token_auth_middleware, require_role,
}

-- A token with a list of addresses admits a known address of the list.
abbrev pub admits_ip : TokenConfig → Option String → Bool
admits_ip t (some ip) = allows_ip t ip
admits_ip t none = elim t.allow_ips [ none ↦ true | some _ ↦ false ]

-- The token and its user pass every check.
abbrev pub passes : ℤ → Option String → TokenConfig → UserConfig → Bool
passes now client_ip t u =
    token_is_enabled t && not (is_expired t now) && admits_ip t client_ip && user_is_enabled u

-- The context for a token that was found.
abbrev pub context_of : AuthDb → ℤ → Option String → Option TokenConfig → Option AuthContext
context_of db now client_ip none = none
context_of db now client_ip (some t) = elim (find (λ u. u.id == t.user_id) db.users) [
  | none ↦ none
  | some u ↦
      if passes now client_ip t u
      then some record { user = u; token = t; client_ip = client_ip }
      else none
]

-- Where no query is refused, a key is valid exactly when its token passes `is_enabled`,
-- `is_expired` and `allows_ip`, and the token's user exists and is enabled; an unknown address
-- passes only without a list. The context holds that token, that user and the address.
pub validate_token-eq :
    (db : AuthDb) (now : ℤ) (key : String) (client_ip : Option String)
    → db.token_refusal ≡ none
    → db.user_refusal ≡ none
    → validate_token db now key client_ip
      ≡ ok (context_of db now client_ip (find (λ t. str_eq t.key key) db.tokens))
unfolding validate_token validate_found get_token_by_key get_user_by_id ip_refused validate_user
    allows_ip
validate_token-eq db now key client_ip a b = ground arith

-- What is known of an admitted request.
abbrev pub Trusted : ℤ → ℤ → Verdict → Type 0
Trusted now min_role (admitted ctx) =
    (token_is_enabled ctx.token ≡ true)
    × (is_expired ctx.token now ≡ false)
    × (admits_ip ctx.token ctx.client_ip ≡ true)
    × (user_is_enabled ctx.user ≡ true)
    × (ctx.token.user_id ≡ ctx.user.id)
    × (min_role ≤ℤ ctx.user.role)
Trusted now min_role _ = Unit

-- What is known of an answer of the validation.
abbrev pub Vouched : ℤ → ProxyResult (Option AuthContext) → Type 0
Vouched now (ok (some ctx)) = Trusted now ctx.user.role (admitted ctx)
Vouched now _ = Unit

validate_user-Vouched :
    (now : ℤ) (t : TokenConfig) (ip : Option String) (user : Option UserConfig)
    → token_is_enabled t ≡ true
    → is_expired t now ≡ false
    → admits_ip t ip ≡ true
    → Passes (λ u. u.id == t.user_id) user
    → Vouched now (validate_user t ip user)
unfolding validate_user
validate_user-Vouched now t ip none a b c p = tt
validate_user-Vouched now t ip (some user) a b c p = ground (arith, ==_iff user.id t.user_id)

validate_found-Vouched :
    (db : AuthDb) (now : ℤ) (ip : Option String) (found : Option TokenConfig)
    → Vouched now (validate_found db now ip found)
unfolding validate_found get_user_by_id ip_refused allows_ip
validate_found-Vouched db now ip none = tt
validate_found-Vouched db now ip (some t) =
    let user = find (λ u. u.id == t.user_id) db.users in
    ground
      (arith, find-Passes (λ u. u.id == t.user_id) db.users, validate_user-Vouched now t ip user)

validate_token-Vouched :
    (db : AuthDb) (now : ℤ) (key : String) (ip : Option String)
    → Vouched now (validate_token db now key ip)
unfolding validate_token get_token_by_key
validate_token-Vouched db now key ip =
    ground (arith, validate_found-Vouched db now ip (find (λ t. str_eq t.key key) db.tokens))

answer-Trusted :
    (now min_role : ℤ) (r : ProxyResult (Option AuthContext))
    → Vouched now r
    → Trusted now min_role (require_role min_role (answer_validation r))
unfolding require_role answer_validation
answer-Trusted now min_role (err e) v = tt
answer-Trusted now min_role (ok none) v = tt
answer-Trusted now min_role (ok (some ctx)) v = ground arith

bearer-Trusted :
    (db : AuthDb) (now min_role : ℤ) (ip bearer : Option String)
    → Trusted now min_role (require_role min_role (validate_bearer db now ip bearer))
unfolding require_role validate_bearer
bearer-Trusted db now min_role ip none = tt
bearer-Trusted db now min_role ip (some key) =
    answer-Trusted now min_role (validate_token db now key ip)
      (validate_token-Vouched db now key ip)

-- Whatever the database answers, a request that passes the middleware and the check of a role has
-- an enabled, unexpired token that admits its address, and the enabled user whose token it is, of at
-- least that role.
pub require_role-Trusted :
    (db : AuthDb) (now min_role : ℤ) (req : Headers)
    → Trusted now min_role (require_role min_role (token_auth_middleware db now req))
unfolding token_auth_middleware
require_role-Trusted db now min_role req =
    bearer-Trusted db now min_role (extract_client_ip req) (extract_bearer req)
