-- ===== src/Admin/Sessions.antt =====
-- crates/server/src/admin/auth.rs: login, logout and the check of a session. Times are in seconds.
use chenni_x_api.Prelude.Int.{pos, eqb_ℤ}
use chenni_x_api.Prelude.Lists.{any, keep_if, take, find}
use chenni_x_api.Prelude.Maps.{Map, get, insert, remove, string_eq}
use chenni_x_api.Prelude.Tests.{◌==◌, leb, if◌then◌else◌}
use chenni_x_api.Prelude.{
  ℕ, ◌+◌, ◌≡◌, refl, String, str_eq, ◌<>◌, Bool, not, Option, none, some, List, [], ◌∷◌, map,
}
use chenni_x_api.Common.Text.{split, trim, strip_prefix, is_blank}
use chenni_x_api.Common.Types.{RowId, UserConfig}
use chenni_x_api.Common.Errors.{ProxyError, storage}

pub data AdminError : Type 0 where
  not_found bad_request unauthorized forbidden bad_gateway internal : String → AdminError

pub data AdminResult (A : Type 0) : Type 0 where
  accepts : A → AdminResult A
  rejects : AdminError → AdminResult A

-- A session is its user and the time of the login.
abbrev pub Session : Type 0
Session = RowId × ℕ

abbrev pub SessionStore : Type 0
SessionStore = Map String Session

abbrev pub session_max_age : ℕ
session_max_age = 86_400

abbrev pub is_fresh : ℕ → Session → Bool
is_fresh now (uid, created_at) = leb now (created_at + session_max_age)

-- The tables, and what SQLite answers to the queries: `none`, or the text of its error.
pub record AdminDb : Type 0 where
  pub users : List UserConfig
  pub hashes : Map String String
  pub refusal : Option String

pub record LoginRequest : Type 0 where
  pub username : String
  pub password : String

-- The first value of the session's cookie that is not empty.
unfoldable pub first_token : List String → Option String
unfolding strip_prefix trim is_blank
first_token [] = none
first_token (pair ∷ pairs) = elim (strip_prefix "chennix_session=" (trim pair)) [
  | none ↦ first_token pairs
  | some val ↦ if is_blank (trim val) then first_token pairs else some (trim val)
]

-- Of the `Cookie` header, where it is text.
unfoldable pub extract_session_token : Option String → Option String
unfolding first_token split
extract_session_token none = none
extract_session_token (some s) = first_token (split 59 s)

unfoldable pub cookie_of : Bool → String → String
cookie_of secure token =
    "chennix_session="
    <> token
    <> "; Path=/; HttpOnly; SameSite=Strict; Max-Age=86400"
    <> (if secure then "; Secure" else "")

-- `verify` is bcrypt's, false where it fails; `display` prints an error.
module _ (verify : String → String → Bool) (display : ProxyError → String) where
  refused_by : {A : Type 0} → String → AdminResult A
  refused_by e = rejects (internal (display (storage e)))

  unfoldable pub check_hash : LoginRequest → UserConfig → Option String → AdminResult UserConfig
  check_hash payload user none = rejects (internal "password hash missing")
  check_hash payload user (some hash) =
      if verify payload.password hash
      then accepts user
      else rejects (unauthorized "invalid credentials")

  unfoldable pub check_login : AdminDb → LoginRequest → Option UserConfig → AdminResult UserConfig
  unfolding check_hash get
  check_login db payload none = rejects (unauthorized "invalid credentials")
  check_login db payload (some user) =
      if eqb_ℤ user.status (pos 1)
      then check_hash payload user (get payload.username db.hashes)
      else rejects (unauthorized "account is disabled")

  unfoldable pub verify_login : AdminDb → LoginRequest → AdminResult UserConfig
  unfolding check_login refused_by
  verify_login db payload = elim db.refusal [
    | some e ↦ refused_by e
    | none ↦ check_login db payload (find (λ u. str_eq u.username payload.username) db.users)
  ]

  -- The cookie, or the error of a header that is not one; the session stays in either case.
  cookie_or_error : UserConfig → String → Option String → AdminResult (UserConfig × String)
  cookie_or_error user cookie none = accepts (user, cookie)
  cookie_or_error user cookie (some e) = rejects (internal ("invalid cookie header: " <> e))

  unfoldable pub open_session :
      (String → Option String)
      → Bool
      → String
      → ℕ
      → AdminResult UserConfig
      → SessionStore
      → AdminResult (UserConfig × String) × SessionStore
  unfolding cookie_of cookie_or_error insert
  open_session header secure token now (rejects e) s = (rejects e, s)
  open_session header secure token now (accepts user) s = (
    cookie_or_error user (cookie_of secure token) (header (cookie_of secure token)),
    insert token (user.id, now) s,
  )

  -- `header` checks a header's value; `token` is the new UUID.
  unfoldable pub login_handler :
      (String → Option String)
      → Bool
      → AdminDb
      → LoginRequest
      → String
      → ℕ
      → SessionStore
      → AdminResult (UserConfig × String) × SessionStore
  unfolding open_session verify_login
  login_handler header secure db payload token now =
      open_session header secure token now (verify_login db payload)

unfoldable pub forget : Option String → SessionStore → SessionStore
unfolding remove
forget none s = s
forget (some token) s = remove token s

unfoldable pub logout_handler : Option String → SessionStore → SessionStore
unfolding forget extract_session_token
logout_handler cookie s = forget (extract_session_token cookie) s

unfoldable pub remove_all : List String → SessionStore → SessionStore
unfolding remove
remove_all [] s = s
remove_all (k ∷ ks) s = remove_all ks (remove k s)

-- The order in which the map yields its entries.
abbrev pub Visit : Type 0
Visit = SessionStore → List (String × Session)

abbrev pub is_stale : ℕ → String × Session → Bool
is_stale now e = not (is_fresh now e.1)

unfoldable pub expired_keys : ℕ → List (String × Session) → List String
expired_keys now es = map (λ (e : String × Session). e.0) (take 64 (keep_if (is_stale now) es))

unfoldable pub sweep : Visit → ℕ → SessionStore → SessionStore
unfolding remove_all expired_keys
sweep visit now s = remove_all (expired_keys now (visit s)) s

abbrev pub if_fresh : ℕ → Option Session → Option Session
if_fresh now none = none
if_fresh now (some v) = if is_fresh now v then some v else none

-- The response's error, or the user who goes on.
pub data Verdict : Type 0 where
  session_error : String → Verdict
  admits : UserConfig → Verdict

unfoldable pub check_user : Option UserConfig → Verdict
check_user none = session_error "user not found"
check_user (some user) =
    if eqb_ℤ user.status (pos 1) then admits user else session_error "account is disabled"

unfoldable pub load_user : AdminDb → RowId → Verdict
unfolding check_user
load_user db uid = elim db.refusal [
  | some e ↦ session_error "internal error"
  | none ↦ check_user (find (λ u. u.id == uid) db.users)
]

-- What the look-up found; the clock is read again for the sweeps.
unfoldable pub visit_session :
    AdminDb → Visit → ℕ → ℕ → String → Option Session → SessionStore → Verdict × SessionStore
unfolding sweep load_user remove
visit_session db visit n₂ n₃ token (some (uid, _)) s =
    (load_user db uid, if any (is_stale n₂) (visit s) then sweep visit n₃ s else s)
visit_session db visit n₂ n₃ token none s =
    (session_error "invalid or expired session", sweep visit n₂ (remove token s))

unfoldable pub with_token :
    AdminDb → Visit → ℕ → ℕ → ℕ → Option String → SessionStore → Verdict × SessionStore
unfolding visit_session get
with_token db visit n₁ n₂ n₃ none s = (session_error "not authenticated", s)
with_token db visit n₁ n₂ n₃ (some token) s =
    visit_session db visit n₂ n₃ token (if_fresh n₁ (get token s)) s

unfoldable pub session_middleware :
    AdminDb → Visit → ℕ → ℕ → ℕ → Option String → SessionStore → Verdict × SessionStore
unfolding with_token extract_session_token
session_middleware db visit n₁ n₂ n₃ cookie s =
    with_token db visit n₁ n₂ n₃ (extract_session_token cookie) s

second_cookie : extract_session_token (some "a=b; chennix_session= xyz ") ≡ some "xyz"
unfolding extract_session_token
second_cookie = refl
