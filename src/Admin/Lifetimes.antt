-- ===== src/Admin/Lifetimes.antt =====
-- crates/server/src/admin/auth.rs: how long a session lives.
use chenni_x_api.Prelude.Lists.{All}
use chenni_x_api.Prelude.Maps.{get, get-insert, get-remove, string_eq}
use chenni_x_api.Prelude.Tests.{Bool-cases, if◌then◌else◌}
use chenni_x_api.Prelude.{
  ℕ, ◌≡◌, refl, ◌∙◌, ◌≤◌, String, str_eq, Bool, Option, none, some, List, [], ◌∷◌, inl, inr,
}
use chenni_x_api.Common.Types.{UserConfig}
use chenni_x_api.Common.Errors.{ProxyError}
use chenni_x_api.Admin.Sweeps.{Yields, fresh-asked}
use chenni_x_api.Admin.Sessions.{
  Session, SessionStore, AdminDb, LoginRequest, AdminResult, accepts, rejects,
  extract_session_token, verify_login, open_session, login_handler, logout_handler, forget,
  with_token, Visit, if_fresh, Verdict, session_error, load_user, visit_session, session_middleware,
}

-- The requests on the sessions, each with the tables and the times it reads.
pub data Event : Type 0 where
  logs_in : AdminDb → LoginRequest → String → ℕ → Event
  logs_out : Option String → Event
  asks : AdminDb → Option String → ℕ → ℕ → ℕ → Event

-- No event reads a later time than this one.
abbrev pub Before : ℕ → Event → Type 0
Before now (logs_in db payload token t) = t ≤ now
Before now (logs_out cookie) = Unit
Before now (asks db cookie n₁ n₂ n₃) = (n₁ ≤ now) × (n₂ ≤ now) × (n₃ ≤ now)

-- What is issued for the token, once the cookie's token is given back.
abbrev pub give_back : String → Option String → Option Session → Option Session
give_back token none issue = issue
give_back token (some t) issue = if str_eq t token then none else issue

abbrev pub issue_to : String → String → ℕ → AdminResult UserConfig → Option Session → Option Session
issue_to token t now (rejects e) issue = issue
issue_to token t now (accepts user) issue = if str_eq t token then some (user.id, now) else issue

abbrev pub decide : AdminDb → Option Session → Verdict
decide db none = session_error "invalid or expired session"
decide db (some (uid, _)) = load_user db uid

fresh-give_back :
    (n : ℕ) (j : String) (t : Option String) (s : SessionStore) (o : Option Session)
    → if_fresh n (get j s) ≡ if_fresh n o
    → if_fresh n (get j (forget t s)) ≡ if_fresh n (give_back j t o)
unfolding forget
fresh-give_back n j none s o h = h
fresh-give_back n j (some t) s o h = elim (Bool-cases (str_eq t j)) [
  | inl e ↦ rw (get-remove j t s, e)
  | inr e ↦ rw (get-remove j t s, e) h
]

-- `verify` and `display` as for the log-in, `header` checks the cookie's value.
module _ (verify : String → String → Bool) (display : ProxyError → String)
    (header : String → Option String) (secure : Bool) (visit : Visit) where
  -- The store after the events, the latest first.
  unfoldable pub step : Event → SessionStore → SessionStore
  unfolding login_handler logout_handler session_middleware
  step (logs_in db payload token t) s =
      (login_handler verify display header secure db payload token t s).1
  step (logs_out cookie) s = logout_handler cookie s
  step (asks db cookie n₁ n₂ n₃) s = (session_middleware db visit n₁ n₂ n₃ cookie s).1

  unfoldable pub store_after : List Event → SessionStore
  unfolding step
  store_after [] = []
  store_after (e ∷ es) = step e (store_after es)

  -- The session that the events issue for a token, by the log-ins and log-outs alone.
  unfoldable pub issued : String → List Event → Option Session
  unfolding verify_login extract_session_token
  issued token [] = none
  issued token (logs_in db payload t now ∷ es) =
      issue_to token t now (verify_login verify display db payload) (issued token es)
  issued token (logs_out cookie ∷ es) =
      give_back token (extract_session_token cookie) (issued token es)
  issued token (asks db cookie n₁ n₂ n₃ ∷ es) = issued token es

  get-open_session :
      (j token : String) (t : ℕ) (r : AdminResult UserConfig) (s : SessionStore)
      → get j (open_session verify display header secure token t r s).1
        ≡ issue_to j token t r (get j s)
  unfolding open_session
  get-open_session j token t (rejects e) s = refl
  get-open_session j token t (accepts user) s = get-insert j token (user.id, t) s

  fresh-issue_to :
      (n : ℕ) (j token : String) (t : ℕ) (r : AdminResult UserConfig) (a b : Option Session)
      → if_fresh n a ≡ if_fresh n b
      → if_fresh n (issue_to j token t r a) ≡ if_fresh n (issue_to j token t r b)
  fresh-issue_to n j token t (rejects e) a b h = h
  fresh-issue_to n j token t (accepts user) a b h = elim (Bool-cases (str_eq token j)) [
    | inl e ↦ rw e
    | inr e ↦ rw e h
  ]

  fresh-step :
      Yields visit
      → (n : ℕ) (e : Event) → Before n e
      → (j : String) (s : SessionStore) (es : List Event)
      → if_fresh n (get j s) ≡ if_fresh n (issued j es)
      → if_fresh n (get j (step e s)) ≡ if_fresh n (issued j (e ∷ es))
  unfolding step issued login_handler logout_handler session_middleware
  fresh-step y n (logs_in db payload token t) b j s es h =
      rw (get-open_session j token t (verify_login verify display db payload) s) (
        fresh-issue_to n j token t (verify_login verify display db payload) (get j s) (issued j es)
          h)
  fresh-step y n (logs_out cookie) b j s es h =
      fresh-give_back n j (extract_session_token cookie) s (issued j es) h
  fresh-step y n (asks db cookie n₁ n₂ n₃) b j s es h =
      fresh-asked visit y db n₁ n₂ n₃ n b j (extract_session_token cookie) s ∙ h

  store_after-issued :
      Yields visit
      → (n : ℕ) (es : List Event) → All (Before n) es
      → (j : String) → if_fresh n (get j (store_after es)) ≡ if_fresh n (issued j es)
  unfolding store_after issued
  store_after-issued y n [] b j = refl
  store_after-issued y n (e ∷ es) b j =
      fresh-step y n e b.0 j (store_after es) es (store_after-issued y n es b.1 j)

  visit_session-decide :
      (db : AdminDb) (n₂ n₃ : ℕ) (token : String) (o : Option Session) (s : SessionStore)
      → (visit_session db visit n₂ n₃ token o s).0 ≡ decide db o
  unfolding visit_session
  visit_session-decide db n₂ n₃ token (some (uid, t)) s = refl
  visit_session-decide db n₂ n₃ token none s = refl

  unfoldable pub decide_cookie : AdminDb → ℕ → List Event → Option String → Verdict
  unfolding issued
  decide_cookie db n es none = session_error "not authenticated"
  decide_cookie db n es (some token) = decide db (if_fresh n (issued token es))

  with_token-decide :
      Yields visit
      → (db : AdminDb) (n₁ n₂ n₃ : ℕ) (es : List Event) → All (Before n₁) es
      → (token : Option String)
      → (with_token db visit n₁ n₂ n₃ token (store_after es)).0 ≡ decide_cookie db n₁ es token
  unfolding with_token decide_cookie
  with_token-decide y db n₁ n₂ n₃ es b none = refl
  with_token-decide y db n₁ n₂ n₃ es b (some token) =
      visit_session-decide db n₂ n₃ token (if_fresh n₁ (get token (store_after es)))
        (store_after es)
      ∙ rw (store_after-issued y n₁ es b token)

  -- After any log-ins, log-outs and requests, none of which reads a later time, the check of a
  -- session answers what the log-ins and log-outs alone decide: a token gives its user for
  -- a day from its log-in, unless it is given back, and the sweeps end no session early.
  pub session_middleware-decide :
      Yields visit
      → (db : AdminDb) (n₁ n₂ n₃ : ℕ) (es : List Event) → All (Before n₁) es
      → (cookie : Option String)
      → (session_middleware db visit n₁ n₂ n₃ cookie (store_after es)).0
        ≡ decide_cookie db n₁ es (extract_session_token cookie)
  unfolding session_middleware
  session_middleware-decide y db n₁ n₂ n₃ es b cookie =
      with_token-decide y db n₁ n₂ n₃ es b (extract_session_token cookie)
