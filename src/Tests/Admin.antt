-- ===== src/Tests/Admin.antt =====
-- The sessions of the administration.
use chenni_x_api.Prelude.Int.{pos}
use chenni_x_api.Prelude.Tests.{◌==◌}
use chenni_x_api.Prelude.Lists.{All, All-keep_if, keep_if}
use chenni_x_api.Prelude.Maps.{get, string_eq}
use chenni_x_api.Admin.Sweeps.{Yields}
use chenni_x_api.Prelude.{
  ◌≡◌, refl, String, str_eq, Bool, true, false, Option, none, some, List, [], ◌∷◌, ◌&&◌, ◌<>◌,
  arith,
}
use chenni_x_api.Common.Types.{UserConfig}
use chenni_x_api.Common.Errors.{ProxyError}
use chenni_x_api.Admin.Sessions.{
  load_user, Session, SessionStore, AdminDb, LoginRequest, session_middleware, Visit, admits,
}
use chenni_x_api.Admin.Lifetimes.{
  decide_cookie, Event, logs_in, logs_out, asks, store_after, session_middleware-decide,
}

-- The entries that the look-up finds: all, where no key is listed twice.
abbrev is_same : Session → Option Session → Bool
is_same v none = false
is_same (u, t) (some (w, r)) = u == w && t == r

abbrev listed : SessionStore → String × Session → Bool
listed s e = is_same e.1 (get e.0 s)

abbrev entries : Visit
entries s = keep_if (listed s) s

is_same-eq : (v : Session) (o : Option Session) → is_same v o ≡ true → o ≡ some v
is_same-eq v none h = ground arith
is_same-eq (u, t) (some (w, r)) h = ground arith

abbrev Anything : String × Session → Type 0
Anything e = Unit

trivial : (s : SessionStore) → All Anything s
trivial [] = tt
trivial (e ∷ s) = (tt, trivial s)

entries-Yields : Yields entries
entries-Yields s =
    All-keep_if (λ (e : String × Session). get e.0 s ≡ some e.1) Anything (listed s)
      (λ e _ h. is_same-eq e.1 (get e.0 s) h) s (trivial s)

abbrev anna : UserConfig
anna = record {
  id = 4;
  username = "anna";
  role = pos 1;
  status = pos 1;
  quota = pos 0;
  used_quota = pos 0;
  group = "default";
}

abbrev tables : AdminDb
tables = record { users = anna ∷ []; hashes = ("anna", "secret") ∷ []; refusal = none }

abbrev typed : LoginRequest
typed = record { username = "anna"; password = "secret" }

abbrev shows : ProxyError → String
shows _ = "error"

abbrev any_header : String → Option String
any_header _ = none

-- Two log-ins, one of which is a day old, a log-out and a request.
abbrev events : List Event
events =
    asks tables (some "chennix_session=t2") 90_000 90_000 90_001
    ∷ logs_out (some "chennix_session=t3")
    ∷ logs_in tables typed "t3" 80_000
    ∷ logs_in tables typed "t2" 70_000
    ∷ logs_in tables typed "t1" 10
    ∷ []

abbrev cookie : String → Option String
cookie t = some ("chennix_session=" <> t)

left : store_after str_eq shows any_header false entries events ≡ ("t2", (4, 70_000)) ∷ []
unfolding store_after
left = refl

session_middleware-decide_example :
    (session_middleware tables entries 100_000 100_000 100_000
      (cookie "t2")
      (store_after str_eq shows any_header false entries events)).0
    ≡ admits anna
unfolding decide_cookie load_user
session_middleware-decide_example =
    session_middleware-decide str_eq shows any_header false entries entries-Yields tables 100_000
      100_000 100_000 events
      (
        (ground arith, ground arith, ground arith),
        (tt, (ground arith, (ground arith, (ground arith, tt)))),
      )
      (cookie "t2")
