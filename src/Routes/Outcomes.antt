-- ===== src/Routes/Outcomes.antt =====
-- crates/server/src/routes/mod.rs, `proxy_request`: what a request costs, and what the audit log says
-- of it.
use chenni_x_api.Prelude.Int.{ℤ}
use chenni_x_api.Prelude.Tests.{Bool-cases}
use chenni_x_api.Prelude.{
  ℕ, ◌≡◌, refl, subst, ◌∙◌, String, true, false, ◌⊎◌, inl, inr, Option, none, some, [], ◌∷◌, ◌++◌,
}
use chenni_x_api.Common.Types.{RowId, AuthContext, allows_model}
use chenni_x_api.Common.Errors.{ProxyError, http_status}
use chenni_x_api.Common.Results.{ok}
use chenni_x_api.Json.{Json}
use chenni_x_api.Billing.Contract.{Contract}
use chenni_x_api.Billing.Effects.{PreCharged}
use chenni_x_api.Router.{RoutedKey}
use chenni_x_api.Normalizer.{resolve}
use chenni_x_api.Cache.{CacheData}
use chenni_x_api.Cache.Laws.{in_use, load-in_use}
use chenni_x_api.Cache.Store.{load}
use chenni_x_api.Executor.{EntryFormat, ExecutionResult, ExecutionFailure}
use chenni_x_api.Executor.Attempts.{Outside, World, Reply, Result, success, failure, panics}
use chenni_x_api.Executor.Range.{Saturates}
use chenni_x_api.Executor.Run.{Setting, StreamBootstrap, execute_stream}
use chenni_x_api.Executor.Serve.{Answer, execute}
use chenni_x_api.Executor.Money.{RefundsCommit, StreamCharged, execute_stream_charges}
use chenni_x_api.Executor.Deliveries.{Delivered, Charged, Held, ExecuteCharged}
use chenni_x_api.Executor.Charges.{execute_charges}
use chenni_x_api.Routes.Proxy.{
  LogRow, Gateway, Outcome, responds, streams, fails, crashes, wants_stream, client_model,
  refused_row, failed_row, success_row, not_allowed, os, context_of, answer, answer_stream,
  proxy_allowed, proxy_resolved, proxy_loaded, proxy_named, proxy_request, error_of,
}

module _ (auth : AuthContext) (entry : EntryFormat) (body : Json) (display : ProxyError → String)
    {S W A : Type 0} (g : Setting) (o : Outside S W Answer)
    (send_stream : ℕ → RoutedKey → Json → Reply A) (saturates : Saturates g.floats)
    (c : Contract o.repo) (commits : RefundsCommit o.repo) where
  abbrev Spent : ℤ → S → S → Type 0
  Spent cost s s' =
      let ctx = context_of auth entry body display g o send_stream 0 "" in
      Charged g ctx saturates o c commits cost s s' ⊎ Held g ctx saturates o c commits cost s s'

  -- An upstream's answer came to `r`, at its cost, which was spent.
  abbrev pub Came : Option CacheData → Result ExecutionResult → ℤ → S → S → Type 0
  Came k r cost s s' =
      (model_id : RowId) × (name : String) × Delivered g
        (context_of auth entry body display g o send_stream model_id name) saturates o c commits k
        entry body r cost
      × Spent cost s s'

  -- A row more in the log, with a status.
  abbrev pub Logged : Gateway S W → Gateway S W → ℕ → LogRow → Type 0
  Logged gw gw' status row = (gw'.logged ≡ gw.logged ++ row ∷ []) × (row.response_status ≡ status)

  -- What a request from `gw` ends in.
  abbrev pub Accounts : Option CacheData → Gateway S W → Outcome A × Gateway S W → Type 0
  Accounts k gw (responds b, gw') =
      (row : LogRow) × (r : ExecutionResult) × (Logged gw gw' 200 row)
      × (r.body ≡ b)
      × Came k (success r) row.quota_cost gw.world.ledger gw'.world.ledger
  Accounts k gw (streams boot, gw') =
      (gw'.logged ≡ gw.logged)
      × ((estimate : ℤ) × PreCharged o.repo c auth.user.id auth.token.id estimate gw.world.ledger
            (ok boot.session, gw'.world.ledger))
  Accounts k gw (fails e, gw') =
      ((gw'.logged ≡ gw.logged) × (gw'.world.ledger ≡ gw.world.ledger))
      ⊎ ((row : LogRow) × Logged gw gw' (http_status e) row
          × ((gw'.world.ledger ≡ gw.world.ledger)
              ⊎ ((f : ExecutionFailure) × (cost : ℤ) × (f.error ≡ e)
                  × Came k (failure f) cost gw.world.ledger gw'.world.ledger)))
  Accounts k gw (crashes, gw') = ⊥

  answer-Accounts :
      (k : Option CacheData) (model_id : RowId) (name : String) (r : Result ExecutionResult)
      (w : World S W) (gw : Gateway S W)
      → ExecuteCharged g
          (context_of auth entry body display g o send_stream model_id name)
          saturates
          o
          c
          commits
          k
          entry
          body
          gw.world.ledger
          r
          w.ledger
      → Accounts k gw (answer auth entry body display g o send_stream name (r, w) gw)
  unfolding answer success_row failed_row
  answer-Accounts k model_id name (success r) w gw h = (
    success_row auth entry body display name r,
    r,
    (refl, refl),
    refl,
    (model_id, name, h.0, h.1),
  )
  answer-Accounts k model_id name (failure f) w gw (inl same) =
      inr (failed_row auth entry body display name false f, (refl, refl), inl same)
  answer-Accounts k model_id name (failure f) w gw (inr (cost, d, spent)) = inr (
    failed_row auth entry body display name false f,
    (refl, refl),
    inr (f, cost, refl, (model_id, name, d, spent)),
  )
  answer-Accounts k model_id name panics w gw h = absurd h

  stream-Accounts :
      (k : Option CacheData) (model_id : RowId) (name : String) (r : Result (StreamBootstrap A))
      (w : World S W) (gw : Gateway S W)
      → StreamCharged g
          (context_of auth entry body display g o send_stream model_id name)
          saturates
          (os auth entry body display g o send_stream)
          c
          commits
          gw.world.ledger
          r
          w.ledger
      → Accounts k gw (answer_stream auth entry body display g o send_stream name (r, w) gw)
  unfolding answer_stream failed_row
  stream-Accounts k model_id name (success boot) w gw h = (refl, h)
  stream-Accounts k model_id name (failure f) w gw h =
      inr (failed_row auth entry body display name true f, (refl, refl), inl h)
  stream-Accounts k model_id name panics w gw h = absurd h

  allowed-Accounts :
      (k : Option CacheData) (model_id : RowId) (name : String) (gw : Gateway S W)
      → c.IsValid gw.world.ledger
      → in_use g.loader gw.world.cache ≡ k
      → Accounts k gw (proxy_allowed auth entry body display g o send_stream model_id name gw)
  unfolding proxy_allowed
  allowed-Accounts k model_id name gw v e =
      let ctx = context_of auth entry body display g o send_stream model_id name in
      let out = os auth entry body display g o send_stream in
      elim (Bool-cases (wants_stream body)) [
        | inl h ↦ rw h (
            stream-Accounts k model_id name (execute_stream g out ctx entry body gw.world).0
              (execute_stream g out ctx entry body gw.world).1 gw
              (execute_stream_charges g ctx saturates out c commits entry body gw.world v))
        | inr h ↦ rw h (
            answer-Accounts k model_id name (execute g o ctx entry body gw.world).0
              (execute g o ctx entry body gw.world).1 gw
              (subst
                (λ k'.
                  ExecuteCharged g ctx saturates o c commits k' entry body gw.world.ledger
                    (execute g o ctx entry body gw.world).0
                    (execute g o ctx entry body gw.world).1.ledger)
                e (execute_charges g ctx saturates o c commits entry body gw.world v)))
      ]

  resolved-Accounts :
      (k : Option CacheData) (model_name : String) (found : Option (RowId × String))
      (gw : Gateway S W)
      → c.IsValid gw.world.ledger
      → in_use g.loader gw.world.cache ≡ k
      → Accounts k gw (proxy_resolved auth entry body display g o send_stream model_name found gw)
  unfolding proxy_resolved refused_row
  resolved-Accounts k model_name none gw v e = inl (refl, refl)
  resolved-Accounts k model_name (some (model_id, name)) gw v e =
      elim (Bool-cases (allows_model auth.token name)) [
        | inl h ↦ rw h (allowed-Accounts k model_id name gw v e)
        | inr h ↦ rw h (
            inr (
              refused_row auth entry body display name (not_allowed auth entry body display name),
              (refl, refl),
              inl refl,
            ))
      ]

  loaded-Accounts :
      (k : Option CacheData) (model_name : String) (failed : Option ProxyError) (gw : Gateway S W)
      → c.IsValid gw.world.ledger
      → in_use g.loader gw.world.cache ≡ k
      → Accounts k gw (proxy_loaded auth entry body display g o send_stream model_name failed gw)
  unfolding proxy_loaded
  loaded-Accounts k model_name (some x) gw v e = inl (refl, refl)
  loaded-Accounts k model_name none gw v e =
      resolved-Accounts k model_name (resolve o.lower model_name gw.world.cache.normalizer) gw v e

  named-Accounts :
      (k : Option CacheData) (name : Option String) (gw : Gateway S W)
      → c.IsValid gw.world.ledger
      → in_use g.loader gw.world.cache ≡ k
      → Accounts k gw (proxy_named auth entry body display g o send_stream name gw)
  unfolding proxy_named
  named-Accounts k none gw v e = inl (refl, refl)
  named-Accounts k (some model_name) gw v e =
      let (r, cache) = load o.lower g.loader gw.world.cache in
      loaded-Accounts k model_name (error_of auth entry body display g o send_stream r)
        record gw { world = record gw.world { cache = cache } } v
        (load-in_use o.lower g.loader gw.world.cache ∙ e)

  -- From a valid store, where refunds commit and rounding saturates: a request that is answered got
  -- the body of an upstream's answer, and has one more row in the audit log, with the status 200 and
  -- the cost of that answer, which was spent by the user and the token of the request. A stream that
  -- starts has no row yet, and leaves the balances with the pre-charge of its session. A request
  -- that fails without a row leaves the balances as they were; with a row, which has the status of
  -- the error, it leaves them as they were too, or an upstream had answered, the error is that its
  -- answer could not be translated or printed, and its cost was spent. The cost of an answer is that of the usage in it, at the price of its key's
  -- binding in the snapshot in use, the cached one or else the backend's. Spent means that exactly the
  -- cost has moved, or that the settlement failed and the pre-charge stays. None crashes.
  pub proxy_request-Accounts :
      (gw : Gateway S W)
      → c.IsValid gw.world.ledger
      → Accounts
          (in_use g.loader gw.world.cache)
          gw
          (proxy_request auth entry body display g o send_stream gw)
  unfolding proxy_request
  proxy_request-Accounts gw v =
      named-Accounts (in_use g.loader gw.world.cache) (client_model auth entry body display) gw v
        refl
