-- ===== src/Executor/Whole.antt =====
-- crates/core/src/executor.rs: what each step of the loops keeps, an execution keeps.
use chenni_x_api.Prelude.{String, Option, List, [], ◌∷◌}
use chenni_x_api.Common.Types.{ChannelProvider, ChannelModelPricing}
use chenni_x_api.Common.Results.{ProxyResult, ok, err}
use chenni_x_api.Billing.{BillingSession, pre_charge}
use chenni_x_api.Cache.Store.{Candidate, get_channel_model_pricing, get_for_model}
use chenni_x_api.Router.{RoutedKey}
use chenni_x_api.Json.{Json}
use chenni_x_api.Executor.{EntryFormat, ExecutionContext, no_attempt}
use chenni_x_api.Executor.Bodies.{extract_max_tokens}
use chenni_x_api.Executor.Costs.{estimate_cost}
use chenni_x_api.Executor.Attempts.{Outside, World, Result, failure}
use chenni_x_api.Executor.Run.{
  Setting, route_found, select_keys, run_paid, charge_priced, charge_and_run, with_candidates,
  select_and_run,
}
use chenni_x_api.Executor.Invariant.{Kept, run_candidates-Inv}

module _ {S W A R : Type 0} (g : Setting) (o : Outside S W A) (ctx : ExecutionContext)
    (entry : EntryFormat) (body : Json)
    (serve : RoutedKey
      → Option ChannelModelPricing
      → BillingSession
      → RoutedKey
      → ChannelProvider
      → List String
      → A
      → World S W
      → Result R × World S W)
    (Inv : World S W → Type 0) (kept : Kept o ctx Inv)
    (served : (first : RoutedKey) (pricing : Option ChannelModelPricing) (session : BillingSession)
        (rk : RoutedKey) (provider : ChannelProvider) (attempted : List String) (a : A)
        (w : World S W)
      → Inv w
      → Inv (serve first pricing session rk provider attempted a w).1) where
  open kept use {pays, caches}

  route_found-Inv :
      (r : ProxyResult (List Candidate)) (w : World S W) → Inv w → Inv (route_found g o ctx r w).1
  unfolding route_found
  route_found-Inv (err e) w h = h
  route_found-Inv (ok tuples) w h = caches _ w h

  select_keys-Inv : (w : World S W) → Inv w → Inv (select_keys g o ctx w).1
  unfolding select_keys
  select_keys-Inv w h =
      let found = get_for_model o.lower ctx.model_id g.loader w.cache in
      route_found-Inv found.0 (record w { cache = found.1 }) (caches found.1 w h)

  run_paid-Inv :
      (first : RoutedKey) (candidates : List (List RoutedKey))
      (pricing : Option ChannelModelPricing) (paid : ProxyResult BillingSession) (w : World S W)
      → Inv w
      → Inv (run_paid g o ctx entry body serve first candidates pricing paid w).1
  unfolding run_paid
  run_paid-Inv first candidates pricing (err e) w h = h
  run_paid-Inv first candidates pricing (ok session) w h =
      run_candidates-Inv o ctx entry body session (serve first pricing session) Inv kept
        (served first pricing session) candidates w h

  charge_priced-Inv :
      (first : RoutedKey) (candidates : List (List RoutedKey))
      (r : ProxyResult (Option ChannelModelPricing)) (w : World S W)
      → Inv w
      → Inv (charge_priced g o ctx entry body serve first candidates r w).1
  unfolding charge_priced
  charge_priced-Inv first candidates (err e) w h = h
  charge_priced-Inv first candidates (ok pricing) w h =
      let estimate = estimate_cost g.floats g.evaluate pricing (extract_max_tokens body entry) in
      let paid = pre_charge o.repo ctx.user_id ctx.token_id estimate w.ledger in
      run_paid-Inv first candidates pricing paid.0 (record w { ledger = paid.1 }) (pays paid.1 w h)

  with_candidates-Inv :
      (candidates : List (List RoutedKey)) (w : World S W)
      → Inv w
      → Inv (with_candidates g o ctx entry body serve candidates w).1
  unfolding with_candidates charge_and_run
  with_candidates-Inv [] w h = h
  with_candidates-Inv ([] ∷ others) w h = h
  with_candidates-Inv ((first ∷ keys) ∷ others) w h =
      let priced =
        get_channel_model_pricing o.lower ctx.model_id first.channel.id first.upstream_model_name
          g.loader w.cache in
      charge_priced-Inv first ((first ∷ keys) ∷ others) priced.0 (record w { cache = priced.1 })
        (caches priced.1 w h)

  pub select_and_run-Inv :
      (w : World S W) → Inv w → Inv (select_and_run g o ctx entry body serve w).1
  unfolding select_and_run
  select_and_run-Inv w h = selected (select_keys g o ctx w) (select_keys-Inv w h)
    where
      selected :
          (x : ProxyResult (List (List RoutedKey)) × World S W)
          → Inv x.1
          → Inv
              (elim x.0 as (λ _. Result R × World S W) [
                | err e ↦ (failure (no_attempt e), x.1)
                | ok candidates ↦ with_candidates g o ctx entry body serve candidates x.1
              ]).1
      selected (err e, w') i = i
      selected (ok candidates, w') i = with_candidates-Inv candidates w' i
