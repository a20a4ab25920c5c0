-- ===== src/Executor/Start.antt =====
-- crates/core/src/executor.rs: the prefix that `execute` and `execute_stream` share, up to the
-- loops: the selection of the candidates, the price, and the pre-charge.
use chenni_x_api.Prelude.Int.{ℤ, InI64}
use chenni_x_api.Prelude.Lists.{All}
use chenni_x_api.Prelude.{◌≡◌, refl, sym, subst, ◌∙◌, ℕ, String, Option, some, List, [], ◌∷◌, arith}
use chenni_x_api.Common.Types.{ChannelProvider, ChannelModelPricing}
use chenni_x_api.Common.Results.{ProxyResult, ok, err}
use chenni_x_api.Billing.{BillingSession, pre_charge}
use chenni_x_api.Billing.Contract.{Contract}
use chenni_x_api.Billing.Effects.{PreCharged, pre_charge_effect}
use chenni_x_api.Cache.{CacheData, pricing_for}
use chenni_x_api.Cache.Laws.{in_use, strategy-in_use, candidates-in_use, Priced, pricing-Priced}
use chenni_x_api.Cache.Store.{ConfigCache, Candidate, get_for_model, get_channel_model_pricing}
use chenni_x_api.Router.{RoutedKey}
use chenni_x_api.Router.Order.{IsRanked, route-IsRanked}
use chenni_x_api.Json.{Json}
use chenni_x_api.Executor.{EntryFormat, ExecutionContext, ExecutionFailure, no_attempt}
use chenni_x_api.Executor.Costs.{estimate_cost}
use chenni_x_api.Executor.Bodies.{extract_max_tokens}
use chenni_x_api.Executor.Attempts.{Outside, World, Result, failure}
use chenni_x_api.Executor.Loop.{run_candidates}
use chenni_x_api.Executor.Run.{
  Setting, route_found, select_keys, run_paid, charge_priced, charge_and_run, with_candidates,
  select_and_run,
}

module _ {S W A : Type 0} (g : Setting) (o : Outside S W A) (ctx : ExecutionContext) where
  -- The price of the key's binding in a snapshot.
  abbrev pub PriceIn : CacheData → RoutedKey → Option ChannelModelPricing → Type 0
  PriceIn d rk price = price ≡ pricing_for d ctx.model_id rk.channel.id rk.upstream_model_name

  -- The selection answers groups that have a first key, moves no money, and keeps the snapshot.
  abbrev pub Selected :
      S → Option CacheData → ProxyResult (List (List RoutedKey)) × World S W → Type 0
  Selected s k (err _, w) = w.ledger ≡ s
  Selected s k (ok groups, w) = All IsRanked groups × (w.ledger ≡ s) × (in_use g.loader w.cache ≡ k)

  route_found-Selected :
      (k : Option CacheData) (r : ProxyResult (List Candidate)) (w : World S W)
      → in_use g.loader w.cache ≡ k
      → Selected w.ledger k (route_found g o ctx r w)
  unfolding route_found
  route_found-Selected k (err e) w h = refl
  route_found-Selected k (ok tuples) w h = (
    route-IsRanked g.draw tuples ctx.user_group _ _ _,
    refl,
    strategy-in_use o.lower g.loader w.cache ctx.model_id ∙ h,
  )

  select_keys-Selected :
      (w : World S W) → Selected w.ledger (in_use g.loader w.cache) (select_keys g o ctx w)
  unfolding select_keys
  select_keys-Selected w =
      let found = get_for_model o.lower ctx.model_id g.loader w.cache in
      route_found-Selected (in_use g.loader w.cache) found.0 (record w { cache = found.1 })
        (candidates-in_use o.lower g.loader w.cache ctx.model_id)

  module _ {R : Type 0} (entry : EntryFormat) (body : Json)
      (serve : RoutedKey
        → Option ChannelModelPricing
        → BillingSession
        → RoutedKey
        → ChannelProvider
        → List String
        → A
        → World S W
        → Result R × World S W)
      (c : Contract o.repo)
      (estimate_in : (p : Option ChannelModelPricing) (n : Option ℕ)
        → InI64 (estimate_cost g.floats g.evaluate p n))
      (Final : Option CacheData → S → Result R → S → Type 0)
      (untouched : (k : Option CacheData) (s : S) (f : ExecutionFailure) → Final k s (failure f) s)
      (runs : (estimate : ℤ) (s : S) (first : RoutedKey) (pricing : Option ChannelModelPricing)
          (session : BillingSession) (candidates : List (List RoutedKey)) (d : CacheData)
          (w : World S W)
        → c.IsValid s
        → InI64 estimate
        → PriceIn d first pricing
        → w.cache.cached ≡ some d
        → pre_charge o.repo ctx.user_id ctx.token_id estimate s ≡ (ok session, w.ledger)
        → Final
            (some d)
            s
            (run_candidates o ctx entry body session (serve first pricing session) candidates w).0
            (run_candidates o ctx entry body session
              (serve first pricing session)
              candidates
              w).1.ledger) where
    abbrev pub EndsIn : Option CacheData → S → Result R × World S W → Type 0
    EndsIn k s (r, w) = Final k s r w.ledger

    run_paid-EndsIn :
        (estimate : ℤ) (s : S) (first : RoutedKey) (candidates : List (List RoutedKey))
        (pricing : Option ChannelModelPricing) (paid : ProxyResult BillingSession) (d : CacheData)
        (w : World S W)
        → c.IsValid s
        → InI64 estimate
        → PriceIn d first pricing
        → w.cache.cached ≡ some d
        → pre_charge o.repo ctx.user_id ctx.token_id estimate s ≡ (paid, w.ledger)
        → EndsIn (some d) s (run_paid g o ctx entry body serve first candidates pricing paid w)
    unfolding run_paid
    run_paid-EndsIn estimate s first candidates pricing (err e) d w v b priced now h =
        let kept : PreCharged o.repo c ctx.user_id ctx.token_id estimate s (err e, w.ledger) =
          subst (PreCharged o.repo c ctx.user_id ctx.token_id estimate s) h
            (pre_charge_effect o.repo c ctx.user_id ctx.token_id estimate s v) in
        subst (λ t. Final (some d) s (failure (no_attempt e)) t) (sym kept) (untouched (some d) s _)
    run_paid-EndsIn estimate s first candidates pricing (ok session) d w v b priced now h =
        runs estimate s first pricing session candidates d w v b priced now h

    charge_priced-EndsIn :
        (k : Option CacheData) (first : RoutedKey) (candidates : List (List RoutedKey))
        (cache : ConfigCache) (w : World S W)
        (x : ProxyResult (Option ChannelModelPricing) × ConfigCache)
        → Priced g.loader cache ctx.model_id first.channel.id first.upstream_model_name x
        → in_use g.loader cache ≡ k
        → c.IsValid w.ledger
        → EndsIn k w.ledger
            (charge_priced g o ctx entry body serve first candidates x.0 (record w { cache = x.1 }))
    unfolding charge_priced
    charge_priced-EndsIn k first candidates cache w (err e, c') h e' v = untouched k w.ledger _
    charge_priced-EndsIn k first candidates cache w (ok pricing, c') (d, used, now, priced) e v =
        let estimate = estimate_cost g.floats g.evaluate pricing (extract_max_tokens body entry) in
        let paid = pre_charge o.repo ctx.user_id ctx.token_id estimate w.ledger in
        subst
          (λ k'. EndsIn k' w.ledger (
            run_paid g o ctx entry body serve first candidates pricing paid.0
              (record w { ledger = paid.1; cache = c' })))
          (sym used ∙ e)
          (run_paid-EndsIn estimate w.ledger first candidates pricing paid.0 d
            (record w { ledger = paid.1; cache = c' }) v (estimate_in pricing _) priced now refl)

    with_candidates-EndsIn :
        (k : Option CacheData) (candidates : List (List RoutedKey)) (w : World S W)
        → c.IsValid w.ledger
        → All IsRanked candidates
        → in_use g.loader w.cache ≡ k
        → EndsIn k w.ledger (with_candidates g o ctx entry body serve candidates w)
    unfolding with_candidates charge_and_run
    with_candidates-EndsIn k [] w v h e = untouched k w.ledger _
    with_candidates-EndsIn k ([] ∷ others) w v h e = absurd (ground (arith, h.0.0))
    with_candidates-EndsIn k ((first ∷ keys) ∷ others) w v h e =
        charge_priced-EndsIn k first ((first ∷ keys) ∷ others) w.cache w
          (get_channel_model_pricing o.lower ctx.model_id first.channel.id first.upstream_model_name
            g.loader w.cache)
          (pricing-Priced o.lower g.loader w.cache ctx.model_id first.channel.id
            first.upstream_model_name)
          e v

    pub select_and_run-EndsIn :
        (w : World S W)
        → c.IsValid w.ledger
        → EndsIn (in_use g.loader w.cache) w.ledger (select_and_run g o ctx entry body serve w)
    unfolding select_and_run
    select_and_run-EndsIn w v = selected (select_keys g o ctx w) (select_keys-Selected w)
      where
        k : Option CacheData
        k = in_use g.loader w.cache

        selected :
            (x : ProxyResult (List (List RoutedKey)) × World S W)
            → Selected w.ledger k x
            → EndsIn k w.ledger (elim x.0 [
              | err e ↦ (failure (no_attempt e), x.1)
              | ok candidates ↦ with_candidates g o ctx entry body serve candidates x.1
            ])
        selected (err e, w') h =
            subst (λ s. Final k s (failure (no_attempt e)) w'.ledger) h (untouched k w'.ledger _)
        selected (ok candidates, w') (ranked, same, snapshot) =
            subst (λ s. EndsIn k s (with_candidates g o ctx entry body serve candidates w')) same
              (with_candidates-EndsIn k candidates w' (subst c.IsValid (sym same) v) ranked
                snapshot)
