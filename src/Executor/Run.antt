-- ===== src/Executor/Run.antt =====
-- crates/core/src/executor.rs: `select_keys`, `execute` and `execute_stream`.
use chenni_x_api.Prelude.Tests.{◌==◌, if◌then◌else◌}
use chenni_x_api.Prelude.{ℕ, String, str_eq, ◌⊎◌, Bool, ◌&&◌, Option, none, some, List, [], ◌∷◌}
use chenni_x_api.Common.Types.{RowId, ChannelProvider, ChannelModelPricing}
use chenni_x_api.Common.Errors.{all_keys_exhausted}
use chenni_x_api.Common.Results.{ProxyResult, ok, err, Action}
use chenni_x_api.Billing.{BillingSession, pre_charge}
use chenni_x_api.Cache.{RoutingStrategy, priority}
use chenni_x_api.Cache.Store.{
  CacheLoader, Candidate, get_for_model, get_routing_strategy, get_channel_model_pricing,
}
use chenni_x_api.Health.{try_is_available}
use chenni_x_api.Health.Quota.{is_small_model_available}
use chenni_x_api.Router.{RoutedKey, route}
use chenni_x_api.Json.{Json, null}
use chenni_x_api.Executor.{EntryFormat, ExecutionContext, no_attempt}
use chenni_x_api.Executor.Bodies.{extract_max_tokens}
use chenni_x_api.Executor.Costs.{Floats, Value, estimate_cost}
use chenni_x_api.Executor.Attempts.{Outside, World, Result, success, failure, panics}
use chenni_x_api.Executor.Loop.{run_candidates}

-- What the routing and the pricing are given: the backend of the cache, the generator, which reads
-- find their lock taken, the arithmetic, and the reading and writing of JSON.
pub record Setting : Type 0 where
  pub loader : CacheLoader
  pub draw : ℕ → ℕ → ℕ
  pub contended : RowId → String → Bool
  pub quota_contended : RowId → String → Bool
  pub floats : Floats
  pub evaluate : String → ℕ → ℕ → ℕ → Value
  pub from_slice : String → Option Json
  pub to_vec : Json → String ⊎ String

pub record StreamBootstrap (A : Type 0) : Type 0 where
  pub response : A
  pub session : BillingSession
  pub routed_key : RoutedKey
  pub model_pricing : Option ChannelModelPricing
  pub entry_format : EntryFormat
  pub adaptor_provider : ChannelProvider

abbrev pub or_priority : ProxyResult RoutingStrategy → RoutingStrategy
or_priority (ok strategy) = strategy
or_priority (err _) = priority

abbrev pub or_none : ProxyResult (Option ChannelModelPricing) → Option ChannelModelPricing
or_none (ok pricing) = pricing
or_none (err _) = none

abbrev pub or_null : Option Json → Json
or_null none = null
or_null (some v) = v

module _ {S W A : Type 0} (g : Setting) (o : Outside S W A) (ctx : ExecutionContext) where
  unfoldable pub route_found :
      ProxyResult (List Candidate) → Action (World S W) (List (List RoutedKey))
  unfolding get_routing_strategy route try_is_available is_small_model_available
  route_found (err e) w = (err e, w)
  route_found (ok tuples) w =
      let (strategy, c) = get_routing_strategy o.lower ctx.model_id g.loader w.cache in
      (
        ok (
            route g.draw tuples ctx.user_group
              (λ k m. try_is_available (g.contended k m) (o.clock w.moment) w.health k m)
              (or_priority strategy)
              (λ c m. is_small_model_available (g.quota_contended c m) w.health c m)),
        record w { cache = c },
      )

  unfoldable pub select_keys : Action (World S W) (List (List RoutedKey))
  unfolding get_for_model route_found
  select_keys w =
      let (r, c) = get_for_model o.lower ctx.model_id g.loader w.cache in
      route_found r (record w { cache = c })

  -- The price of the binding that answered; that of the first candidate is at hand.
  unfoldable pub price_of :
      RoutedKey
      → Option ChannelModelPricing
      → RoutedKey
      → World S W
      → Option ChannelModelPricing × World S W
  unfolding get_channel_model_pricing
  price_of first pricing rk w =
      if rk.channel.id == first.channel.id
        && str_eq rk.upstream_model_name first.upstream_model_name
      then (pricing, w)
      else (let (r, c) =
            get_channel_model_pricing o.lower ctx.model_id rk.channel.id rk.upstream_model_name
              g.loader w.cache in
          (or_none r, record w { cache = c }))

  -- From the candidates to the loop: the price of the first key, the estimate, the pre-charge.
  module _ {R : Type 0} (entry : EntryFormat) (body : Json)
      (serve : RoutedKey
        → Option ChannelModelPricing
        → BillingSession
        → RoutedKey
        → ChannelProvider
        → List String
        → A
        → World S W
        → Result R × World S W) where
    -- What the pre-charge answered.
    unfoldable pub run_paid :
        RoutedKey
        → List (List RoutedKey)
        → Option ChannelModelPricing
        → ProxyResult BillingSession
        → World S W
        → Result R × World S W
    unfolding run_candidates no_attempt
    run_paid first candidates pricing (err e) w = (failure (no_attempt e), w)
    run_paid first candidates pricing (ok session) w =
        run_candidates o ctx entry body session (serve first pricing session) candidates w

    -- What the look-up of the price answered.
    unfoldable pub charge_priced :
        RoutedKey
        → List (List RoutedKey)
        → ProxyResult (Option ChannelModelPricing)
        → World S W
        → Result R × World S W
    unfolding estimate_cost extract_max_tokens pre_charge run_paid no_attempt
    charge_priced first candidates (err e) w = (failure (no_attempt e), w)
    charge_priced first candidates (ok pricing) w =
        let estimated = estimate_cost g.floats g.evaluate pricing (extract_max_tokens body entry) in
        let (paid, s) = pre_charge o.repo ctx.user_id ctx.token_id estimated w.ledger in
        run_paid first candidates pricing paid (record w { ledger = s })

    unfoldable pub charge_and_run :
        RoutedKey → List (List RoutedKey) → World S W → Result R × World S W
    unfolding get_channel_model_pricing charge_priced
    charge_and_run first candidates w =
        let (r, c) =
          get_channel_model_pricing o.lower ctx.model_id first.channel.id first.upstream_model_name
            g.loader w.cache in
        charge_priced first candidates r (record w { cache = c })

    -- `candidates[0][0]`, after the test for no candidates.
    unfoldable pub with_candidates : List (List RoutedKey) → World S W → Result R × World S W
    unfolding charge_and_run no_attempt
    with_candidates [] w = (failure (no_attempt (all_keys_exhausted ctx.canonical_name [] none)), w)
    with_candidates ([] ∷ others) w = (panics, w)
    with_candidates ((first ∷ keys) ∷ others) w = charge_and_run first ((first ∷ keys) ∷ others) w

    unfoldable pub select_and_run : World S W → Result R × World S W
    unfolding select_keys with_candidates no_attempt
    select_and_run w =
        let (r, w') = select_keys w in
        elim r [
          | err e ↦ (failure (no_attempt e), w')
          | ok candidates ↦ with_candidates candidates w'
        ]

  -- The branch `Ok(resp)` of `execute_stream`: the session goes to the caller.
  unfoldable pub bootstrap :
      EntryFormat
      → RoutedKey
      → Option ChannelModelPricing
      → BillingSession
      → RoutedKey
      → ChannelProvider
      → List String
      → A
      → World S W
      → Result (StreamBootstrap A) × World S W
  unfolding price_of
  bootstrap entry first pricing session rk adaptor_provider attempted response w =
      let (model_pricing, w') = price_of first pricing rk w in
      (
        success record {
          response = response;
          session = session;
          routed_key = rk;
          model_pricing = model_pricing;
          entry_format = entry;
          adaptor_provider = adaptor_provider;
        },
        w',
      )

  unfoldable pub execute_stream :
      EntryFormat → Json → World S W → Result (StreamBootstrap A) × World S W
  unfolding select_and_run bootstrap
  execute_stream entry body w = select_and_run entry body (bootstrap entry) w
