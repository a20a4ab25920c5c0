-- ===== src/Executor/Quotas.antt =====
-- crates/core/src/executor.rs and tracker.rs: what an execution does to the quotas that the router
-- reads.
use chenni_x_api.Prelude.{◌≡◌, refl, ap, String, Bool, Option, List, arith}
use chenni_x_api.Prelude.Maps.{Map}
use chenni_x_api.Common.Types.{RowId, ChannelProvider, ChannelModelPricing}
use chenni_x_api.Billing.{BillingSession}
use chenni_x_api.Health.{SmallModelState, mark_cooldown, mark_disabled, add_usage}
use chenni_x_api.Health.Quota.{is_small_model_available}
use chenni_x_api.Router.{RoutedKey}
use chenni_x_api.Tracker.{track_success}
use chenni_x_api.Json.{Json}
use chenni_x_api.Executor.{EntryFormat, ExecutionContext}
use chenni_x_api.Executor.Attempts.{Outside, World}
use chenni_x_api.Executor.Loop.{log_failure, cool}
use chenni_x_api.Executor.Run.{Setting, price_of, bootstrap, execute_stream}
use chenni_x_api.Executor.Serve.{Answer, book, respond, execute}
use chenni_x_api.Executor.Invariant.{Kept}
use chenni_x_api.Executor.Whole.{select_and_run-Inv}

module _ {S W : Type 0} (ctx : ExecutionContext) (start : World S W) where
  -- The health manager has the quotas that it had at the start.
  abbrev pub SameQuotas : World S W → Type 0
  SameQuotas w = w.health.small_model_states ≡ start.health.small_model_states

  loops_keep : {A : Type 0} (o : Outside S W A) → Kept o ctx SameQuotas
  unfolding log_failure cool mark_cooldown mark_disabled
  loops_keep o = record {
    ticks = λ w h. h;
    logs = λ rk message w h. h;
    cools = λ rk w h. h;
    disables = λ rk w h. h;
    pays = λ s w h. h;
    caches = λ c w h. h;
  }

  price_of-SameQuotas :
      {A : Type 0} (g : Setting) (o : Outside S W A) (first : RoutedKey)
      (pricing : Option ChannelModelPricing) (rk : RoutedKey) (w : World S W)
      → SameQuotas w
      → SameQuotas (price_of g o ctx first pricing rk w).1
  unfolding price_of
  price_of-SameQuotas g o first pricing rk w h = ground (arith, h)

  respond-SameQuotas :
      (g : Setting) (o : Outside S W Answer) (entry : EntryFormat) (first : RoutedKey)
      (pricing : Option ChannelModelPricing) (session : BillingSession) (rk : RoutedKey)
      (provider : ChannelProvider) (attempted : List String) (a : Answer) (w : World S W)
      → SameQuotas w
      → SameQuotas (respond g o ctx entry first pricing session rk provider attempted a w).1
  unfolding respond book track_success add_usage
  respond-SameQuotas g o entry first pricing session rk provider attempted (code, bytes) w h =
      price_of-SameQuotas g o first pricing rk w h

  -- No execution, streamed or not, however it ends and whatever quotas it uses up, changes an answer
  -- of the quota filter that the router applies.
  pub quotas_unseen :
      {A : Type 0} (g : Setting) (o : Outside S W Answer) (streams : Outside S W A)
      (entry : EntryFormat) (body : Json) (contended : Bool) (channel_id : RowId) (model : String)
      → (let before = is_small_model_available contended start.health channel_id model in
          (is_small_model_available contended
              (execute g o ctx entry body start).1.health
              channel_id
              model
            ≡ before)
          × (is_small_model_available contended
                (execute_stream g streams ctx entry body start).1.health
                channel_id
                model
              ≡ before))
  unfolding execute execute_stream bootstrap is_small_model_available
  quotas_unseen g o streams entry body contended channel_id model =
      let filter = λ (m : Map (RowId × String) SmallModelState).
        is_small_model_available contended (record start.health { small_model_states = m })
          channel_id model in
      (
        ap filter (
            select_and_run-Inv g o ctx entry body (respond g o ctx entry) SameQuotas (loops_keep o)
              (respond-SameQuotas g o entry) start refl),
        ap filter (
            select_and_run-Inv g streams ctx entry body (bootstrap g streams ctx entry) SameQuotas
              (loops_keep streams)
              (λ first pricing session rk provider attempted a w h.
                price_of-SameQuotas g streams first pricing rk w h)
              start refl),
      )
