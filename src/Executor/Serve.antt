-- ===== src/Executor/Serve.antt =====
-- crates/core/src/executor.rs, `execute`: what is done with the answer of an upstream.
use chenni_x_api.Prelude.Tests.{if◌then◌else◌}
use chenni_x_api.Prelude.Int.{ℤ}
use chenni_x_api.Prelude.{ℕ, String, ◌⊎◌, inl, inr, Option, none, some, List}
use chenni_x_api.Common.Types.{Usage, ChannelProvider, same_provider, ChannelModelPricing}
use chenni_x_api.Common.Errors.{json}
use chenni_x_api.Common.Results.{ProxyResult, ok, err}
use chenni_x_api.Billing.{BillingSession, settle}
use chenni_x_api.Router.{RoutedKey}
use chenni_x_api.Tracker.{UsageLog, track_success}
use chenni_x_api.Json.{Json}
use chenni_x_api.Executor.{
  EntryFormat, provider, ExecutionContext, ExecutionResult, from_last_attempt,
}
use chenni_x_api.Executor.Bodies.{extract_usage_from_response, translate_response_back}
use chenni_x_api.Executor.Costs.{actual_cost}
use chenni_x_api.Executor.Attempts.{Outside, World, Result, success, failure}
use chenni_x_api.Executor.Run.{Setting, or_null, price_of, select_and_run}

-- The status code and the bytes of an answer.
abbrev pub Answer : Type 0
Answer = ℕ × String

module _ {S W : Type 0} (g : Setting) (o : Outside S W Answer) (ctx : ExecutionContext) where
  -- Billing and tracking; their errors are only logged.
  unfoldable pub book : BillingSession → RoutedKey → Usage → ℤ → World S W → World S W
  unfolding settle track_success
  book session rk usage cost w =
      let row : UsageLog = record {
        user_id = ctx.user_id;
        token_id = ctx.token_id;
        channel_id = rk.channel.id;
        key_id = rk.key.id;
        model_id = ctx.model_id;
        usage = usage;
        quota_cost = cost;
        request_type = "chat";
        status = "success";
        error = none;
      } in
      let (health, (cache, written)) =
        track_success o.writer row rk.upstream_model_name (w.health, (w.cache, w.usage)) in
      record w {
        ledger = (settle o.repo session cost w.ledger).1;
        health = health;
        cache = cache;
        usage = written;
      }

  result_of : RoutedKey → List String → ℕ → ℤ → String → ExecutionResult
  result_of rk attempted code cost body = record {
    body = body;
    channel_name = rk.channel.name;
    key_label = rk.key.label;
    upstream_status = some code;
    upstream_model_name = rk.upstream_model_name;
    quota_cost = cost;
    attempted_keys = attempted;
  }

  -- What `serde_json::to_vec` answered.
  unfoldable pub printed :
      RoutedKey → List String → ℕ → ℤ → String ⊎ String → Result ExecutionResult
  unfolding from_last_attempt result_of
  printed rk attempted code cost (inl e) =
      failure (from_last_attempt rk attempted (some code) (json e))
  printed rk attempted code cost (inr body) = success (result_of rk attempted code cost body)

  -- What `translate_response_back` answered.
  unfoldable pub translated :
      RoutedKey → List String → ℕ → ℤ → ProxyResult Json → Result ExecutionResult
  unfolding from_last_attempt printed
  translated rk attempted code cost (err e) = failure (from_last_attempt rk attempted (some code) e)
  translated rk attempted code cost (ok t) = printed rk attempted code cost (g.to_vec t)

  -- The body that goes to the client.
  unfoldable pub final_body :
      EntryFormat
      → RoutedKey
      → ChannelProvider
      → List String
      → Answer
      → Json
      → ℤ
      → Result ExecutionResult
  unfolding translate_response_back translated result_of
  final_body entry rk adaptor_provider attempted (code, bytes) value cost =
      if same_provider adaptor_provider (provider entry)
      then success (result_of rk attempted code cost bytes)
      else translated rk attempted code cost
          (translate_response_back o.translators entry adaptor_provider value)

  -- The branch `Ok((upstream_status_code, bytes))`.
  unfoldable pub respond :
      EntryFormat
      → RoutedKey
      → Option ChannelModelPricing
      → BillingSession
      → RoutedKey
      → ChannelProvider
      → List String
      → Answer
      → World S W
      → Result ExecutionResult × World S W
  unfolding extract_usage_from_response price_of actual_cost book final_body
  respond entry first pricing session rk adaptor_provider attempted (code, bytes) w =
      let usage_value = or_null (g.from_slice bytes) in
      let usage = extract_usage_from_response usage_value adaptor_provider in
      let (actual_pricing, w') = price_of g o ctx first pricing rk w in
      let cost = actual_cost g.floats g.evaluate usage actual_pricing in
      (
        final_body entry rk adaptor_provider attempted (code, bytes) usage_value cost,
        book session rk usage cost w',
      )

  unfoldable pub execute : EntryFormat → Json → World S W → Result ExecutionResult × World S W
  unfolding select_and_run respond
  execute entry body w = select_and_run g o ctx entry body (respond entry) w
