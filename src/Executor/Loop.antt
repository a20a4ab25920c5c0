-- ===== src/Executor/Loop.antt =====
-- crates/core/src/executor.rs: the bodies of `execute` and `execute_stream` from the first key to
-- the last. Their texts differ in the branch of an accepted request alone, here `on_answer`.
use chenni_x_api.Prelude.Tests.{if◌then◌else◌}
use chenni_x_api.Prelude.Lists.{take}
use chenni_x_api.Prelude.{suc, String, none, some, List, [], ◌∷◌, ◌++◌}
use chenni_x_api.Common.Types.{ChannelProvider}
use chenni_x_api.Common.Errors.{ProxyError, upstream_timeout, all_keys_exhausted}
use chenni_x_api.Common.Results.{ProxyResult, ok, err}
use chenni_x_api.Billing.{BillingSession, refund}
use chenni_x_api.Health.{is_available, mark_cooldown, mark_disabled}
use chenni_x_api.Router.{RoutedKey}
use chenni_x_api.Tracker.{track_failure}
use chenni_x_api.Json.{Json}
use chenni_x_api.Executor.{
  EntryFormat, ExecutionContext, cool_down, disable, return_to_client, skip_binding,
  classify_failure, status_of, no_attempt, from_last_attempt, max_binding_attempts,
}
use chenni_x_api.Executor.Bodies.{prepare_request}
use chenni_x_api.Executor.Attempts.{
  Reply, timed_out, refused, answered, Outside, World, Progress, nothing_tried, Result, failure,
  Next, continues, breaks, returns, key_name,
}

module _ {S W A : Type 0} (o : Outside S W A) (ctx : ExecutionContext) where
  abbrev pub tick : World S W → World S W
  tick w = record w { moment = suc w.moment }

  -- `let _ = Tracker::track_failure(..)`
  unfoldable pub log_failure : RoutedKey → String → World S W → World S W
  unfolding track_failure
  log_failure rk message w = record w {
    usage =
        (track_failure o.writer ctx.user_id ctx.token_id rk.channel.id rk.key.id ctx.model_id "chat"
          message w.usage).1;
  }

  unfoldable pub cool : RoutedKey → World S W → World S W
  unfolding mark_cooldown
  cool rk w = tick record w {
    health = mark_cooldown (o.clock w.moment) rk.key.id rk.upstream_model_name w.health;
  }

  -- A refund that fails is only logged.
  unfoldable pub refunded : BillingSession → World S W → World S W
  unfolding refund
  refunded session w = record w { ledger = (refund o.repo session w.ledger).1 }

  module _ {R : Type 0} (entry : EntryFormat) (body : Json) (session : BillingSession)
      (on_answer : RoutedKey
        → ChannelProvider
        → List String
        → A
        → World S W
        → Result R × World S W) where
    -- The branch `Err(e)` of a request that an upstream refused.
    unfoldable pub react : RoutedKey → ProxyError → Progress → World S W → Next R × World S W
    unfolding classify_failure status_of refunded cool mark_disabled from_last_attempt
    react rk e p w = elim (classify_failure o.lower e) [
      | return_to_client ↦
          (returns (failure (from_last_attempt rk p.attempted (status_of e) e)), refunded session w)
      | disable ↦ (continues p, record w { health = mark_disabled rk.key.id w.health })
      | cool_down ↦ (continues p, cool rk w)
      | skip_binding ↦ (breaks p, w)
    ]

    -- `match exec_result`, and the timeout before it.
    unfoldable pub take_reply :
        RoutedKey → ChannelProvider → Progress → Reply A → World S W → Next R × World S W
    unfolding react log_failure cool status_of
    take_reply rk adaptor_provider p timed_out w =
        let message = o.display (upstream_timeout o.timeout) in
        (
          continues (record p { last_error = some message; last_upstream_status = none }),
          cool rk (log_failure rk message w),
        )
    take_reply rk adaptor_provider p (answered a) w =
        let (r, w') = on_answer rk adaptor_provider p.attempted a w in (returns r, w')
    take_reply rk adaptor_provider p (refused e) w =
        react rk e
          (record p { last_error = some (o.display e); last_upstream_status = status_of e })
          (log_failure rk (o.display e) w)

    -- What `prepare_request` answered.
    unfoldable pub send_prepared :
        RoutedKey → Progress → ProxyResult (Json × ChannelProvider) → World S W → Next R × World S W
    unfolding take_reply refunded from_last_attempt
    send_prepared rk p (err e) w =
        (returns (failure (from_last_attempt rk p.attempted none e)), refunded session w)
    send_prepared rk p (ok (req_body, adaptor_provider)) w =
        take_reply rk adaptor_provider p (o.send w.moment rk req_body) (tick w)

    -- The body of the inner loop.
    unfoldable pub try_key : RoutedKey → Progress → World S W → Next R × World S W
    unfolding is_available prepare_request send_prepared key_name
    try_key rk p w =
        if is_available (o.clock w.moment) w.health rk.key.id rk.upstream_model_name
        then send_prepared rk
            (record p { attempted = p.attempted ++ (key_name rk ∷ []); last_tried = some rk })
            (prepare_request o.translators entry body rk.channel rk.upstream_model_name) (tick w)
        else (continues p, tick w)

    -- `for rk in binding`: `breaks` leaves this loop, as the end of the keys does.
    unfoldable pub try_keys : List RoutedKey → Progress → World S W → Next R × World S W
    unfolding try_key
    try_keys [] p w = (continues p, w)
    try_keys (rk ∷ rks) p w =
        let (n, w') = try_key rk p w in
        elim n [
          | continues p' ↦ try_keys rks p' w'
          | breaks p' ↦ (breaks p', w')
          | returns r ↦ (returns r, w')
        ]

    -- `for binding in candidates`
    unfoldable pub try_bindings : List (List RoutedKey) → Progress → World S W → Next R × World S W
    unfolding try_keys
    try_bindings [] p w = (continues p, w)
    try_bindings (b ∷ bs) p w =
        let (n, w') = try_keys b p w in
        elim n [
          | continues p' ↦ try_bindings bs p' w'
          | breaks p' ↦ try_bindings bs p' w'
          | returns r ↦ (returns r, w')
        ]

    -- The failure after the last key.
    unfoldable pub exhausted_failure : Progress → Result R
    unfolding no_attempt from_last_attempt
    exhausted_failure p = elim p.last_tried [
      | none ↦ failure (no_attempt (all_keys_exhausted ctx.canonical_name [] p.last_error))
      | some rk ↦ failure (
          from_last_attempt rk p.attempted p.last_upstream_status
            (all_keys_exhausted ctx.canonical_name p.attempted p.last_error))
    ]

    unfoldable pub run_candidates : List (List RoutedKey) → World S W → Result R × World S W
    unfolding try_bindings exhausted_failure refunded
    run_candidates candidates w =
        let (n, w') = try_bindings (take max_binding_attempts candidates) nothing_tried w in
        elim n [
          | continues p ↦ (exhausted_failure p, refunded session w')
          | breaks p ↦ (exhausted_failure p, refunded session w')
          | returns r ↦ (r, w')
        ]
