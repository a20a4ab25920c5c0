-- ===== src/Executor/Limit.antt =====
-- crates/core/src/executor.rs, `execute`: no key outside the first three groups is tried.
use chenni_x_api.Prelude.Lists.{take, take-take}
use chenni_x_api.Prelude.Int.{ℤ}
use chenni_x_api.Prelude.Picks.{Picks, none_left}
use chenni_x_api.Prelude.Tests.{Bool-cases}
use chenni_x_api.Prelude.{◌≡◌, refl, ap, sym, ℕ, ◌⊎◌, inl, inr, String, Option, List, [], ◌∷◌}
use chenni_x_api.Common.Types.{ChannelProvider, same_provider, ChannelModelPricing}
use chenni_x_api.Common.Results.{ProxyResult, ok, err}
use chenni_x_api.Billing.{BillingSession}
use chenni_x_api.Cache.Store.{get_channel_model_pricing}
use chenni_x_api.Router.{RoutedKey}
use chenni_x_api.Json.{Json}
use chenni_x_api.Executor.{
  EntryFormat, provider, ExecutionContext, ExecutionResult, no_attempt, from_last_attempt,
}
use chenni_x_api.Executor.Attempts.{
  Outside, World, nothing_tried, Result, failure, continues, breaks, returns,
}
use chenni_x_api.Executor.Tries.{tried, names_of, run_candidates-Picks}
use chenni_x_api.Executor.Loop.{try_bindings, exhausted_failure, refunded, run_candidates}
use chenni_x_api.Executor.Run.{
  Setting, select_keys, run_paid, charge_priced, charge_and_run, with_candidates, select_and_run,
}
use chenni_x_api.Executor.Serve.{Answer, printed, translated, final_body, respond, execute}

module _ {S W : Type 0} (g : Setting) (o : Outside S W Answer) (ctx : ExecutionContext) where
  printed-tried :
      (rk : RoutedKey) (attempted : List String) (code : ℕ) (cost : ℤ) (text : String ⊎ String)
      → tried (printed g o ctx rk attempted code cost text) ≡ attempted
  unfolding printed from_last_attempt
  printed-tried rk attempted code cost (inl e) = refl
  printed-tried rk attempted code cost (inr body) = refl

  translated-tried :
      (rk : RoutedKey) (attempted : List String) (code : ℕ) (cost : ℤ) (t : ProxyResult Json)
      → tried (translated g o ctx rk attempted code cost t) ≡ attempted
  unfolding translated from_last_attempt
  translated-tried rk attempted code cost (err e) = refl
  translated-tried rk attempted code cost (ok t) = printed-tried rk attempted code cost (g.to_vec t)

  respond-tried :
      (entry : EntryFormat) (first : RoutedKey) (pricing : Option ChannelModelPricing)
      (session : BillingSession) (rk : RoutedKey) (p : ChannelProvider) (attempted : List String)
      (a : Answer) (w : World S W)
      → tried (respond g o ctx entry first pricing session rk p attempted a w).0 ≡ attempted
  unfolding respond final_body
  respond-tried entry first pricing session rk p attempted (code, bytes) w =
      elim (Bool-cases (same_provider p (provider entry))) [
        | inl h ↦ rw h refl
        | inr h ↦ rw h (translated-tried rk attempted code _ _)
      ]

  module _ (entry : EntryFormat) (body : Json) where
    -- The outcome tried some of the keys of the groups, in their order.
    abbrev pub TriedIn : List (List RoutedKey) → Result ExecutionResult × World S W → Type 0
    TriedIn groups (r, w) = Picks (tried r) (names_of (take 3 groups))

    run_paid-TriedIn :
        (first : RoutedKey) (candidates : List (List RoutedKey))
        (pricing : Option ChannelModelPricing) (paid : ProxyResult BillingSession) (w : World S W)
        → TriedIn candidates
            (run_paid g o ctx entry body (respond g o ctx entry) first candidates pricing paid w)
    unfolding run_paid no_attempt
    run_paid-TriedIn first candidates pricing (err e) w = none_left _
    run_paid-TriedIn first candidates pricing (ok session) w =
        run_candidates-Picks o ctx entry body session (respond g o ctx entry first pricing session)
          (respond-tried entry first pricing session) candidates w

    charge_priced-TriedIn :
        (first : RoutedKey) (candidates : List (List RoutedKey))
        (r : ProxyResult (Option ChannelModelPricing)) (w : World S W)
        → TriedIn candidates
            (charge_priced g o ctx entry body (respond g o ctx entry) first candidates r w)
    unfolding charge_priced no_attempt
    charge_priced-TriedIn first candidates (err e) w = none_left _
    charge_priced-TriedIn first candidates (ok pricing) w =
        run_paid-TriedIn first candidates pricing _ _

    with_candidates-TriedIn :
        (candidates : List (List RoutedKey)) (w : World S W)
        → TriedIn candidates
            (with_candidates g o ctx entry body (respond g o ctx entry) candidates w)
    unfolding with_candidates charge_and_run no_attempt
    with_candidates-TriedIn [] w = none_left _
    with_candidates-TriedIn ([] ∷ others) w = none_left _
    with_candidates-TriedIn ((first ∷ keys) ∷ others) w =
        let priced =
          get_channel_model_pricing o.lower ctx.model_id first.channel.id first.upstream_model_name
            g.loader w.cache in
        charge_priced-TriedIn first ((first ∷ keys) ∷ others) priced.0
          (record w { cache = priced.1 })

    -- The groups that a selection answers; none if it fails.
    abbrev pub groups_or_none :
        ProxyResult (List (List RoutedKey)) × World S W → List (List RoutedKey)
    groups_or_none (ok groups, _) = groups
    groups_or_none (err _, _) = []

    run_candidates-first :
        (session : BillingSession)
        (on_answer : RoutedKey
          → ChannelProvider
          → List String
          → Answer
          → World S W
          → Result ExecutionResult × World S W)
        (candidates : List (List RoutedKey)) (w : World S W)
        → run_candidates o ctx entry body session on_answer candidates w
          ≡ run_candidates o ctx entry body session on_answer (take 3 candidates) w
    unfolding run_candidates
    run_candidates-first session on_answer candidates w =
        ap
          (λ groups.
            let x = try_bindings o ctx entry body session on_answer groups nothing_tried w in
            elim x.0 [
              | continues p ↦ (
                exhausted_failure o ctx entry body session on_answer p,
                refunded o ctx session x.1,
              )
              | breaks p ↦ (
                exhausted_failure o ctx entry body session on_answer p,
                refunded o ctx session x.1,
              )
              | returns r ↦ (r, x.1)
            ])
          (sym (take-take 3 candidates))

    run_paid-first :
        (first : RoutedKey) (candidates : List (List RoutedKey))
        (pricing : Option ChannelModelPricing) (paid : ProxyResult BillingSession) (w : World S W)
        → run_paid g o ctx entry body (respond g o ctx entry) first candidates pricing paid w
          ≡ run_paid g o ctx entry body
              (respond g o ctx entry)
              first
              (take 3 candidates)
              pricing
              paid
              w
    unfolding run_paid
    run_paid-first first candidates pricing (err e) w = refl
    run_paid-first first candidates pricing (ok session) w =
        run_candidates-first session (respond g o ctx entry first pricing session) candidates w

    charge_priced-first :
        (first : RoutedKey) (candidates : List (List RoutedKey))
        (r : ProxyResult (Option ChannelModelPricing)) (w : World S W)
        → charge_priced g o ctx entry body (respond g o ctx entry) first candidates r w
          ≡ charge_priced g o ctx entry body (respond g o ctx entry) first (take 3 candidates) r w
    unfolding charge_priced
    charge_priced-first first candidates (err e) w = refl
    charge_priced-first first candidates (ok pricing) w =
        run_paid-first first candidates pricing _ _

    with_candidates-first :
        (candidates : List (List RoutedKey)) (w : World S W)
        → with_candidates g o ctx entry body (respond g o ctx entry) candidates w
          ≡ with_candidates g o ctx entry body (respond g o ctx entry) (take 3 candidates) w
    unfolding with_candidates charge_and_run
    with_candidates-first [] w = refl
    with_candidates-first ([] ∷ others) w = refl
    with_candidates-first ((first ∷ keys) ∷ others) w =
        let priced =
          get_channel_model_pricing o.lower ctx.model_id first.channel.id first.upstream_model_name
            g.loader w.cache in
        charge_priced-first first ((first ∷ keys) ∷ others) priced.0 (record w { cache = priced.1 })

    -- What an execution comes to if the selection answers at most its first three groups.
    abbrev pub of_first_three :
        ProxyResult (List (List RoutedKey)) × World S W → Result ExecutionResult × World S W
    of_first_three (err e, w) = (failure (no_attempt e), w)
    of_first_three (ok groups, w) =
        with_candidates g o ctx entry body (respond g o ctx entry) (take 3 groups) w

    -- `execute` reports as attempted only keys of the first three groups that the selection answers,
    -- in the order of the selection and none more often than it was selected, and none without a
    -- selection. A later group changes nothing of an execution: its outcome and the world that it
    -- leaves are those of the first three groups alone.
    pub execute-Picks :
        (w : World S W)
        → Picks
            (tried (execute g o ctx entry body w).0)
            (names_of (take 3 (groups_or_none (select_keys g o ctx w))))
          × (execute g o ctx entry body w ≡ of_first_three (select_keys g o ctx w))
    unfolding execute select_and_run no_attempt
    execute-Picks w = (selected (select_keys g o ctx w), alone (select_keys g o ctx w))
      where
        selected :
            (x : ProxyResult (List (List RoutedKey)) × World S W)
            → TriedIn (groups_or_none x) (elim x.0 [
              | err e ↦ (failure (no_attempt e), x.1)
              | ok candidates ↦
                  with_candidates g o ctx entry body (respond g o ctx entry) candidates x.1
            ])
        selected (err e, w') = none_left _
        selected (ok candidates, w') = with_candidates-TriedIn candidates w'

        alone :
            (x : ProxyResult (List (List RoutedKey)) × World S W)
            → (elim x.0 [
              | err e ↦ (failure (no_attempt e), x.1)
              | ok candidates ↦
                  with_candidates g o ctx entry body (respond g o ctx entry) candidates x.1
            ])
              ≡ of_first_three x
        alone (err e, w') = refl
        alone (ok candidates, w') = with_candidates-first candidates w'
