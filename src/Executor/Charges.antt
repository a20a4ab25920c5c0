-- ===== src/Executor/Charges.antt =====
-- crates/core/src/executor.rs: what a request that is not streamed costs, from the contract of the
-- repository.
use chenni_x_api.Prelude.Tests.{Bool-cases}
use chenni_x_api.Prelude.Int.{ℤ, InI64}
use chenni_x_api.Prelude.{
  ◌≡◌, refl, sym, ap, subst, ◌∙◌, ◌⊎◌, inl, inr, ℕ, String, Option, some, List,
}
use chenni_x_api.Common.Types.{ChannelProvider, same_provider, ChannelModelPricing}
use chenni_x_api.Common.Results.{ProxyResult, ok, err}
use chenni_x_api.Billing.{BillingSession, pre_charge, settle, refund}
use chenni_x_api.Billing.Contract.{Contract}
use chenni_x_api.Billing.Effects.{refund_undoes_pre_charge, settle_effect}
use chenni_x_api.Cache.{CacheData}
use chenni_x_api.Cache.Laws.{in_use}
use chenni_x_api.Router.{RoutedKey}
use chenni_x_api.Json.{Json}
use chenni_x_api.Executor.{EntryFormat, provider, ExecutionContext, ExecutionResult}
use chenni_x_api.Executor.Costs.{actual_cost}
use chenni_x_api.Executor.Bodies.{extract_usage_from_response}
use chenni_x_api.Executor.Attempts.{Outside, World, Result, success, failure, panics}
use chenni_x_api.Executor.Ledger.{AnsweredBy, run_candidates-Ends}
use chenni_x_api.Executor.Run.{Setting, or_null, price_of}
use chenni_x_api.Executor.Serve.{Answer, book, printed, translated, final_body, respond, execute}
use chenni_x_api.Executor.Range.{Saturates, estimate_cost-InI64, actual_cost-InI64}
use chenni_x_api.Executor.Start.{PriceIn, select_and_run-EndsIn}
use chenni_x_api.Executor.Money.{RefundsCommit, refund-ok, price_of-PriceIn, price_of-ledger}
use chenni_x_api.Executor.Deliveries.{Delivered, Charged, Held, ExecuteCharged, settle-Charged}

module _ {S W : Type 0} (g : Setting) (ctx : ExecutionContext)
    (saturates : Saturates g.floats) where
  module _ (o : Outside S W Answer) (c : Contract o.repo) (commits : RefundsCommit o.repo) where
    open c use {IsValid, shift}

    -- What the loops do from the pre-charged balances.
    abbrev pub ExecuteMoves :
        Option CacheData
        → EntryFormat
        → Json
        → BillingSession
        → S
        → Result ExecutionResult
        → S
        → Type 0
    ExecuteMoves k entry body session s (success r) s' =
        Delivered g ctx saturates o c commits k entry body (success r) r.quota_cost
        × InI64 r.quota_cost
        × (s' ≡ (settle o.repo session r.quota_cost s).1)
    ExecuteMoves k entry body session s (failure f) s' =
        (s' ≡ (refund o.repo session s).1)
        ⊎ ((cost : ℤ) × Delivered g ctx saturates o c commits k entry body (failure f) cost
            × InI64 cost
            × (s' ≡ (settle o.repo session cost s).1))
    ExecuteMoves k entry body session s panics s' = ⊥

    ExecuteMoves-Charged :
        (k : Option CacheData) (entry : EntryFormat) (body : Json) (estimate : ℤ) (s s₁ s' : S)
        (session : BillingSession) (r : Result ExecutionResult)
        → IsValid s
        → InI64 estimate
        → pre_charge o.repo ctx.user_id ctx.token_id estimate s ≡ (ok session, s₁)
        → ExecuteMoves k entry body session s₁ r s'
        → ExecuteCharged g ctx saturates o c commits k entry body s r s'
    ExecuteMoves-Charged k entry body estimate s s₁ s' session (success r) v le paid (d, lc, m) = (
      d,
      subst
          (λ t.
            Charged g ctx saturates o c commits r.quota_cost s t
            ⊎ Held g ctx saturates o c commits r.quota_cost s t)
          (sym m)
          (settle-Charged g ctx saturates o c commits estimate r.quota_cost s s₁ session
            (settle o.repo session r.quota_cost s₁) v le lc paid refl
            (settle_effect o.repo c session r.quota_cost s₁)),
    )
    ExecuteMoves-Charged k entry body estimate s s₁ s' session (failure f) v le paid (inl m) = inl (
        refund_undoes_pre_charge o.repo c ctx.user_id ctx.token_id estimate s s₁ s' session v paid
          (refund-ok o.repo session s₁ commits ∙ ap (λ x. (ok tt, x)) (sym m)))
    ExecuteMoves-Charged k entry body estimate s s₁ s' session (failure f) v le paid
          (inr (cost, d, lc, m)) =
        inr (
          cost,
          d,
          subst
              (λ t.
                Charged g ctx saturates o c commits cost s t
                ⊎ Held g ctx saturates o c commits cost s t)
              (sym m)
              (settle-Charged g ctx saturates o c commits estimate cost s s₁ session
                (settle o.repo session cost s₁) v le lc paid refl
                (settle_effect o.repo c session cost s₁)),
        )
    ExecuteMoves-Charged k entry body estimate s s₁ s' session panics v le paid m = absurd m

    -- A result reports the cost, and no index is out of range.
    abbrev pub Reports : ℤ → Result ExecutionResult → Type 0
    Reports cost (success r) = r.quota_cost ≡ cost
    Reports cost (failure f) = Unit {0}
    Reports cost panics = ⊥

    printed-Reports :
        (rk : RoutedKey) (attempted : List String) (code : ℕ) (cost : ℤ) (text : String ⊎ String)
        → Reports cost (printed g o ctx rk attempted code cost text)
    unfolding printed
    printed-Reports rk attempted code cost (inl e) = tt
    printed-Reports rk attempted code cost (inr body) = refl

    translated-Reports :
        (rk : RoutedKey) (attempted : List String) (code : ℕ) (cost : ℤ) (t : ProxyResult Json)
        → Reports cost (translated g o ctx rk attempted code cost t)
    unfolding translated
    translated-Reports rk attempted code cost (err e) = tt
    translated-Reports rk attempted code cost (ok t) =
        printed-Reports rk attempted code cost (g.to_vec t)

    final_body-Reports :
        (entry : EntryFormat) (rk : RoutedKey) (p : ChannelProvider) (attempted : List String)
        (a : Answer) (value : Json) (cost : ℤ)
        → Reports cost (final_body g o ctx entry rk p attempted a value cost)
    unfolding final_body
    final_body-Reports entry rk p attempted (code, bytes) value cost =
        elim (Bool-cases (same_provider p (provider entry))) [
          | inl h ↦ rw h refl
          | inr h ↦ rw h (translated-Reports rk attempted code cost _)
        ]

    Delivered-Moves :
        (k : Option CacheData) (entry : EntryFormat) (body : Json) (session : BillingSession)
        (s : S) (cost : ℤ) (r : Result ExecutionResult)
        → Delivered g ctx saturates o c commits k entry body r cost
        → Reports cost r
        → InI64 cost
        → ExecuteMoves k entry body session s r (settle o.repo session cost s).1
    Delivered-Moves k entry body session s cost (success r) d e lc =
        subst
          (λ x.
            Delivered g ctx saturates o c commits k entry body (success r) x
            × InI64 x
            × ((settle o.repo session cost s).1 ≡ (settle o.repo session x s).1))
          (sym e) (d, lc, refl)
    Delivered-Moves k entry body session s cost (failure f) d e lc = inr (cost, d, lc, refl)
    Delivered-Moves k entry body session s cost panics d e lc = absurd e

    respond-Moves :
        (d : CacheData) (entry : EntryFormat) (body : Json) (first : RoutedKey)
        (pricing : Option ChannelModelPricing) (session : BillingSession) (rk : RoutedKey)
        (p : ChannelProvider) (attempted : List String) (a : Answer) (w : World S W)
        → PriceIn g o ctx d first pricing
        → w.cache.cached ≡ some d
        → AnsweredBy o entry body rk p a
        → ExecuteMoves
            (some d)
            entry
            body
            session
            w.ledger
            (respond g o ctx entry first pricing session rk p attempted a w).0
            (respond g o ctx entry first pricing session rk p attempted a w).1.ledger
    unfolding respond book
    respond-Moves d entry body first pricing session rk p attempted (code, bytes) w known now
          answer =
        let value = or_null (g.from_slice bytes) in
        let usage = extract_usage_from_response value p in
        let priced = price_of g o ctx first pricing rk w in
        let cost = actual_cost g.floats g.evaluate usage priced.0 in
        subst
          (λ s.
            ExecuteMoves (some d) entry body session s
              (final_body g o ctx entry rk p attempted (code, bytes) value cost)
              (settle o.repo session cost priced.1.ledger).1)
          (price_of-ledger g ctx saturates o first pricing rk w)
          (Delivered-Moves (some d) entry body session priced.1.ledger cost _
            (
              rk,
              p,
              attempted,
              (code, bytes),
              d,
              priced.0,
              refl,
              answer,
              price_of-PriceIn g ctx saturates o d first pricing rk w known now,
              refl,
              refl,
            )
            (final_body-Reports entry rk p attempted (code, bytes) value cost)
            (actual_cost-InI64 g.floats g.evaluate saturates usage priced.0))

    -- From a valid store, and where every refund commits and rounding saturates: a success is an
    -- answer of an upstream, and has charged exactly the cost that it reports, or else its settlement
    -- failed and the pre-charge is held. A failure leaves the balances as they were, or an upstream
    -- had answered the request, the failure is that this answer could not be translated or printed,
    -- and its cost is charged in the same way. The cost of an answer is that of the usage in it, at the
    -- price of its key's binding in the snapshot in use, the cached one or else the backend's. No index
    -- is out of range.
    pub execute_charges :
        (entry : EntryFormat) (body : Json) (w : World S W)
        → IsValid w.ledger
        → ExecuteCharged g ctx saturates o c commits
            (in_use g.loader w.cache)
            entry
            body
            w.ledger
            (execute g o ctx entry body w).0
            (execute g o ctx entry body w).1.ledger
    unfolding execute
    execute_charges entry body w v =
        select_and_run-EndsIn g o ctx entry body (respond g o ctx entry) c
          (estimate_cost-InI64 g.floats g.evaluate saturates)
          (λ k. ExecuteCharged g ctx saturates o c commits k entry body) (λ k s f. inl refl)
          (λ estimate s first pricing session candidates d w' valid b priced now paid.
            ExecuteMoves-Charged (some d) entry body estimate s w'.ledger _ session _ valid b paid (
              run_candidates-Ends o ctx entry body session (some d)
                (respond g o ctx entry first pricing session)
                (ExecuteMoves (some d) entry body session)
                (λ rk p att a x k.
                  respond-Moves d entry body first pricing session rk p att a x priced k)
                (λ x f. inl refl) candidates w' now))
          w v
