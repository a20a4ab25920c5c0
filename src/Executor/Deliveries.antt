-- ===== src/Executor/Deliveries.antt =====
-- crates/core/src/executor.rs: what the delivery of an answer charges.
use chenni_x_api.Prelude.Int.{ℤ, InI64}
use chenni_x_api.Prelude.{◌≡◌, sym, ap, subst, ◌∙◌, ◌⊎◌, inl, inr, String, Bool, Option, some, List}
use chenni_x_api.Common.Types.{ChannelProvider, ChannelModelPricing}
use chenni_x_api.Common.Errors.{ProxyError}
use chenni_x_api.Common.Results.{ProxyResult, ok, err}
use chenni_x_api.Billing.{BillingSession, pre_charge, settle}
use chenni_x_api.Billing.Contract.{Contract}
use chenni_x_api.Billing.Effects.{
  PreCharged, pre_charge_effect, exhaust, Settled, settle_trues_up, moved_in_all,
}
use chenni_x_api.Cache.{CacheData}
use chenni_x_api.Router.{RoutedKey}
use chenni_x_api.Json.{Json}
use chenni_x_api.Executor.{EntryFormat, ExecutionContext, ExecutionResult}
use chenni_x_api.Executor.Costs.{actual_cost}
use chenni_x_api.Executor.Bodies.{extract_usage_from_response}
use chenni_x_api.Executor.Attempts.{Outside, Result, success, failure, panics}
use chenni_x_api.Executor.Ledger.{AnsweredBy}
use chenni_x_api.Executor.Run.{Setting, or_null}
use chenni_x_api.Executor.Serve.{Answer, final_body}
use chenni_x_api.Executor.Range.{Saturates}
use chenni_x_api.Executor.Start.{PriceIn}
use chenni_x_api.Executor.Money.{RefundsCommit}

module _ {S W : Type 0} (g : Setting) (ctx : ExecutionContext)
    (saturates : Saturates g.floats) where
  module _ (o : Outside S W Answer) (c : Contract o.repo) (commits : RefundsCommit o.repo) where
    open c use {IsValid, shift}

    -- An upstream answered, `r` is what becomes of that answer, and the cost is that of the usage
    -- in it, at the price of the binding of its key in the snapshot.
    abbrev pub Delivered :
        Option CacheData → EntryFormat → Json → Result ExecutionResult → ℤ → Type 0
    Delivered k entry body r cost =
        (rk : RoutedKey) × (p : ChannelProvider) × (attempted : List String) × (a : Answer)
        × (d : CacheData) × (price : Option ChannelModelPricing) × (k ≡ some d)
        × AnsweredBy o entry body rk p a
        × PriceIn g o ctx d rk price
        × (cost
            ≡ actual_cost g.floats g.evaluate
                (extract_usage_from_response (or_null (g.from_slice a.1)) p) price)
        × (final_body g o ctx entry rk p attempted a (or_null (g.from_slice a.1)) cost ≡ r)

    -- Exactly the cost has moved; the token is exhausted then, unless that last step failed.
    abbrev pub Charged : ℤ → S → S → Type 0
    Charged cost s s' =
        (unlimited : Bool) × ((s' ≡ shift ctx.user_id ctx.token_id cost unlimited s)
          ⊎ (s'
              ≡ exhaust o.repo c ctx.token_id unlimited
                  (shift ctx.user_id ctx.token_id cost unlimited s)))

    -- The settlement failed, and the pre-charge stays.
    abbrev pub Held : ℤ → S → S → Type 0
    Held cost s s' =
        (estimate : ℤ) × (session : BillingSession) × (e : ProxyError) × PreCharged o.repo c
          ctx.user_id ctx.token_id estimate s (ok session, s')
        × ((settle o.repo session cost s').0.0 ≡ err e)

    -- What an execution from `s` ends in.
    abbrev pub ExecuteCharged :
        Option CacheData → EntryFormat → Json → S → Result ExecutionResult → S → Type 0
    ExecuteCharged k entry body s (success r) s' =
        Delivered k entry body (success r) r.quota_cost
        × (Charged r.quota_cost s s' ⊎ Held r.quota_cost s s')
    ExecuteCharged k entry body s (failure f) s' =
        (s' ≡ s)
        ⊎ ((cost : ℤ) × Delivered k entry body (failure f) cost
            × (Charged cost s s' ⊎ Held cost s s'))
    ExecuteCharged k entry body s panics s' = ⊥

    pub settle-Charged :
        (estimate cost : ℤ) (s s₁ : S) (session : BillingSession)
        (x : (ProxyResult (Unit {0}) × BillingSession) × S)
        → IsValid s
        → InI64 estimate
        → InI64 cost
        → pre_charge o.repo ctx.user_id ctx.token_id estimate s ≡ (ok session, s₁)
        → settle o.repo session cost s₁ ≡ x
        → Settled o.repo c session cost s₁ x
        → Charged cost s x.1 ⊎ Held cost s x.1
    settle-Charged estimate cost s s₁ session ((ok _, session'), s₂) v le lc paid e q = inl (
      session.token_unlimited,
      inr (
          settle_trues_up o.repo c ctx.user_id ctx.token_id estimate cost s s₁ s₂ session session' v
            le lc paid e),
    )
    settle-Charged estimate cost s s₁ session ((err x, session'), s₂) v le lc paid e (_, inl same) =
        inr (
          estimate,
          session,
          x,
          subst (λ t. PreCharged o.repo c ctx.user_id ctx.token_id estimate s (ok session, t))
              (sym same)
              (subst (PreCharged o.repo c ctx.user_id ctx.token_id estimate s) paid
                (pre_charge_effect o.repo c ctx.user_id ctx.token_id estimate s v)),
          subst (λ t. (settle o.repo session cost t).0.0 ≡ err x) (sym same) (ap (λ y. y.0.0) e),
        )
    settle-Charged estimate cost s s₁ session ((err x, session'), s₂) v le lc paid e
          (_, inr (_, nonneg, moved)) =
        let p : PreCharged o.repo c ctx.user_id ctx.token_id estimate s (ok session, s₁) =
          subst (PreCharged o.repo c ctx.user_id ctx.token_id estimate s) paid
            (pre_charge_effect o.repo c ctx.user_id ctx.token_id estimate s v) in
        inl (
          session.token_unlimited,
          inl (
              moved
              ∙ moved_in_all o.repo c ctx.user_id ctx.token_id estimate cost s s₁ session le lc
                  (sym p.1) (sym p.2) p.3 p.6 p.0 nonneg),
        )
