-- ===== src/Executor/Money.antt =====
-- crates/core/src/executor.rs: what an execution costs, from the contract of the repository.
use chenni_x_api.Prelude.Tests.{◌==◌, Bool-cases}
use text.Mathlib.TextEquality.{eq_iff}
use chenni_x_api.Prelude.Int.{ℤ, pos, eqb_ℤ}
use chenni_x_api.Prelude.{
  ◌≡◌, refl, sym, ap, subst, ◌∙◌, inl, inr, str_eq, ◌&&◌, Bool, Option, some, arith,
}
use chenni_x_api.Common.Types.{RowId, ChannelModelPricing}
use chenni_x_api.Common.Results.{ok}
use chenni_x_api.Billing.{BillingRepo, BillingSession, pre_charge, refund}
use chenni_x_api.Billing.Contract.{Contract}
use chenni_x_api.Billing.Effects.{PreCharged, pre_charge_effect, refund_undoes_pre_charge}
use chenni_x_api.Cache.{CacheData}
use chenni_x_api.Cache.Store.{load, get_channel_model_pricing}
use chenni_x_api.Router.{RoutedKey}
use chenni_x_api.Json.{Json}
use chenni_x_api.Executor.{EntryFormat, ExecutionContext}
use chenni_x_api.Executor.Attempts.{Outside, World, Result, success, failure, panics}
use chenni_x_api.Executor.Ledger.{run_candidates-Ends}
use chenni_x_api.Executor.Run.{Setting, StreamBootstrap, bootstrap, execute_stream, price_of}
use chenni_x_api.Executor.Range.{Saturates, estimate_cost-InI64}
use chenni_x_api.Executor.Start.{PriceIn, select_and_run-EndsIn}

-- Every refund commits.
abbrev pub RefundsCommit : {S : Type 0} → BillingRepo S → Type 0
RefundsCommit {S} repo =
    (u t : RowId) (a : ℤ) (b : Bool) (s : S) → (repo.refund_atomic u t a b s).0 ≡ ok tt

pub refund-ok :
    {S : Type 0} (repo : BillingRepo S) (session : BillingSession) (s : S)
    → RefundsCommit repo
    → refund repo session s ≡ (ok tt, (refund repo session s).1)
unfolding refund
refund-ok repo session s commits = elim (Bool-cases (eqb_ℤ session.pre_charged (pos 0))) [
  | inl h ↦ rw h
  | inr h ↦ rw h (
      ap
        (λ r. (
          r,
          (repo.refund_atomic session.user_id session.token_id session.pre_charged
              session.token_unlimited s).1,
        ))
        (commits session.user_id session.token_id session.pre_charged session.token_unlimited s))
]

module _ {S W : Type 0} (g : Setting) (ctx : ExecutionContext)
    (saturates : Saturates g.floats) where
  pub price_of-PriceIn :
      {A : Type 0} (o : Outside S W A) (d : CacheData) (first : RoutedKey)
      (pricing : Option ChannelModelPricing) (rk : RoutedKey) (w : World S W)
      → PriceIn g o ctx d first pricing
      → w.cache.cached ≡ some d
      → PriceIn g o ctx d rk (price_of g o ctx first pricing rk w).0
  unfolding price_of get_channel_model_pricing load
  price_of-PriceIn o d first pricing rk w h now =
      elim (Bool-cases (
        rk.channel.id == first.channel.id
        && str_eq rk.upstream_model_name first.upstream_model_name)) [
          | inl e ↦
              let same : (rk.channel.id ≡ first.channel.id)
                  × (rk.upstream_model_name ≡ first.upstream_model_name) =
                (
                  ground (arith, e),
                  ground (arith, e, eq_iff rk.upstream_model_name first.upstream_model_name),
                ) in
              rw e (rw (same.0, same.1) h)
          | inr e ↦ rw e (rw now refl)
        ]

  pub price_of-ledger :
      {A : Type 0} (o : Outside S W A) (first : RoutedKey) (pricing : Option ChannelModelPricing)
      (rk : RoutedKey) (w : World S W)
      → (price_of g o ctx first pricing rk w).1.ledger ≡ w.ledger
  unfolding price_of
  price_of-ledger o first pricing rk w = ground arith

  module _ {A : Type 0} (o : Outside S W A) (c : Contract o.repo)
      (commits : RefundsCommit o.repo) where
    -- What a stream's bootstrap from `s` ends in.
    abbrev pub StreamCharged : S → Result (StreamBootstrap A) → S → Type 0
    StreamCharged s (success boot) s' =
        (estimate : ℤ) × PreCharged o.repo c ctx.user_id ctx.token_id estimate s
          (ok boot.session, s')
    StreamCharged s (failure f) s' = s' ≡ s
    StreamCharged s panics s' = ⊥

    abbrev pub StreamMoves : BillingSession → S → Result (StreamBootstrap A) → S → Type 0
    StreamMoves session s (success boot) s' = (boot.session ≡ session) × (s' ≡ s)
    StreamMoves session s (failure f) s' = s' ≡ (refund o.repo session s).1
    StreamMoves session s panics s' = ⊥

    StreamMoves-Charged :
        (estimate : ℤ) (s s₁ s' : S) (session : BillingSession) (r : Result (StreamBootstrap A))
        → c.IsValid s
        → pre_charge o.repo ctx.user_id ctx.token_id estimate s ≡ (ok session, s₁)
        → StreamMoves session s₁ r s'
        → StreamCharged s r s'
    StreamMoves-Charged estimate s s₁ s' session (success boot) v paid m = (
      estimate,
      subst (λ x. PreCharged o.repo c ctx.user_id ctx.token_id estimate s (ok x, s')) (sym m.0)
          (subst (λ x. PreCharged o.repo c ctx.user_id ctx.token_id estimate s (ok session, x))
            (sym m.1)
            (subst (PreCharged o.repo c ctx.user_id ctx.token_id estimate s) paid
              (pre_charge_effect o.repo c ctx.user_id ctx.token_id estimate s v))),
    )
    StreamMoves-Charged estimate s s₁ s' session (failure f) v paid m =
        refund_undoes_pre_charge o.repo c ctx.user_id ctx.token_id estimate s s₁ s' session v paid
          (refund-ok o.repo session s₁ commits ∙ ap (λ x. (ok tt, x)) (sym m))
    StreamMoves-Charged estimate s s₁ s' session panics v paid m = absurd m

    -- From a valid store, and where every refund commits and rounding saturates: a stream that
    -- starts leaves the balances with exactly the pre-charge of the session that it hands over,
    -- unsettled; every failure, at whatever point, leaves them as they were; and no index is out of
    -- range.
    pub execute_stream_charges :
        (entry : EntryFormat) (body : Json) (w : World S W)
        → c.IsValid w.ledger
        → StreamCharged w.ledger
            (execute_stream g o ctx entry body w).0
            (execute_stream g o ctx entry body w).1.ledger
    unfolding execute_stream bootstrap
    execute_stream_charges entry body w v =
        select_and_run-EndsIn g o ctx entry body (bootstrap g o ctx entry) c
          (estimate_cost-InI64 g.floats g.evaluate saturates) (λ k. StreamCharged) (λ k s f. refl)
          (λ estimate s first pricing session candidates d w' valid b priced now paid.
            StreamMoves-Charged estimate s w'.ledger _ session _ valid paid (
              run_candidates-Ends o ctx entry body session (some d)
                (bootstrap g o ctx entry first pricing session) (StreamMoves session)
                (λ rk p att a x k answer. (refl, price_of-ledger o first pricing rk x))
                (λ x f. refl) candidates w' now))
          w v
