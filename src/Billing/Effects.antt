-- ===== src/Billing/Effects.antt =====
-- crates/core/src/billing.rs: what the manager's operations do to the store, from the contract of
-- its repository alone.
use chenni_x_api.Prelude.Tests.{if◌then◌else◌}
use chenni_x_api.Prelude.Int.{
  ℤ, pos, ◌+ℤ◌, ◌-ℤ◌, ◌≤ℤ◌, +ℤ_parts, -ℤ_parts, leb_ℤ, wrap_i64-eq, InI64, eq_of_parts, -ℤ-InI64,
  add-sub_cancel,
}
use chenni_x_api.Prelude.{◌≡◌, refl, sym, subst, ◌∙◌, ◌⊎◌, Bool, true, false, none, some, arith}
use chenni_x_api.Common.Types.{RowId}
use chenni_x_api.Common.Errors.{config, already_settled}
use chenni_x_api.Common.Results.{ProxyResult, ok, err}
use chenni_x_api.Billing.{
  BillingRepo, BillingSession, pre_charge, settle, refund, settle_delta, adjust, mark_exhausted,
}
use chenni_x_api.Billing.Contract.{Contract, Atomic}

module _ {S : Type 0} (repo : BillingRepo S) (c : Contract repo) where
  open c use {IsValid, shift, set_status, remain, unlimited, Covers}

  -- What a pre-charge from `s` may end in.
  abbrev pub PreCharged : RowId → RowId → ℤ → S → ProxyResult BillingSession × S → Type 0
  PreCharged u t cost s (ok session, s') =
      (pos 0 ≤ℤ cost)
      × (session.user_id ≡ u)
      × (session.token_id ≡ t)
      × (session.pre_charged ≡ cost)
      × (session.settled ≡ false)
      × (unlimited t s ≡ some session.token_unlimited)
      × (s' ≡ shift u t cost session.token_unlimited s)
      × ((cost ≡ pos 0) ⊎ Covers u t cost session.token_unlimited s)
  PreCharged u t cost s (err _, s') = s' ≡ s

  -- From a valid store, a pre-charge that succeeds has moved exactly the estimate, which is not
  -- negative and, unless it is zero, was covered; its session records the amount, is not settled,
  -- and says truly whether the token is unlimited. One that fails leaves the store as it was.
  pub pre_charge_effect :
      (u t : RowId) (cost : ℤ) (s : S)
      → IsValid s
      → PreCharged u t cost s (pre_charge repo u t cost s)
  unfolding pre_charge
  pre_charge_effect u t cost s v = ground (
    arith,
    c.unlimited_law t s,
    c.pre_charge_law u t cost true s v,
    c.pre_charge_law u t cost false s v,
    c.shift-zero u t true s,
    c.shift-zero u t false s,
    eq_of_parts cost (pos 0),
  )

  -- A refund right after a pre-charge from a valid store, both successful, restores the store.
  pub refund_undoes_pre_charge :
      (u t : RowId) (cost : ℤ) (s s₁ s₂ : S) (session : BillingSession)
      → IsValid s
      → pre_charge repo u t cost s ≡ (ok session, s₁)
      → refund repo session s₁ ≡ (ok tt, s₂)
      → s₂ ≡ s
  unfolding refund
  refund_undoes_pre_charge u t cost s s₁ s₂ session v paid back =
      let e : PreCharged u t cost s (ok session, s₁) =
        subst (PreCharged u t cost s) paid (pre_charge_effect u t cost s v) in
      ground (
        arith,
        c.refund_law session.user_id session.token_id session.pre_charged session.token_unlimited
            s₁,
        c.shift-shift u t (pos 0 -ℤ cost) cost session.token_unlimited s,
        eq_of_parts cost (pos 0),
        eq_of_parts (cost +ℤ (pos 0 -ℤ cost)) (pos 0),
        +ℤ_parts cost (pos 0 -ℤ cost),
        -ℤ_parts (pos 0) cost,
        c.shift-zero u t session.token_unlimited s,
      )

  -- The store once a session is settled: a limited token that has nothing left is exhausted.
  abbrev pub exhaust : RowId → Bool → S → S
  exhaust t true s = s
  exhaust t false s = elim (remain t s) [
    | none ↦ s
    | some r ↦ if leb_ℤ r (pos 0) then set_status t (pos 3) s else s
  ]

  -- Every way in which `settle` may end.
  abbrev pub Settled :
      BillingSession → ℤ → S → (ProxyResult (Unit {0}) × BillingSession) × S → Type 0
  Settled session cost s ((ok _, session'), s') =
      let moved =
        shift session.user_id session.token_id (settle_delta session cost) session.token_unlimited
          s in
      (session.settled ≡ false)
      × (pos 0 ≤ℤ cost)
      × (session' ≡ record session { settled = true })
      × (s' ≡ exhaust session.token_id session.token_unlimited moved)
  Settled session cost s ((err e, session'), s') =
      (session' ≡ session)
      × ((s' ≡ s)
          ⊎ ((session.settled ≡ false)
              × (pos 0 ≤ℤ cost)
              × (s'
                  ≡ shift session.user_id session.token_id (settle_delta session cost)
                      session.token_unlimited s)))

  adjust-Atomic :
      (session : BillingSession) (delta : ℤ) (s : S)
      → Atomic s
          (shift session.user_id session.token_id delta session.token_unlimited s)
          (Unit {0})
          (adjust repo session delta s)
  unfolding adjust
  adjust-Atomic session delta s = ground (
    arith,
    c.settle_law session.user_id session.token_id delta session.token_unlimited s,
    c.shift-zero session.user_id session.token_id session.token_unlimited s,
    eq_of_parts delta (pos 0),
  )

  mark_exhausted-Atomic :
      (session : BillingSession) (s : S)
      → Atomic s
          (exhaust session.token_id session.token_unlimited s)
          (Unit {0})
          (mark_exhausted repo session s)
  unfolding mark_exhausted
  mark_exhausted-Atomic session s =
      ground (arith, c.remain_law session.token_id s, c.status_law session.token_id (pos 3) s)

  -- `settle` moves exactly the difference, then exhausts an empty token and marks the session; when
  -- it fails, the session is unmarked and the money is either not moved or moved as on success.
  pub settle_effect :
      (session : BillingSession) (cost : ℤ) (s : S)
      → Settled session cost s (settle repo session cost s)
  unfolding settle
  settle_effect session cost s = ground (
    arith,
    adjust-Atomic session (settle_delta session cost) s,
    mark_exhausted-Atomic session s,
    mark_exhausted-Atomic session (
        shift session.user_id session.token_id (settle_delta session cost) session.token_unlimited
          s),
    mark_exhausted-Atomic session (adjust repo session (settle_delta session cost) s).1,
  )

  -- The estimate and the settled difference add up to the cost.
  pub moved_in_all :
      (u t : RowId) (estimate cost : ℤ) (s s₁ : S) (x : BillingSession)
      → InI64 estimate
      → InI64 cost
      → u ≡ x.user_id
      → t ≡ x.token_id
      → x.pre_charged ≡ estimate
      → s₁ ≡ shift u t estimate x.token_unlimited s
      → pos 0 ≤ℤ estimate
      → pos 0 ≤ℤ cost
      → shift x.user_id x.token_id (settle_delta x cost) x.token_unlimited s₁
        ≡ shift u t cost x.token_unlimited s
  moved_in_all u t estimate cost s s₁ x le lc eu et ep es a b = cc (
    c.shift-shift u t (cost -ℤ estimate) estimate x.token_unlimited s,
    wrap_i64-eq (cost -ℤ estimate) (-ℤ-InI64 cost estimate lc le b a),
    add-sub_cancel cost estimate,
  )

  -- A pre-charge from a valid store and then a settlement, both successful and of 64-bit amounts,
  -- have in the end moved exactly the actual cost, whatever the estimate was; a limited token that
  -- has nothing left is exhausted then.
  pub settle_trues_up :
      (u t : RowId) (estimate cost : ℤ) (s s₁ s₂ : S) (session session' : BillingSession)
      → IsValid s
      → InI64 estimate
      → InI64 cost
      → pre_charge repo u t estimate s ≡ (ok session, s₁)
      → settle repo session cost s₁ ≡ ((ok tt, session'), s₂)
      → s₂ ≡ exhaust t session.token_unlimited (shift u t cost session.token_unlimited s)
  settle_trues_up u t estimate cost s s₁ s₂ session session' v le lc paid done =
      let p : PreCharged u t estimate s (ok session, s₁) =
        subst (PreCharged u t estimate s) paid (pre_charge_effect u t estimate s v) in
      let q : Settled session cost s₁ ((ok tt, session'), s₂) =
        subst (Settled session cost s₁) done (settle_effect session cost s₁) in
      let moved =
        moved_in_all u t estimate cost s s₁ session le lc (sym p.1) (sym p.2) p.3 p.6 p.0 q.1 in
      q.3 ∙ rw moved (rw p.2)

  -- A session is settled once: after a success every further settlement is refused and moves nothing.
  settle_once :
      (session session' : BillingSession) (cost again : ℤ) (s s' t : S)
      → settle repo session cost s ≡ ((ok tt, session'), s')
      → settle repo session' again t ≡ ((err (config already_settled), session'), t)
  settle_once session session' cost again s s' t done =
      let q : Settled session cost s ((ok tt, session'), s') =
        subst (Settled session cost s) done (settle_effect session cost s) in
      settle_again session' q.2
    where
      settle_again :
          (x : BillingSession)
          → x ≡ record session { settled = true }
          → settle repo x again t ≡ ((err (config already_settled), x), t)
      settle_again x e = rw e (unfold settle in refl)
