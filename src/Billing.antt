-- ===== src/Billing.antt =====
-- crates/core/src/billing.rs: the two-layer billing manager. The parent declares the session, the
-- repository trait and the manager's three operations; the children state what they promise.
pub mod Contract
pub mod Effects
use chenni_x_api.Prelude.Tests.{if◌then◌else◌}
use chenni_x_api.Prelude.Int.{ℤ, pos, ◌-ℤ◌, ltb_ℤ, leb_ℤ, eqb_ℤ, wrap_i64}
use chenni_x_api.Prelude.{Bool, true, false, not, Option, none, some}
use chenni_x_api.Common.Types.{RowId}
use chenni_x_api.Common.Errors.{
  config, negative_estimate, negative_actual, already_settled, token_not_found,
}
use chenni_x_api.Common.Results.{ProxyResult, ok, err, Action, pure, raise, or_raise, ◌>>=◌, ◌>>◌}

pub record BillingSession : Type 0 where
  pub user_id : RowId
  pub token_id : RowId
  pub pre_charged : ℤ
  pub settled : Bool
  pub token_unlimited : Bool

-- `trait BillingRepo`, on a store `S`.
pub record BillingRepo (S : Type 0) : Type 0 where
  pub get_user_quota : RowId → Action S (Option ℤ)
  pub get_token_remain_quota : RowId → Action S (Option ℤ)
  pub update_token_status : RowId → ℤ → Action S (Unit {0})
  pub get_token_unlimited : RowId → Action S (Option Bool)
  pub pre_charge_atomic : RowId → RowId → ℤ → Bool → Action S (Unit {0})
  pub settle_atomic : RowId → RowId → ℤ → Bool → Action S (Unit {0})
  pub refund_atomic : RowId → RowId → ℤ → Bool → Action S (Unit {0})

-- `actual_cost - session.pre_charged`, an `i64` subtraction.
abbrev pub settle_delta : BillingSession → ℤ → ℤ
settle_delta session actual_cost = wrap_i64 (actual_cost -ℤ session.pre_charged)

module _ {S : Type 0} (repo : BillingRepo S) where
  open repo use {
    get_token_unlimited, pre_charge_atomic, settle_atomic, refund_atomic, get_token_remain_quota,
    update_token_status,
  }

  open_session : RowId → RowId → ℤ → Bool → BillingSession
  open_session user_id token_id amount unlimited = record {
    user_id = user_id;
    token_id = token_id;
    pre_charged = amount;
    settled = false;
    token_unlimited = unlimited;
  }

  unfoldable pub pre_charge : RowId → RowId → ℤ → Action S BillingSession
  unfolding open_session
  pre_charge user_id token_id estimated_cost =
      if ltb_ℤ estimated_cost (pos 0)
      then raise (config (negative_estimate estimated_cost))
      else (do
        found ← get_token_unlimited token_id
        unlimited ← or_raise found (config (token_not_found token_id))
        if eqb_ℤ estimated_cost (pos 0)
            then pure (open_session user_id token_id (pos 0) unlimited)
            else (do
              pre_charge_atomic user_id token_id estimated_cost unlimited
              pure (open_session user_id token_id estimated_cost unlimited)))

  -- The difference is moved only if there is one.
  adjust : BillingSession → ℤ → Action S (Unit {0})
  adjust session delta =
      if eqb_ℤ delta (pos 0)
      then pure tt
      else settle_atomic session.user_id session.token_id delta session.token_unlimited

  -- A limited token with nothing left gets the status 3, "exhausted".
  mark_exhausted : BillingSession → Action S (Unit {0})
  mark_exhausted session = if session.token_unlimited then pure tt else (do
    found ← get_token_remain_quota session.token_id
    elim found [
      | none ↦ pure tt
      | some remaining ↦
          if leb_ℤ remaining (pos 0) then update_token_status session.token_id (pos 3) else pure tt
    ])

  -- `settle` also writes the session: it is marked settled at the very end.
  unfoldable pub settle : BillingSession → ℤ → S → (ProxyResult (Unit {0}) × BillingSession) × S
  unfolding adjust mark_exhausted
  settle session actual_cost s =
      if session.settled
      then ((err (config already_settled), session), s)
      else if ltb_ℤ actual_cost (pos 0)
      then ((err (config (negative_actual actual_cost)), session), s)
      else (let (r, s') =
            (adjust session (settle_delta session actual_cost) >> mark_exhausted session) s in
          elim r [
            | ok _ ↦ ((ok tt, record session { settled = true }), s')
            | err e ↦ ((err e, session), s')
          ])

  unfoldable pub refund : BillingSession → Action S (Unit {0})
  refund session =
      if eqb_ℤ session.pre_charged (pos 0)
      then pure tt
      else refund_atomic session.user_id session.token_id session.pre_charged
          session.token_unlimited
