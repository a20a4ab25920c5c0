-- ===== src/Billing/Contract.antt =====
-- crates/core/src/billing.rs, `trait BillingRepo`: what the manager relies on, as laws over an
-- abstract store. `shift u t a b` is the store in which user `u`, and token `t` unless it is
-- unlimited, have spent `a` more.
use chenni_x_api.Prelude.Int.{ℤ, pos, ◌+ℤ◌, ◌-ℤ◌}
use chenni_x_api.Prelude.{◌≡◌, Bool, Option}
use chenni_x_api.Common.Types.{RowId}
use chenni_x_api.Common.Results.{ProxyResult, ok, err}
use chenni_x_api.Billing.{BillingRepo}

-- A transaction from `s` commits into `t` and then `P` held, or it leaves `s` as it was.
abbrev pub Atomic : {S A : Type 0} → S → S → Type 0 → ProxyResult A × S → Type 0
Atomic s t P (ok _, u) = (u ≡ t) × P
Atomic s t P (err _, u) = u ≡ s

-- A query that answers `a` and writes nothing.
abbrev pub Reads : {S A : Type 0} → S → A → ProxyResult A × S → Type 0
Reads s a (ok b, u) = (b ≡ a) × (u ≡ s)
Reads s a (err _, u) = u ≡ s

pub record Contract {S : Type 0} (repo : BillingRepo S) : Type 1 where
  pub IsValid : S → Type 0
  pub shift : RowId → RowId → ℤ → Bool → S → S
  pub set_status : RowId → ℤ → S → S
  pub remain : RowId → S → Option ℤ
  pub unlimited : RowId → S → Option Bool
  pub Covers : RowId → RowId → ℤ → Bool → S → Type 0
  pub shift-zero : (u t : RowId) (b : Bool) (s : S) → shift u t (pos 0) b s ≡ s
  pub shift-shift :
      (u t : RowId) (a c : ℤ) (b : Bool) (s : S)
      → shift u t a b (shift u t c b s) ≡ shift u t (c +ℤ a) b s
  pub shift-IsValid :
      (u t : RowId) (a : ℤ) (b : Bool) (s : S) → IsValid s → IsValid (shift u t a b s)
  pub unlimited_law : (t : RowId) (s : S) → Reads s (unlimited t s) (repo.get_token_unlimited t s)
  pub remain_law : (t : RowId) (s : S) → Reads s (remain t s) (repo.get_token_remain_quota t s)
  pub status_law :
      (t : RowId) (v : ℤ) (s : S)
      → Atomic s (set_status t v s) (Unit {0}) (repo.update_token_status t v s)
  pub pre_charge_law :
      (u t : RowId) (a : ℤ) (b : Bool) (s : S)
      → IsValid s
      → Atomic s (shift u t a b s) (Covers u t a b s) (repo.pre_charge_atomic u t a b s)
  pub settle_law :
      (u t : RowId) (a : ℤ) (b : Bool) (s : S)
      → Atomic s (shift u t a b s) (Unit {0}) (repo.settle_atomic u t a b s)
  pub refund_law :
      (u t : RowId) (a : ℤ) (b : Bool) (s : S)
      → Atomic s (shift u t (pos 0 -ℤ a) b s) (Unit {0}) (repo.refund_atomic u t a b s)
