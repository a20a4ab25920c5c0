-- ===== src/Executor/Range.antt =====
-- crates/core/src/executor.rs: every cost is a 64-bit integer.
use chenni_x_api.Prelude.Tests.{if◌then◌else◌}
use chenni_x_api.Prelude.Int.{ℤ, pos, InI64}
use chenni_x_api.Prelude.{ℕ, String, Bool, true, false, Option, none, some, arith}
use chenni_x_api.Common.Types.{
  F64, Usage, ChannelModelPricing, is_configured, BillingType, token, per_call, expression,
}
use chenni_x_api.Common.Results.{ProxyResult, ok, err}
use chenni_x_api.Executor.Costs.{
  Floats, Value, or_zero, eval, scale, expression_cost, estimate_cost, actual_cost,
}

-- `.round() as i64` saturates, so it always gives an `i64`.
abbrev pub Saturates : Floats → Type 0
Saturates f = (x : F64) → InI64 (f.round_i64 x)

zero-InI64 : InI64 (pos 0)
zero-InI64 = record { above = omega arith; below = omega arith }

configured : (b : Bool) (x : ℤ) → InI64 x → InI64 (if b then x else pos 0)
configured true x h = h
configured false x h = zero-InI64

of_type :
    (t : BillingType) (x y z : ℤ)
    → InI64 x
    → InI64 y
    → InI64 z
    → InI64 (elim t [ token ↦ x | per_call ↦ y | expression ↦ z ])
of_type token x y z hx hy hz = hx
of_type per_call x y z hx hy hz = hy
of_type expression x y z hx hy hz = hz

module _ (f : Floats) (evaluate : String → F64 → F64 → F64 → Value) (saturates : Saturates f) where
  expression_cost-InI64 :
      (expr : Option String) (p c : ℕ) → InI64 (expression_cost f evaluate expr p c)
  unfolding expression_cost
  expression_cost-InI64 expr p c = rounded (eval f evaluate (or_zero expr) p c)
    where
      rounded :
          (r : ProxyResult F64)
          → InI64 (elim r [ ok v ↦ f.round_i64 (f.mul v (scale f evaluate)) | err _ ↦ pos 0 ])
      rounded (ok v) = saturates _
      rounded (err _) = zero-InI64

  pub estimate_cost-InI64 :
      (p : Option ChannelModelPricing) (n : Option ℕ) → InI64 (estimate_cost f evaluate p n)
  unfolding estimate_cost
  estimate_cost-InI64 none n = zero-InI64
  estimate_cost-InI64 (some p) n = configured (is_configured p) _ (
      of_type p.billing_type _ _ _ (saturates _) (saturates _)
        (expression_cost-InI64 p.billing_expr _ _))

  pub actual_cost-InI64 :
      (usage : Usage) (p : Option ChannelModelPricing) → InI64 (actual_cost f evaluate usage p)
  unfolding actual_cost
  actual_cost-InI64 usage none = zero-InI64
  actual_cost-InI64 usage (some p) = configured (is_configured p) _ (
      of_type p.billing_type _ _ _ (saturates _) (saturates _)
        (expression_cost-InI64 p.billing_expr _ _))
