-- ===== src/Executor/Costs.antt =====
-- crates/core/src/executor.rs, `estimate_cost` and `actual_cost`, and crates/core/src/billing_expr.rs.
-- The arithmetic of `f64` and the expression language of the crate evalexpr are interfaces.
use chenni_x_api.Prelude.Tests.{if◌then◌else◌}
use chenni_x_api.Prelude.Int.{ℤ, pos}
use chenni_x_api.Prelude.{ℕ, ◌+◌, ◌%◌, String, Option, none, some}
use chenni_x_api.Common.Text.{is_blank}
use chenni_x_api.Common.Types.{
  F64, Usage, ChannelModelPricing, is_configured, token, per_call, expression, quota_per_yuan,
}
use chenni_x_api.Common.Errors.{config, billing_expr}
use chenni_x_api.Common.Results.{ProxyResult, ok, err}
use chenni_x_api.Executor.Bodies.{u64_mod}

-- `of_u64` and `of_i64` are `as f64`, `to_u64` is `as u64`, `round_i64` is `.round() as i64`.
pub record Floats : Type 0 where
  pub of_u64 : ℕ → F64
  pub of_i64 : ℤ → F64
  pub to_u64 : F64 → ℕ
  pub add : F64 → F64 → F64
  pub mul : F64 → F64 → F64
  pub div : F64 → F64 → F64
  pub round_i64 : F64 → ℤ

-- What evalexpr answers: an error's text, a number, or a value of another kind, printed.
pub data Value : Type 0 where
  failed other : String → Value
  float : F64 → Value
  int : ℤ → Value

unfoldable pub or_zero : Option String → String
or_zero none = "0"
or_zero (some expr) = expr

-- `evaluate expr p c total`.
module _ (f : Floats) (evaluate : String → F64 → F64 → F64 → Value) where
  open f use {of_u64, of_i64, to_u64, add, mul, div, round_i64}

  unfoldable pub eval : String → ℕ → ℕ → ProxyResult F64
  eval expr p c = elim (evaluate expr (of_u64 p) (of_u64 c) (of_u64 ((p + c) % u64_mod))) [
    | failed e ↦ err (config (billing_expr e))
    | float x ↦ ok x
    | int i ↦ ok (of_i64 i)
    | other shown ↦ err (config (billing_expr shown))
  ]

  unfoldable pub validate : String → ProxyResult (Unit {0})
  unfolding eval
  validate expr =
      if is_blank expr
      then err (config (billing_expr "billing expr is empty"))
      else elim (eval expr 100 50) [
        | err e ↦ err e
        | ok _ ↦ elim (eval expr 0 0) [
          | err e ↦ err e
          | ok _ ↦ elim (eval expr 10000 5000) [ err e ↦ err e | ok _ ↦ ok tt ]
        ]
      ]

  abbrev pub scale : F64
  scale = of_u64 quota_per_yuan

  abbrev pub thousand : F64
  thousand = of_u64 1000

  unfoldable pub expression_cost : Option String → ℕ → ℕ → ℤ
  unfolding eval or_zero
  expression_cost expr p c = elim (eval (or_zero expr) p c) [
    | ok v ↦ round_i64 (mul v scale)
    | err _ ↦ pos 0
  ]

  unfoldable pub actual_cost : Usage → Option ChannelModelPricing → ℤ
  unfolding expression_cost
  actual_cost usage none = pos 0
  actual_cost usage (some p) =
      if is_configured p
      then elim p.billing_type [
        | token ↦ round_i64 (
            mul
              (add (mul (div (of_u64 usage.prompt_tokens) thousand) p.input_price)
                (mul (div (of_u64 usage.completion_tokens) thousand) p.output_price))
              scale)
        | per_call ↦ round_i64 (mul p.call_price scale)
        | expression ↦ expression_cost p.billing_expr usage.prompt_tokens usage.completion_tokens
      ]
      else pos 0

  assumed_completion : Option ℕ → ℕ
  assumed_completion none = 500
  assumed_completion (some n) = n

  unfoldable pub estimate_cost : Option ChannelModelPricing → Option ℕ → ℤ
  unfolding expression_cost assumed_completion
  estimate_cost none max_tokens = pos 0
  estimate_cost (some p) max_tokens =
      let completion = of_u64 (assumed_completion max_tokens) in
      if is_configured p
      then elim p.billing_type [
        | token ↦ round_i64 (
            mul
              (add (mul (div (of_u64 500) thousand) p.input_price)
                (mul (div completion thousand) p.output_price))
              scale)
        | per_call ↦ round_i64 (mul p.call_price scale)
        | expression ↦ expression_cost p.billing_expr (to_u64 (of_u64 500)) (to_u64 completion)
      ]
      else pos 0
