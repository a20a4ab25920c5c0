-- ===== src/Common/Types.antt =====
-- crates/common/src/types.rs: the data that the crates share. Row ids are only compared, so they
-- are natural numbers; quotas, priorities and weights are signed; a float is its 64-bit pattern.
use chenni_x_api.Prelude.Tests.{leb, ltb, if◌then◌else◌}
use chenni_x_api.Prelude.Int.{ℤ, pos, negsuc, ◌-ℤ◌, leb_ℤ, eqb_ℤ}
use chenni_x_api.Prelude.Lists.{any}
use chenni_x_api.Prelude.{
  ℕ, String, str_eq, Bool, true, false, not, ◌&&◌, ◌||◌, Option, none, some, List,
}
use chenni_x_api.Common.Text.{trim, is_blank}

-- `i64` row ids.
abbrev pub RowId : Type 0
RowId = ℕ

-- An `f64`, by its IEEE 754 bit pattern.
abbrev pub F64 : Type 0
F64 = ℕ

-- `x > 0.0`: the sign is clear, and the value is neither zero nor a NaN.
unfoldable pub is_positive : F64 → Bool
is_positive x = ltb 0 x && leb x 0x7FF0_0000_0000_0000

abbrev pub quota_per_yuan : ℕ
quota_per_yuan = 1_000_000

pub data ChannelProvider : Type 0 where
  openai_compatible anthropic : ChannelProvider

-- `==` on providers.
abbrev pub same_provider : ChannelProvider → ChannelProvider → Bool
same_provider openai_compatible openai_compatible = true
same_provider anthropic anthropic = true
same_provider _ _ = false

pub data CostTier : Type 0 where
  free paid : CostTier

pub data KeyStatus : Type 0 where
  active cooldown disabled quota_exhausted : KeyStatus

abbrev pub status_is_available : KeyStatus → Bool
status_is_available active = true
status_is_available _ = false

abbrev pub status_is_cooldown : KeyStatus → Bool
status_is_cooldown cooldown = true
status_is_cooldown _ = false

abbrev pub status_is_active : KeyStatus → Bool
status_is_active active = true
status_is_active _ = false

pub record Usage : Type 0 where
  pub prompt_tokens : ℕ
  pub completion_tokens : ℕ
  pub total_tokens : ℕ

pub record ChannelConfig : Type 0 where
  pub id : RowId
  pub name : String
  pub provider : ChannelProvider
  pub base_url : String
  pub group : String

pub record KeyConfig : Type 0 where
  pub id : RowId
  pub channel_id : RowId
  pub api_key : String
  pub label : Option String
  pub cost_tier : CostTier
  pub key_priority : ℤ
  pub price_per_1k_tokens : Option F64
  pub free_quota : Option ℕ
  pub used_quota : ℕ
  pub quota_reset_period : Option String
  pub status : KeyStatus

pub data BillingType : Type 0 where
  token per_call expression : BillingType

unfoldable pub billing_type_from_i32 : ℤ → BillingType
billing_type_from_i32 v =
    if eqb_ℤ v (pos 1) then per_call else if eqb_ℤ v (pos 2) then expression else token

unfoldable pub billing_type_as_i32 : BillingType → ℤ
billing_type_as_i32 token = pos 0
billing_type_as_i32 per_call = pos 1
billing_type_as_i32 expression = pos 2

pub record ChannelModelPricing : Type 0 where
  pub billing_type : BillingType
  pub input_price : F64
  pub output_price : F64
  pub call_price : F64
  pub billing_expr : Option String

unfoldable pub is_configured : ChannelModelPricing → Bool
unfolding is_positive
is_configured p = elim p.billing_type [
  | token ↦ is_positive p.input_price || is_positive p.output_price
  | per_call ↦ is_positive p.call_price
  | expression ↦ elim p.billing_expr [ none ↦ false | some s ↦ not (is_blank (trim s)) ]
]

pub record UserConfig : Type 0 where
  pub id : RowId
  pub username : String
  pub role : ℤ
  pub status : ℤ
  pub quota : ℤ
  pub used_quota : ℤ
  pub group : String

abbrev pub user_is_enabled : UserConfig → Bool
user_is_enabled u = eqb_ℤ u.status (pos 1)

abbrev pub is_admin : UserConfig → Bool
is_admin u = leb_ℤ (pos 10) u.role

abbrev pub remaining_quota : UserConfig → ℤ
remaining_quota u = u.quota -ℤ u.used_quota

pub record TokenConfig : Type 0 where
  pub id : RowId
  pub user_id : RowId
  pub key : String
  pub name : Option String
  pub remain_quota : ℤ
  pub used_quota : ℤ
  pub unlimited_quota : Bool
  pub expired_time : ℤ
  pub model_limits_enabled : Bool
  pub model_limits : Option (List String)
  pub status : ℤ
  pub allow_ips : Option (List String)

abbrev pub token_is_enabled : TokenConfig → Bool
token_is_enabled t = eqb_ℤ t.status (pos 1)

abbrev pub is_expired : TokenConfig → ℤ → Bool
is_expired t now = not (eqb_ℤ t.expired_time (negsuc 0)) && leb_ℤ t.expired_time now

unfoldable pub allows_model : TokenConfig → String → Bool
allows_model t model =
    if not t.model_limits_enabled
    then true
    else elim t.model_limits [ none ↦ true | some models ↦ any (λ m. str_eq m model) models ]

unfoldable pub allows_ip : TokenConfig → String → Bool
allows_ip t client_ip = elim t.allow_ips [
  | none ↦ true
  | some ips ↦ any (λ ip. str_eq ip client_ip) ips
]

pub record AuthContext : Type 0 where
  pub user : UserConfig
  pub token : TokenConfig
  pub client_ip : Option String
