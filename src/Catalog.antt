-- ===== src/Catalog.antt =====
-- crates/storage/src/channels.rs, keys.rs and models.rs: the queries from which the snapshot is
-- loaded, on the tables of crates/storage/src/schema.rs. A table lists its rows by ascending ids, and
-- `model_channels` as it is stored.
pub mod Loader
pub mod Keys
pub mod Order
pub mod Models
pub mod Repricing
pub mod Ranks
pub mod Numbering
pub mod Reorder
pub mod Entries
pub mod Prices
pub mod Queries
pub mod Answers
use mathlib.Core.Option
use chenni_x_api.Prelude.Int.{ℤ, pos, negsuc}
use chenni_x_api.Prelude.Lists.{any, keep_if, find}
use chenni_x_api.Prelude.Sorting.{sort_by}
use chenni_x_api.Prelude.Tests.{◌==◌, if◌then◌else◌}
use chenni_x_api.Prelude.{
  ℕ, ◌-◌, ◌^◌, String, str_eq, Bool, true, false, ◌&&◌, Option, none, some, List, [], ◌∷◌, map,
}
use chenni_x_api.Common.Types.{
  RowId, F64, ChannelProvider, openai_compatible, anthropic, CostTier, free, paid, KeyStatus,
  active, cooldown, disabled, quota_exhausted, ChannelConfig, KeyConfig, ChannelModelPricing,
  billing_type_from_i32,
}

pub record ChannelRow : Type 0 where
  pub id : RowId
  pub name : String
  pub provider : String
  pub base_url : String
  pub group : String

pub record KeyRow : Type 0 where
  pub id : RowId
  pub channel_id : RowId
  pub api_key : String
  pub label : Option String
  pub cost_tier : String
  pub key_priority : ℤ
  pub price_per_1k_tokens : Option F64
  pub free_quota : Option ℤ
  pub used_quota : ℤ
  pub quota_reset_period : Option String
  pub status : String

pub record ModelRow : Type 0 where
  pub id : RowId
  pub canonical_name : String
  pub routing_strategy : String

-- `model_channels`.
pub record BindingRow : Type 0 where
  pub model_id : RowId
  pub channel_id : RowId
  pub upstream_model_name : String
  pub weight : ℤ
  pub billing_type : ℤ
  pub input_price : F64
  pub output_price : F64
  pub call_price : F64
  pub billing_expr : Option String
  pub priority : ℤ

-- `discovered_models`, with the columns of the quota.
pub record DiscoveredRow : Type 0 where
  pub channel_id : RowId
  pub raw_model_name : String
  pub quota_limit : Option ℤ
  pub quota_unit : Option String
  pub quota_window : Option String
  pub used_quota : ℤ
  pub last_reset_at : Option String
  pub quota_status : String

pub record Catalog : Type 0 where
  pub channels : List ChannelRow
  pub keys : List KeyRow
  pub models : List ModelRow
  pub bindings : List BindingRow
  pub discovered : List DiscoveredRow

abbrev pub provider_from : String → ChannelProvider
provider_from s =
    if str_eq s "openai-compatible"
    then openai_compatible
    else if str_eq s "anthropic"
    then anthropic
    else openai_compatible

unfoldable pub map_channel_row : ChannelRow → ChannelConfig
map_channel_row r = record {
  id = r.id;
  name = r.name;
  provider = provider_from r.provider;
  base_url = r.base_url;
  group = r.group;
}

-- `q as u64`.
abbrev pub as_u64 : ℤ → ℕ
as_u64 (pos n) = n
as_u64 (negsuc n) = 2 ^ 64 - 1 - n

abbrev pub key_status_from : String → KeyStatus
key_status_from s =
    if str_eq s "active"
    then active
    else if str_eq s "cooldown"
    then cooldown
    else if str_eq s "disabled"
    then disabled
    else if str_eq s "quota_exhausted"
    then quota_exhausted
    else active

unfoldable pub map_key_row : KeyRow → KeyConfig
map_key_row r = record {
  id = r.id;
  channel_id = r.channel_id;
  api_key = r.api_key;
  label = r.label;
  cost_tier = if str_eq r.cost_tier "free" then free else paid;
  key_priority = r.key_priority;
  price_per_1k_tokens = r.price_per_1k_tokens;
  free_quota = Option.map as_u64 r.free_quota;
  used_quota = as_u64 r.used_quota;
  quota_reset_period = r.quota_reset_period;
  status = key_status_from r.status;
}

unfoldable pub list_channels : Catalog → List ChannelConfig
unfolding map_channel_row
list_channels t = map map_channel_row t.channels

-- `ORDER BY key_priority, id`.
unfoldable pub get_keys_for_channel : Catalog → RowId → List KeyConfig
unfolding map_key_row sort_by
get_keys_for_channel t channel_id = map map_key_row (
    sort_by (λ (r : KeyRow). r.key_priority)
      (keep_if (λ (r : KeyRow). r.channel_id == channel_id) t.keys))

abbrev pub has_model : Catalog → RowId → Bool
has_model t model_id = any (λ (m : ModelRow). m.id == model_id) t.models

-- The rows of the model, which the join leaves out where the model has no row.
-- `ORDER BY priority, channel_id`.
unfoldable pub get_bindings_for_model : Catalog → RowId → List BindingRow
unfolding sort_by
get_bindings_for_model t model_id =
    sort_by (λ (b : BindingRow). b.priority)
      (sort_by (λ (b : BindingRow). pos b.channel_id)
        (keep_if (λ (b : BindingRow). b.model_id == model_id && has_model t model_id) t.bindings))

unfoldable pub pricing_of : BindingRow → ChannelModelPricing
unfolding billing_type_from_i32
pricing_of b = record {
  billing_type = billing_type_from_i32 b.billing_type;
  input_price = b.input_price;
  output_price = b.output_price;
  call_price = b.call_price;
  billing_expr = b.billing_expr;
}

abbrev pub is_bound : RowId → RowId → String → BindingRow → Bool
is_bound model_id channel_id upstream b =
    b.model_id == model_id && (b.channel_id == channel_id && str_eq b.upstream_model_name upstream)

unfoldable pub get_binding_pricing : Catalog → RowId → RowId → String → Option ChannelModelPricing
unfolding pricing_of
get_binding_pricing t model_id channel_id upstream =
    Option.map pricing_of (find (is_bound model_id channel_id upstream) t.bindings)
