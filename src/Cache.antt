-- ===== src/Cache.antt =====
-- crates/core/src/cache.rs: the configuration snapshot, its look-ups, and the cache that holds it.
pub mod Store
pub mod Laws
use chenni_x_api.Prelude.Tests.{◌==◌, if◌then◌else◌}
use chenni_x_api.Prelude.Int.{ℤ}
use chenni_x_api.Prelude.Lists.{find}
use chenni_x_api.Prelude.Maps.{Map, get, nat_eq, pair_eq, triple_eq}
use chenni_x_api.Prelude.{ℕ, String, str_eq, Bool, true, false, Option, none, some, List}
use chenni_x_api.Common.Text.{trim}
use chenni_x_api.Common.Types.{RowId, ChannelConfig, KeyConfig, ChannelModelPricing}

pub data RoutingStrategy : Type 0 where
  priority load_balance : RoutingStrategy

unfoldable pub routing_strategy_from_db_str : String → RoutingStrategy
routing_strategy_from_db_str s = if str_eq (trim s) "load_balance" then load_balance else priority

pub data QuotaUnit : Type 0 where
  token call : QuotaUnit

unfoldable pub quota_unit_from_db_str : String → Option QuotaUnit
quota_unit_from_db_str s =
    if str_eq (trim s) "token"
    then some token
    else if str_eq (trim s) "call"
    then some call
    else none

pub data QuotaWindow : Type 0 where
  day month total : QuotaWindow

unfoldable pub quota_window_from_db_str : String → Option QuotaWindow
quota_window_from_db_str s =
    if str_eq (trim s) "day"
    then some day
    else if str_eq (trim s) "month"
    then some month
    else if str_eq (trim s) "total"
    then some total
    else none

pub data QuotaStatus : Type 0 where
  available exhausted : QuotaStatus

-- `== QuotaStatus::Available`
abbrev pub quota_is_available : QuotaStatus → Bool
quota_is_available available = true
quota_is_available exhausted = false

unfoldable pub quota_status_from_db_str : String → QuotaStatus
quota_status_from_db_str s = if str_eq (trim s) "exhausted" then exhausted else available

unfoldable pub quota_status_as_db_str : QuotaStatus → String
quota_status_as_db_str available = "available"
quota_status_as_db_str exhausted = "exhausted"

pub record QuotaState : Type 0 where
  pub limit : Option ℤ
  pub unit : Option QuotaUnit
  pub window : Option QuotaWindow
  pub used : ℤ
  pub last_reset_at : Option String
  pub status : QuotaStatus

pub record Binding : Type 0 where
  pub channel_id : RowId
  pub upstream_model_name : String
  pub priority : ℤ
  pub weight : ℤ

pub record CacheData : Type 0 where
  pub channels : List ChannelConfig
  pub keys : Map RowId (List KeyConfig)
  pub bindings : Map RowId (List Binding)
  pub channel_model_pricing : Map (RowId × RowId × String) ChannelModelPricing
  pub routing_strategy : Map RowId RoutingStrategy
  pub small_model_quota : Map (RowId × String) QuotaState

unfoldable pub bindings_for : CacheData → RowId → Option (List Binding)
bindings_for d model_id = get model_id d.bindings

unfoldable pub channel : CacheData → RowId → Option ChannelConfig
channel d channel_id = find (λ c. c.id == channel_id) d.channels

unfoldable pub keys_for : CacheData → RowId → Option (List KeyConfig)
keys_for d channel_id = get channel_id d.keys

unfoldable pub pricing_for : CacheData → RowId → RowId → String → Option ChannelModelPricing
pricing_for d model_id channel_id upstream =
    get (model_id, channel_id, upstream) d.channel_model_pricing

unfoldable pub routing_strategy_for : CacheData → RowId → RoutingStrategy
routing_strategy_for d model_id = elim (get model_id d.routing_strategy) [
  | none ↦ priority
  | some strategy ↦ strategy
]

unfoldable pub small_model_quota_for : CacheData → RowId → String → Option QuotaState
small_model_quota_for d channel_id upstream = get (channel_id, upstream) d.small_model_quota
