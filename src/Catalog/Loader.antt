-- ===== src/Catalog/Loader.antt =====
-- crates/server/src/pipeline.rs: `CacheLoader` for `StorageAdapter`.
use chenni_x_api.Prelude.Sorting.{sort_by}
use chenni_x_api.Prelude.Maps.{Map, insert, nat_eq, pair_eq, triple_eq, string_eq}
use chenni_x_api.Prelude.{String, Option, none, some, List, [], ◌∷◌, map}
use chenni_x_api.Common.Types.{RowId, ChannelConfig, KeyConfig, ChannelModelPricing}
use chenni_x_api.Common.Errors.{storage}
use chenni_x_api.Common.Results.{ok, err}
use chenni_x_api.Cache.{
  routing_strategy_from_db_str, quota_unit_from_db_str, quota_window_from_db_str,
  quota_status_from_db_str, QuotaState, Binding, CacheData,
}
use chenni_x_api.Cache.Store.{CacheLoader}
use chenni_x_api.Catalog.{
  ModelRow, BindingRow, DiscoveredRow, Catalog, list_channels, get_keys_for_channel,
  get_bindings_for_model, get_binding_pricing,
}

-- `Option::and_then`.
abbrev pub and_then : {A B : Type 0} → Option A → (A → Option B) → Option B
and_then none f = none
and_then (some a) f = f a

unfoldable pub load_keys :
    Catalog → List ChannelConfig → Map RowId (List KeyConfig) → Map RowId (List KeyConfig)
unfolding insert get_keys_for_channel
load_keys t [] keys = keys
load_keys t (ch ∷ chs) keys = load_keys t chs (insert ch.id (get_keys_for_channel t ch.id) keys)

abbrev pub binding_of : BindingRow → Binding
binding_of b = record {
  channel_id = b.channel_id;
  upstream_model_name = b.upstream_model_name;
  priority = b.priority;
  weight = b.weight;
}

unfoldable pub binding_list : Catalog → RowId → List Binding
unfolding sort_by get_bindings_for_model
binding_list t model_id =
    sort_by (λ (b : Binding). b.priority) (map binding_of (get_bindings_for_model t model_id))

abbrev pub Prices : Type 0
Prices = Map (RowId × RowId × String) ChannelModelPricing

unfoldable pub insert_price : RowId × RowId × String → Option ChannelModelPricing → Prices → Prices
unfolding insert
insert_price k none prices = prices
insert_price k (some pricing) prices = insert k pricing prices

unfoldable pub load_prices : Catalog → RowId → List BindingRow → Prices → Prices
unfolding get_binding_pricing insert_price
load_prices t model_id [] prices = prices
load_prices t model_id (b ∷ bs) prices = load_prices t model_id bs (
    insert_price (model_id, b.channel_id, b.upstream_model_name)
      (get_binding_pricing t model_id b.channel_id b.upstream_model_name) prices)

unfoldable pub load_model : Catalog → ModelRow → CacheData → CacheData
unfolding insert binding_list load_prices get_bindings_for_model routing_strategy_from_db_str
load_model t m d = record d {
  routing_strategy =
      insert m.id (routing_strategy_from_db_str m.routing_strategy) d.routing_strategy;
  bindings = insert m.id (binding_list t m.id) d.bindings;
  channel_model_pricing =
      load_prices t m.id (get_bindings_for_model t m.id) d.channel_model_pricing;
}

unfoldable pub load_models : Catalog → List ModelRow → CacheData → CacheData
unfolding load_model
load_models t [] d = d
load_models t (m ∷ ms) d = load_models t ms (load_model t m d)

unfoldable pub quota_state_of : DiscoveredRow → QuotaState
unfolding quota_unit_from_db_str quota_window_from_db_str quota_status_from_db_str
quota_state_of dm = record {
  limit = dm.quota_limit;
  unit = and_then dm.quota_unit quota_unit_from_db_str;
  window = and_then dm.quota_window quota_window_from_db_str;
  used = dm.used_quota;
  last_reset_at = dm.last_reset_at;
  status = quota_status_from_db_str dm.quota_status;
}

unfoldable pub load_quotas :
    List DiscoveredRow → Map (RowId × String) QuotaState → Map (RowId × String) QuotaState
unfolding insert quota_state_of
load_quotas [] quotas = quotas
load_quotas (dm ∷ dms) quotas =
    load_quotas dms (insert (dm.channel_id, dm.raw_model_name) (quota_state_of dm) quotas)

unfoldable pub snapshot : Catalog → CacheData
unfolding list_channels load_keys load_models load_quotas
snapshot t = load_models t t.models record {
  channels = list_channels t;
  keys = load_keys t (list_channels t) [];
  bindings = [];
  channel_model_pricing = [];
  routing_strategy = [];
  small_model_quota = load_quotas t.discovered [];
}

unfoldable pub load_aliases :
    List ModelRow → Map String (RowId × String) → Map String (RowId × String)
unfolding insert
load_aliases [] mapping = mapping
load_aliases (m ∷ ms) mapping =
    load_aliases ms (insert m.canonical_name (m.id, m.canonical_name) mapping)

-- The loader on tables that do not change; `refusal` is the error of the first query that SQLite
-- refuses.
unfoldable pub loader : Option String → Catalog → CacheLoader
unfolding snapshot load_aliases
loader (some e) t = record { load_all = err (storage e); load_alias_mapping = err (storage e) }
loader none t = record {
  load_all = ok (snapshot t);
  load_alias_mapping = ok (load_aliases t.models []);
}
