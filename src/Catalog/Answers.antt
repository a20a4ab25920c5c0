-- ===== src/Catalog/Answers.antt =====
-- crates/server/src/pipeline.rs: what the loaded snapshot answers, against the tables.
use chenni_x_api.Prelude.Lists.{any}
use chenni_x_api.Prelude.Maps.{
  Map, get, insert, Distinct, get-insert, nat_eq, pair_eq, triple_eq, string_eq,
}
use chenni_x_api.Prelude.Tests.{◌==◌, Bool-cases, if◌then◌else◌}
use chenni_x_api.Prelude.{
  ◌≡◌, refl, ◌∙◌, String, none, some, Bool, true, false, Option, List, [], ◌∷◌, map, inl, inr,
}
use chenni_x_api.Common.Types.{RowId, ChannelConfig, KeyConfig}
use chenni_x_api.Cache.{
  Binding, RoutingStrategy, routing_strategy_from_db_str, QuotaState, CacheData, bindings_for,
  keys_for, pricing_for, routing_strategy_for, small_model_quota_for, priority,
}
use chenni_x_api.Catalog.{
  ModelRow, DiscoveredRow, Catalog, list_channels, get_keys_for_channel, has_model,
  get_binding_pricing,
}
use chenni_x_api.Common.Results.{ok}
use chenni_x_api.Catalog.Entries.{or_else, last_wins, only_one, or_none}
use chenni_x_api.Catalog.Prices.{is_listed, any-bindings, get-load_pricing, price_listed}
use chenni_x_api.Catalog.Queries.{
  AnswersBindings, binding_list-AnswersBindings, AnswersQuota, discovered_rows, quotas,
  quotas-AnswersQuota,
}
use chenni_x_api.Catalog.Loader.{
  loader, load_keys, binding_list, load_model, load_models, quota_state_of, load_quotas, snapshot,
  load_aliases,
}

get-load_keys :
    (t : Catalog) (k : RowId) (chs : List ChannelConfig) (keys : Map RowId (List KeyConfig))
    → get k (load_keys t chs keys) ≡ (
        if any (λ (c : ChannelConfig). c.id == k) chs
        then some (get_keys_for_channel t k)
        else get k keys)
unfolding load_keys
get-load_keys t k [] keys = refl
get-load_keys t k (ch ∷ chs) keys =
    get-load_keys t k chs (insert ch.id (get_keys_for_channel t ch.id) keys)
    ∙ rw (get-insert k ch.id (get_keys_for_channel t ch.id) keys) (
        last_wins (get_keys_for_channel t) k ch.id (any (λ (c : ChannelConfig). c.id == k) chs)
          (get k keys))

get-load_bindings :
    (t : Catalog) (k : RowId) (ms : List ModelRow) (d : CacheData)
    → get k (load_models t ms d).bindings
      ≡ (if any (λ (m : ModelRow). m.id == k) ms then some (binding_list t k) else get k d.bindings)
unfolding load_models load_model
get-load_bindings t k [] d = refl
get-load_bindings t k (m ∷ ms) d =
    get-load_bindings t k ms (load_model t m d)
    ∙ rw (get-insert k m.id (binding_list t m.id) d.bindings) (
        last_wins (binding_list t) k m.id (any (λ (n : ModelRow). n.id == k) ms) (get k d.bindings))

-- The tables as maps, for the columns that the schema keeps distinct.
unfoldable pub strategies : List ModelRow → Map RowId RoutingStrategy
unfolding routing_strategy_from_db_str
strategies ms = map (λ (m : ModelRow). (m.id, routing_strategy_from_db_str m.routing_strategy)) ms

abbrev pub names : List ModelRow → Map String (RowId × String)
names ms = map (λ (m : ModelRow). (m.canonical_name, (m.id, m.canonical_name))) ms

get-load_strategies :
    (t : Catalog) (k : RowId) (ms : List ModelRow) (d : CacheData)
    → Distinct (strategies ms)
    → get k (load_models t ms d).routing_strategy
      ≡ or_else (get k (strategies ms)) (get k d.routing_strategy)
unfolding load_models load_model strategies get
get-load_strategies t k [] d h = refl
get-load_strategies t k (m ∷ ms) d h =
    get-load_strategies t k ms (load_model t m d) h.1
    ∙ rw (get-insert k m.id (routing_strategy_from_db_str m.routing_strategy) d.routing_strategy) (
        only_one k m.id (routing_strategy_from_db_str m.routing_strategy) (strategies ms)
          (get k d.routing_strategy) h.0)

get-load_quotas :
    (k : RowId × String) (dms : List DiscoveredRow) (m : Map (RowId × String) QuotaState)
    → Distinct (quotas dms)
    → get k (load_quotas dms m) ≡ or_else (get k (quotas dms)) (get k m)
unfolding load_quotas quotas get
get-load_quotas k [] m h = refl
get-load_quotas k (dm ∷ dms) m h =
    let j : RowId × String = (dm.channel_id, dm.raw_model_name) in
    get-load_quotas k dms (insert j (quota_state_of dm) m) h.1
    ∙ rw (get-insert k j (quota_state_of dm) m)
        (only_one k j (quota_state_of dm) (quotas dms) (get k m) h.0)

get-load_aliases :
    (k : String) (ms : List ModelRow) (m : Map String (RowId × String))
    → Distinct (names ms)
    → get k (load_aliases ms m) ≡ or_else (get k (names ms)) (get k m)
unfolding load_aliases get
get-load_aliases k [] m h = refl
get-load_aliases k (r ∷ rs) m h =
    get-load_aliases k rs (insert r.canonical_name (r.id, r.canonical_name) m) h.1
    ∙ rw (get-insert k r.canonical_name (r.id, r.canonical_name) m)
        (only_one k r.canonical_name (r.id, r.canonical_name) (names rs) (get k m) h.0)

load_models-keys :
    (t : Catalog) (ms : List ModelRow) (d : CacheData) → (load_models t ms d).keys ≡ d.keys
unfolding load_models load_model
load_models-keys t [] d = refl
load_models-keys t (m ∷ ms) d = load_models-keys t ms (load_model t m d)

load_models-quotas :
    (t : Catalog) (ms : List ModelRow) (d : CacheData)
    → (load_models t ms d).small_model_quota ≡ d.small_model_quota
unfolding load_models load_model
load_models-quotas t [] d = refl
load_models-quotas t (m ∷ ms) d = load_models-quotas t ms (load_model t m d)

-- An answer where the model has a row, and none otherwise.
abbrev pub IfListed : Bool → Option (List Binding) → (List Binding → Type 0) → Type 0
IfListed true found P = (bs : List Binding) × (found ≡ some bs) × P bs
IfListed false found P = found ≡ none

listed-bindings :
    (t : Catalog) (m : RowId) (listed : Bool) (found : Option (List Binding))
    → found ≡ (if listed then some (binding_list t m) else none)
    → IfListed listed found (AnswersBindings t m)
listed-bindings t m true found e = (binding_list t m, e, binding_list-AnswersBindings t m)
listed-bindings t m false found e = e

-- The answers of a snapshot, by the queries on the tables.
pub record Agrees (t : Catalog) (d : CacheData) (m c : RowId) (u : String) : Type 0 where
  pub keys : keys_for d c ≡ (
      if any (λ (ch : ChannelConfig). ch.id == c) (list_channels t)
      then some (get_keys_for_channel t c)
      else none)
  pub bindings : IfListed (has_model t m) (bindings_for d m) (AnswersBindings t m)
  pub pricing : pricing_for d m c u ≡ (if has_model t m then get_binding_pricing t m c u else none)
  pub strategy :
      routing_strategy_for d m ≡ elim (get m (strategies t.models)) [ none ↦ priority | some s ↦ s ]
  pub quota : AnswersQuota (get (c, u) (discovered_rows t.discovered)) (small_model_quota_for d c u)

empty : Catalog → CacheData
unfolding list_channels load_keys load_quotas
empty t = record {
  channels = list_channels t;
  keys = load_keys t (list_channels t) [];
  bindings = [];
  channel_model_pricing = [];
  routing_strategy = [];
  small_model_quota = load_quotas t.discovered [];
}

snapshot-pricing :
    (t : Catalog) (m c : RowId) (u : String)
    → pricing_for (snapshot t) m c u ≡ (if has_model t m then get_binding_pricing t m c u else none)
unfolding snapshot pricing_for empty get
snapshot-pricing t m c u =
    get-load_pricing t m c u t.models (empty t) ∙ elim (Bool-cases (has_model t m)) [
      | inl e ↦ rw (any-bindings t m c u e, e) (price_listed t m c u (is_listed t m c u) refl)
      | inr e ↦ rw e
    ]

snapshot-Agrees :
    (t : Catalog) (m c : RowId) (u : String)
    → Distinct (strategies t.models)
    → Distinct (quotas t.discovered)
    → Agrees t (snapshot t) m c u
unfolding snapshot keys_for bindings_for routing_strategy_for small_model_quota_for get empty
snapshot-Agrees t m c u ids pairs = record {
  keys = rw (load_models-keys t t.models (empty t)) (get-load_keys t c (list_channels t) []);
  bindings = listed-bindings t m (has_model t m) _ (get-load_bindings t m t.models (empty t));
  pricing = snapshot-pricing t m c u;
  strategy = rw (
    routing_strategy_for,
    get-load_strategies t m t.models (empty t) ids,
    or_none (get m (strategies t.models)),
  );
  quota =
      rw
        (
          load_models-quotas t t.models (empty t),
          get-load_quotas (c, u) t.discovered [] pairs,
          or_none (get (c, u) (quotas t.discovered)),
        )
        (quotas-AnswersQuota (c, u) t.discovered);
}

-- Where no two models have one id or one name, and no two discovered models one channel and name,
-- and SQLite refuses no query, both queries of the loader succeed. The snapshot answers every
-- look-up as a query on the tables would: the keys of a channel by priority, the bindings of a model
-- by priority and then by channel, each with the fields of its row, a binding's pricing, a model's
-- strategy, and the quota of a discovered model with the fields of its row, the unit, the window and
-- the status by the trimmed texts of their columns. The mapping gives every canonical name its model.
pub loader-Agrees :
    (t : Catalog) (m c : RowId) (u : String)
    → Distinct (strategies t.models)
    → Distinct (quotas t.discovered)
    → Distinct (names t.models)
    → ((loader none t).load_all ≡ ok (snapshot t))
      × Agrees t (snapshot t) m c u
      × ((loader none t).load_alias_mapping ≡ ok (load_aliases t.models []))
      × (get u (load_aliases t.models []) ≡ get u (names t.models))
unfolding loader get
loader-Agrees t m c u ids pairs distinct = (
  refl,
  snapshot-Agrees t m c u ids pairs,
  refl,
  get-load_aliases u t.models [] distinct ∙ or_none (get u (names t.models)),
)
