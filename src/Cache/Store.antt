-- ===== src/Cache/Store.antt =====
-- crates/core/src/cache.rs, `ConfigCache`: the snapshot behind its lock, loaded on first use. The
-- backend, `trait CacheLoader`, is a pair of answers.
use chenni_x_api.Prelude.Tests.{if◌then◌else◌}
use chenni_x_api.Prelude.Int.{ℤ}
use chenni_x_api.Prelude.Lists.{is_empty}
use chenni_x_api.Prelude.Maps.{get, insert, pair_eq}
use chenni_x_api.Prelude.{String, Option, none, some, List, [], ◌∷◌}
use chenni_x_api.Common.Types.{RowId, ChannelConfig, KeyConfig, ChannelModelPricing}
use chenni_x_api.Common.Results.{ProxyResult, ok, err, Action, pure, ◌>>=◌}
use chenni_x_api.Normalizer.{Normalizer, reload}
use chenni_x_api.Cache.{
  CacheData, Binding, QuotaState, QuotaStatus, RoutingStrategy, bindings_for, channel, keys_for,
  pricing_for, routing_strategy_for,
}

pub record CacheLoader : Type 0 where
  pub load_all : ProxyResult CacheData
  pub load_alias_mapping : ProxyResult (List (String × (RowId × String)))

pub record ConfigCache : Type 0 where
  pub cached : Option CacheData
  pub normalizer : Normalizer

unfoldable pub invalidate : ConfigCache → ConfigCache
invalidate c = record c { cached = none }

-- A bound channel with its keys, the upstream model, the priority and the weight.
pub record Candidate : Type 0 where
  pub channel : ChannelConfig
  pub keys : List KeyConfig
  pub upstream_model_name : String
  pub priority : ℤ
  pub weight : ℤ

keys_or_empty : Option (List KeyConfig) → List KeyConfig
keys_or_empty none = []
keys_or_empty (some ks) = ks

unfoldable pub candidates : CacheData → List Binding → List Candidate
unfolding keys_or_empty channel keys_for
candidates d [] = []
candidates d (b ∷ bs) = elim (channel d b.channel_id) [
  | none ↦ candidates d bs
  | some ch ↦
      let keys = keys_or_empty (keys_for d b.channel_id) in
      if is_empty keys
      then candidates d bs
      else record {
        channel = ch;
        keys = keys;
        upstream_model_name = b.upstream_model_name;
        priority = b.priority;
        weight = b.weight;
      }
        ∷ candidates d bs
]

module _ (lower : String → String) where
  -- `ConfigCache::get`
  unfoldable pub load : CacheLoader → Action ConfigCache CacheData
  load loader c = elim c.cached [
    | some d ↦ (ok d, c)
    | none ↦ elim loader.load_all [
      | err e ↦ (err e, c)
      | ok snapshot ↦ elim loader.load_alias_mapping [
        | err e ↦ (err e, c)
        | ok alias_map ↦
            (ok snapshot, record { cached = some snapshot; normalizer = reload lower alias_map })
      ]
    ]
  ]

  unfoldable pub get_for_model : RowId → CacheLoader → Action ConfigCache (List Candidate)
  unfolding load bindings_for candidates
  get_for_model model_id loader = do
    snapshot ← load loader
    pure (elim (bindings_for snapshot model_id) [ none ↦ [] | some bs ↦ candidates snapshot bs ])

  unfoldable pub get_routing_strategy : RowId → CacheLoader → Action ConfigCache RoutingStrategy
  unfolding load
  get_routing_strategy model_id loader = do
    snapshot ← load loader
    pure (routing_strategy_for snapshot model_id)

  unfoldable pub get_channel_model_pricing :
      RowId → RowId → String → CacheLoader → Action ConfigCache (Option ChannelModelPricing)
  unfolding load
  get_channel_model_pricing model_id channel_id upstream loader = do
    snapshot ← load loader
    pure (pricing_for snapshot model_id channel_id upstream)

unfoldable pub get_small_model_quota : RowId → String → ConfigCache → Option QuotaState
get_small_model_quota channel_id upstream c = elim c.cached [
  | none ↦ none
  | some d ↦ get (channel_id, upstream) d.small_model_quota
]

unfoldable pub update_small_model_quota :
    RowId → String → ℤ → QuotaStatus → ConfigCache → ConfigCache
update_small_model_quota channel_id upstream used status c = elim c.cached [
  | none ↦ c
  | some d ↦ elim (get (channel_id, upstream) d.small_model_quota) [
    | none ↦ c
    | some state ↦
        let state' = record state { used = used; status = status } in
        record c {
          cached = some (record d {
            small_model_quota = insert (channel_id, upstream) state' d.small_model_quota;
          });
        }
  ]
]
