-- ===== src/Cache/Laws.antt =====
-- crates/core/src/cache.rs, `ConfigCache`: when the backend is asked, and what an update changes.
use chenni_x_api.Prelude.Maps.{pair_eq}
use chenni_x_api.Prelude.{
  ◌≡◌, refl, ap, subst, ◌⊎◌, inl, inr, String, Option, none, some, List, arith,
}
use chenni_x_api.Common.Types.{RowId, ChannelModelPricing}
use chenni_x_api.Common.Results.{ProxyResult, ok, err}
use chenni_x_api.Normalizer.{reload}
use chenni_x_api.Cache.{CacheData, pricing_for}
use chenni_x_api.Cache.Store.{
  CacheLoader, ConfigCache, load, get_for_model, get_routing_strategy, get_channel_model_pricing,
  invalidate,
}

-- What `get` may end in, from a cache `c` and a backend.
abbrev pub Loaded :
    (String → String) → CacheLoader → ConfigCache → ProxyResult CacheData × ConfigCache → Type 0
Loaded lower loader c (ok d, c') =
    (c'.cached ≡ some d)
    × (((c.cached ≡ some d) × (c' ≡ c))
        ⊎ ((c.cached ≡ none)
            × (loader.load_all ≡ ok d)
            × ((aliases : List (String × (RowId × String))) × (loader.load_alias_mapping
                  ≡ ok aliases)
                × (c'.normalizer ≡ reload lower aliases))))
Loaded lower loader c (err e, c') = (c' ≡ c) × (c.cached ≡ none)

-- `get` answers the cached snapshot as it is; only an empty cache asks the backend, and then stores
-- the snapshot together with the reloaded names, or, if either query fails, stays as it was.
load-Loaded :
    (lower : String → String) (loader : CacheLoader) (c : ConfigCache)
    → Loaded lower loader c (load lower loader c)
unfolding load
load-Loaded lower loader c = ground arith

-- After a successful `get`, every later `get` answers the same snapshot whatever the backend holds
-- by then; once the cache is invalidated, the next `get` answers what a working backend holds.
load_again :
    (lower : String → String) (loader other : CacheLoader) (c c' : ConfigCache)
    (d fresh : CacheData) (aliases : List (String × (RowId × String)))
    → load lower loader c ≡ (ok d, c')
    → other.load_all ≡ ok fresh
    → other.load_alias_mapping ≡ ok aliases
    → (load lower other c' ≡ (ok d, c'))
      × (load lower other (invalidate c')
          ≡ (ok fresh, record { cached = some fresh; normalizer = reload lower aliases }))
unfolding invalidate
load_again lower loader other c c' d fresh aliases h all names =
    let kept : Loaded lower loader c (ok d, c') =
      subst (Loaded lower loader c) h (load-Loaded lower loader c) in
    (stays kept.0, unfold load in rw (all, names) refl)
  where
    stays : c'.cached ≡ some d → load lower other c' ≡ (ok d, c')
    stays e = unfold load in rw e refl

-- The snapshot that a look-up answers from: the cached one, or else the backend's.
abbrev pub in_use : CacheLoader → ConfigCache → Option CacheData
in_use loader c = elim c.cached [
  | some d ↦ some d
  | none ↦ elim loader.load_all [ err _ ↦ none | ok d ↦ some d ]
]

pub load-in_use :
    (lower : String → String) (loader : CacheLoader) (c : ConfigCache)
    → in_use loader (load lower loader c).1 ≡ in_use loader c
unfolding load
load-in_use lower loader c = ground arith

pub candidates-in_use :
    (lower : String → String) (loader : CacheLoader) (c : ConfigCache) (m : RowId)
    → in_use loader (get_for_model lower m loader c).1 ≡ in_use loader c
unfolding get_for_model load
candidates-in_use lower loader c m = ground arith

pub strategy-in_use :
    (lower : String → String) (loader : CacheLoader) (c : ConfigCache) (m : RowId)
    → in_use loader (get_routing_strategy lower m loader c).1 ≡ in_use loader c
unfolding get_routing_strategy load
strategy-in_use lower loader c m = ground arith

-- What the look-up of a price ends in.
abbrev pub Priced :
    CacheLoader
    → ConfigCache
    → RowId
    → RowId
    → String
    → ProxyResult (Option ChannelModelPricing) × ConfigCache
    → Type 0
Priced loader c m ch u (err e, c') = in_use loader c' ≡ in_use loader c
Priced loader c m ch u (ok pricing, c') =
    (d : CacheData) × (in_use loader c ≡ some d)
    × (c'.cached ≡ some d)
    × (pricing ≡ pricing_for d m ch u)

pub pricing-Priced :
    (lower : String → String) (loader : CacheLoader) (c : ConfigCache) (m ch : RowId) (u : String)
    → Priced loader c m ch u (get_channel_model_pricing lower m ch u loader c)
unfolding get_channel_model_pricing
pricing-Priced lower loader c m ch u = after (load lower loader c) (load-Loaded lower loader c)
  where
    after :
        (x : ProxyResult CacheData × ConfigCache)
        → Loaded lower loader c x
        → Priced loader c m ch u
            (elim x.0 [ ok d ↦ (ok (pricing_for d m ch u), x.1) | err e ↦ (err e, x.1) ])
    after (err e, c') (same, _) = ap (in_use loader) same
    after (ok d, c') (now, inl (e, _)) = (d, rw e refl, now, refl)
    after (ok d, c') (now, inr (e, all, _)) = (d, rw (e, all) refl, now, refl)
