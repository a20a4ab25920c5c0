-- ===== src/Catalog/Prices.antt =====
-- crates/server/src/pipeline.rs: the prices of the loaded snapshot.
use chenni_x_api.Prelude.Int.{pos}
use chenni_x_api.Prelude.Lists.{any, keep_if}
use chenni_x_api.Prelude.Sorting.{sort_by}
use chenni_x_api.Prelude.Maps.{
  get, get-insert, nat_eq, pair_eq, triple_eq, triple_beq, triple_beq_iff, string_eq,
}
use chenni_x_api.Prelude.Tests.{◌==◌, ==_iff, Bool-cases, if◌then◌else◌}
use chenni_x_api.Prelude.{
  ◌≡◌, refl, ◌∙◌, String, str_eq, Bool, true, false, ◌&&◌, Option, none, some, List, [], ◌∷◌, inl,
  inr, ap, arith,
}
use chenni_x_api.Common.Types.{RowId, ChannelModelPricing}
use chenni_x_api.Cache.{CacheData}
use chenni_x_api.Catalog.{
  ModelRow, BindingRow, Catalog, has_model, get_bindings_for_model, get_binding_pricing, is_bound,
}
use chenni_x_api.Catalog.Entries.{or_else, price_step, any-sort_by, models_step, find-absent}
use chenni_x_api.Catalog.Loader.{Prices, insert_price, load_prices, load_model, load_models}

-- The prices of one model's bindings.
abbrev pub binds : RowId → String → BindingRow → Bool
binds c u b = b.channel_id == c && str_eq b.upstream_model_name u

get-insert_price :
    (k j : RowId × RowId × String) (o : Option ChannelModelPricing) (p : Prices)
    → get k (insert_price j o p) ≡ (if triple_beq j k then or_else o (get k p) else get k p)
unfolding insert_price
get-insert_price k j none p = elim (Bool-cases (triple_beq j k)) [ inl e ↦ rw e | inr e ↦ rw e ]
get-insert_price k j (some v) p = get-insert k j v p

abbrev pub price_at : Catalog → RowId × RowId × String → Option ChannelModelPricing
price_at t (m, c, u) = get_binding_pricing t m c u

get-load_prices :
    (t : Catalog) (i m c : RowId) (u : String) (bs : List BindingRow) (p : Prices)
    → get (m, c, u) (load_prices t i bs p) ≡ (
        if i == m && any (binds c u) bs
        then or_else (get_binding_pricing t m c u) (get (m, c, u) p)
        else get (m, c, u) p)
unfolding load_prices
get-load_prices t i m c u [] p = ground arith
get-load_prices t i m c u (b ∷ bs) p =
    let j : RowId × RowId × String = (i, b.channel_id, b.upstream_model_name) in
    let o = get_binding_pricing t i b.channel_id b.upstream_model_name in
    get-load_prices t i m c u bs (insert_price j o p)
    ∙ rw (get-insert_price (m, c, u) j o p) (
        price_step (i == m) (binds c u b) (any (binds c u) bs) (get_binding_pricing t m c u) o
          (get (m, c, u) p) (λ e. ap (price_at t) ((triple_beq_iff j (m, c, u)).0 e)))

-- The binding has a row.
abbrev pub is_listed : Catalog → RowId → RowId → String → Bool
is_listed t m c u = any (is_bound m c u) t.bindings

any-kept :
    (m c : RowId) (u : String) (bs : List BindingRow)
    → any (binds c u) (keep_if (λ (b : BindingRow). b.model_id == m && true) bs)
      ≡ any (is_bound m c u) bs
any-kept m c u [] = refl
any-kept m c u (b ∷ bs) = ground (arith, any-kept m c u bs)

pub any-bindings :
    (t : Catalog) (m c : RowId) (u : String)
    → has_model t m ≡ true
    → any (binds c u) (get_bindings_for_model t m) ≡ is_listed t m c u
unfolding get_bindings_for_model
any-bindings t m c u h =
    let rows = keep_if (λ (b : BindingRow). b.model_id == m && has_model t m) t.bindings in
    any-sort_by (λ (b : BindingRow). b.priority) (binds c u)
      (sort_by (λ (b : BindingRow). pos b.channel_id) rows)
    ∙ any-sort_by (λ (b : BindingRow). pos b.channel_id) (binds c u) rows
    ∙ rw h (any-kept m c u t.bindings)

pub get-load_pricing :
    (t : Catalog) (m c : RowId) (u : String) (ms : List ModelRow) (d : CacheData)
    → get (m, c, u) (load_models t ms d).channel_model_pricing ≡ (
        if any (λ (r : ModelRow). r.id == m) ms && any (binds c u) (get_bindings_for_model t m)
        then or_else (get_binding_pricing t m c u) (get (m, c, u) d.channel_model_pricing)
        else get (m, c, u) d.channel_model_pricing)
unfolding load_models load_model
get-load_pricing t m c u [] d = refl
get-load_pricing t m c u (r ∷ rs) d =
    get-load_pricing t m c u rs (load_model t r d)
    ∙ rw (get-load_prices t r.id m c u (get_bindings_for_model t r.id) d.channel_model_pricing) (
        models_step (r.id == m) (any (λ (n : ModelRow). n.id == m) rs)
          (any (binds c u) (get_bindings_for_model t r.id))
          (any (binds c u) (get_bindings_for_model t m)) (get_binding_pricing t m c u)
          (get (m, c, u) d.channel_model_pricing)
          (λ e. ap (λ i. any (binds c u) (get_bindings_for_model t i)) ((==_iff r.id m).0 e)))

pub price_listed :
    (t : Catalog) (m c : RowId) (u : String) (b : Bool)
    → is_listed t m c u ≡ b
    → (if b then or_else (get_binding_pricing t m c u) none else none) ≡ get_binding_pricing t m c u
unfolding get_binding_pricing
price_listed t m c u true h = ground arith
price_listed t m c u false h = rw (find-absent (is_bound m c u) t.bindings h)
