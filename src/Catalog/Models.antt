-- ===== src/Catalog/Models.antt =====
-- crates/storage/src/models.rs: the methods of `ModelRepo` that write.
use mathlib.Core.Option
use chenni_x_api.Prelude.Int.{ℤ, pos}
use chenni_x_api.Prelude.Lists.{any, keep_if, find}
use chenni_x_api.Prelude.Tests.{◌==◌, if◌then◌else◌}
use chenni_x_api.Prelude.{
  ℕ, zero, suc, ◌+◌, ◌*◌, String, str_eq, Bool, not, ◌&&◌, Option, none, List, [], ◌∷◌, ◌++◌, ◌<>◌,
}
use chenni_x_api.Common.Text.{decimal}
use chenni_x_api.Common.Types.{RowId, ChannelModelPricing, billing_type_as_i32}
use chenni_x_api.Common.Errors.{ProxyError, storage, model_not_found}
use chenni_x_api.Common.Results.{ProxyResult, ok, err, Action}
use chenni_x_api.Storage.Table.{update_where}
use chenni_x_api.Accounts.{
  Violation, not_unique, foreign_key, next_id, has_id, taken, taken_elsewhere, unless, statement,
  reads,
}
use chenni_x_api.Catalog.{ChannelRow, ModelRow, BindingRow, Catalog, is_bound}

-- `UPDATE .. WHERE`, which fails where it changes no row.
abbrev pub or_missing : {A : Type 0} → ProxyError → ProxyResult A → ℕ → ProxyResult A
or_missing e r zero = err e
or_missing e r (suc n) = r

abbrev pub missing : RowId → RowId → String → ProxyError
missing model_id channel_id upstream = storage (
    "binding (model="
    <> decimal model_id
    <> ", channel="
    <> decimal channel_id
    <> ", upstream="
    <> upstream
    <> ") not found")

unfoldable pub priced : ChannelModelPricing → BindingRow → BindingRow
unfolding billing_type_as_i32
priced pricing b = record b {
  billing_type = billing_type_as_i32 pricing.billing_type;
  input_price = pricing.input_price;
  output_price = pricing.output_price;
  call_price = pricing.call_price;
  billing_expr = pricing.billing_expr;
}

module _ (refusal : Option String) (explain : Violation → String) where
  unfoldable pub update_models :
      ProxyError
      → (ModelRow → Bool)
      → (ModelRow → ModelRow)
      → Option Violation
      → Action Catalog Unit
  unfolding statement update_where
  update_models e p f v t =
      let (models, n) = update_where p f t.models in
      let (r, after) = statement refusal explain v tt (λ s. record s { models = models }) t in
      (elim r [ err x ↦ err x | ok _ ↦ or_missing e (ok tt) n ], after)

  unfoldable pub update_bindings :
      RowId → RowId → String → (BindingRow → BindingRow) → Action Catalog Unit
  unfolding statement update_where
  update_bindings model_id channel_id upstream f t =
      let (bindings, n) = update_where (is_bound model_id channel_id upstream) f t.bindings in
      let (r, after) =
        statement refusal explain none tt (λ s. record s { bindings = bindings }) t in
      (
        elim r [
          | err x ↦ err x
          | ok _ ↦ or_missing (missing model_id channel_id upstream) (ok tt) n
        ],
        after,
      )

  unfoldable pub create_model : String → Action Catalog RowId
  unfolding statement
  create_model canonical_name t =
      let id = next_id (λ (m : ModelRow). m.id) t.models in
      statement refusal explain
        (unless (taken (λ (m : ModelRow). m.canonical_name) canonical_name t.models)
          (not_unique "models.canonical_name"))
        id
        (λ s. record s {
          models =
              s.models
              ++ record { id = id; canonical_name = canonical_name; routing_strategy = "priority" }
                ∷ [];
        })
        t

  unfoldable pub rename_model : RowId → String → Action Catalog Unit
  unfolding update_models
  rename_model model_id new_name t =
      update_models (model_not_found (decimal model_id)) (λ m. m.id == model_id)
        (λ m. record m { canonical_name = new_name })
        (unless
          (has_id (λ (m : ModelRow). m.id) model_id t.models
            && taken_elsewhere (λ (m : ModelRow). m.id) (λ m. m.canonical_name) model_id new_name
                t.models)
          (not_unique "models.canonical_name"))
        t

  unfoldable pub update_routing_strategy : RowId → String → Action Catalog Unit
  unfolding update_models
  update_routing_strategy model_id strategy =
      update_models (model_not_found (decimal model_id)) (λ m. m.id == model_id)
        (λ m. record m { routing_strategy = strategy }) none

  unfoldable pub update_binding_weight : RowId → RowId → String → ℤ → Action Catalog Unit
  unfolding update_bindings
  update_binding_weight model_id channel_id upstream weight =
      update_bindings model_id channel_id upstream (λ b. record b { weight = weight })

  unfoldable pub update_binding_pricing :
      RowId → RowId → String → ChannelModelPricing → Action Catalog Unit
  unfolding update_bindings priced
  update_binding_pricing model_id channel_id upstream pricing =
      update_bindings model_id channel_id upstream (priced pricing)

  unfoldable pub remove_binding : RowId → RowId → String → Action Catalog Unit
  unfolding statement
  remove_binding model_id channel_id upstream = statement refusal explain none tt (λ t. record t {
    bindings = keep_if (λ b. not (is_bound model_id channel_id upstream b)) t.bindings;
  })

  unfoldable pub remove_all_bindings_for_channel : RowId → RowId → Action Catalog Unit
  unfolding statement
  remove_all_bindings_for_channel model_id channel_id = statement refusal explain none tt (λ t.
      record t {
        bindings =
            keep_if (λ (b : BindingRow). not (b.model_id == model_id && b.channel_id == channel_id))
              t.bindings;
      })

  -- `ON CONFLICT .. DO UPDATE`; the columns that an insert leaves out have their defaults.
  unfoldable pub add_binding_with_weight : RowId → RowId → String → ℤ → ℤ → Action Catalog Unit
  unfolding statement update_where
  add_binding_with_weight model_id channel_id upstream priority weight t =
      let bound = is_bound model_id channel_id upstream in
      statement refusal explain
        (unless
          (not (
            has_id (λ (m : ModelRow). m.id) model_id t.models
            && has_id (λ (c : ChannelRow). c.id) channel_id t.channels))
          foreign_key)
        tt
        (λ s. record s {
          bindings =
              if any bound s.bindings
              then (update_where bound (λ b. record b { priority = priority; weight = weight })
                  s.bindings).0
              else s.bindings
                ++ record {
                  model_id = model_id;
                  channel_id = channel_id;
                  upstream_model_name = upstream;
                  weight = weight;
                  billing_type = pos 0;
                  input_price = 0;
                  output_price = 0;
                  call_price = 0;
                  billing_expr = none;
                  priority = priority;
                }
                  ∷ [];
        })
        t

  unfoldable pub add_binding : RowId → RowId → String → ℤ → Action Catalog Unit
  unfolding add_binding_with_weight
  add_binding model_id channel_id upstream priority =
      add_binding_with_weight model_id channel_id upstream priority (pos 1)

  -- The `i`-th binding of the list gets the priority `(i + 1) * 10`, in one transaction.
  unfoldable pub number_bindings :
      RowId → ℕ → List (RowId × String) → List BindingRow → List BindingRow
  unfolding update_where
  number_bindings model_id i [] rows = rows
  number_bindings model_id i ((cid, upstream) ∷ rest) rows =
      number_bindings model_id (suc i) rest
        (update_where (is_bound model_id cid upstream)
          (λ b. record b { priority = pos ((i + 1) * 10) }) rows).0

  unfoldable pub reorder_bindings : RowId → List (RowId × String) → Action Catalog Unit
  unfolding statement number_bindings
  reorder_bindings model_id ordered_bindings =
      statement refusal explain none tt
        (λ t. record t { bindings = number_bindings model_id 0 ordered_bindings t.bindings })

  unfoldable pub get_routing_strategy : RowId → Action Catalog (Option String)
  unfolding statement
  get_routing_strategy model_id t =
      reads refusal explain
        (Option.map (λ (m : ModelRow). m.routing_strategy)
          (find (λ (m : ModelRow). m.id == model_id) t.models))
        t

  unfoldable pub get_model_by_id : RowId → Action Catalog (Option (RowId × String))
  unfolding statement
  get_model_by_id id t =
      reads refusal explain
        (Option.map (λ (m : ModelRow). (m.id, m.canonical_name))
          (find (λ (m : ModelRow). m.id == id) t.models))
        t

  unfoldable pub get_model_by_name : String → Action Catalog (Option (RowId × String))
  unfolding statement
  get_model_by_name name t =
      reads refusal explain
        (Option.map (λ (m : ModelRow). (m.id, m.canonical_name))
          (find (λ (m : ModelRow). str_eq m.canonical_name name) t.models))
        t
