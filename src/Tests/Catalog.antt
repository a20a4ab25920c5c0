-- ===== src/Tests/Catalog.antt =====
-- The tables that the snapshot is loaded from: one channel with two keys, and one model.
use chenni_x_api.Prelude.Int.{ℤ, pos, ◌+ℤ◌}
use chenni_x_api.Prelude.Maps.{Distinct, get, nat_eq, pair_eq, string_eq}
use chenni_x_api.Prelude.Sorting.{sort_by}
use chenni_x_api.Prelude.{ℕ, ◌≡◌, refl, String, true, false, none, some, [], ◌∷◌, ◌++◌, map, arith}
use chenni_x_api.Common.Types.{KeyConfig, ChannelModelPricing, per_call}
use chenni_x_api.Common.Results.{ok, err}
use chenni_x_api.Catalog.{KeyRow, Catalog, get_keys_for_channel, get_binding_pricing, map_key_row}
use chenni_x_api.Accounts.{Violation, statement}
use chenni_x_api.Accounts.Rows.{Ascending}
use chenni_x_api.Prelude.Tests.{◌==◌}
use chenni_x_api.Catalog.Keys.{
  reorder_keys, number_if_valid, create_key_auto_priority, full_key, max_priority,
}
use chenni_x_api.Catalog.Order.{own, create_key_auto_priority_last}
use chenni_x_api.Catalog.Reorder.{Reordered, reorder_keys-Reordered}
use chenni_x_api.Storage.Table.{update_where}
use chenni_x_api.Catalog.Models.{missing, update_bindings, update_binding_pricing}
use chenni_x_api.Catalog.Repricing.{Repriced, update_binding_pricing-Repriced}
use chenni_x_api.Catalog.Loader.{loader, snapshot, load_aliases}
use chenni_x_api.Catalog.Queries.{quotas}
use chenni_x_api.Catalog.Answers.{strategies, names, Agrees, loader-Agrees}

abbrev key_row : ℕ → ℤ → KeyRow
key_row id order = record {
  id = id;
  channel_id = 3;
  api_key = "k";
  label = none;
  cost_tier = "free";
  key_priority = order;
  price_per_1k_tokens = none;
  free_quota = some (pos 9);
  used_quota = pos 0;
  quota_reset_period = none;
  status = "active";
}

abbrev catalog : Catalog
catalog = record {
  channels =
      record {
        id = 3;
        name = "main";
        provider = "anthropic";
        base_url = "http://up";
        group = "default";
      }
      ∷ [];
  keys = key_row 10 (pos 7) ∷ key_row 11 (pos 2) ∷ [];
  models = record { id = 1; canonical_name = "m"; routing_strategy = "load_balance" } ∷ [];
  bindings =
      record {
        model_id = 1;
        channel_id = 3;
        upstream_model_name = "up";
        weight = pos 1;
        billing_type = pos 1;
        input_price = 0;
        output_price = 0;
        call_price = 4_607_182_418_800_017_408;
        billing_expr = none;
        priority = pos 100;
      }
      ∷ [];
  discovered =
      record {
        channel_id = 3;
        raw_model_name = "up";
        quota_limit = some (pos 5);
        quota_unit = some "call";
        quota_window = some "day";
        used_quota = pos 2;
        last_reset_at = none;
        quota_status = "available";
      }
      ∷ [];
}

by_priority : map (λ (k : KeyConfig). k.id) (get_keys_for_channel catalog 3) ≡ 11 ∷ 10 ∷ []
unfolding get_keys_for_channel sort_by map_key_row
by_priority = refl

strategies-Distinct : Distinct (strategies catalog.models)
unfolding strategies get
strategies-Distinct = (refl, tt)

quotas-Distinct : Distinct (quotas catalog.discovered)
unfolding quotas get
quotas-Distinct = (refl, tt)

names-Distinct : Distinct (names catalog.models)
unfolding get
names-Distinct = (refl, tt)

loader-Agrees_example :
    ((loader none catalog).load_all ≡ ok (snapshot catalog))
    × Agrees catalog (snapshot catalog) 1 3 "up"
    × ((loader none catalog).load_alias_mapping ≡ ok (load_aliases catalog.models []))
    × (get "up" (load_aliases catalog.models []) ≡ get "up" (names catalog.models))
loader-Agrees_example =
    loader-Agrees catalog 1 3 "up" strategies-Distinct quotas-Distinct names-Distinct

abbrev explained : Violation → String
explained _ = "constraint"

keys-Ascending : Ascending (λ (r : KeyRow). r.id) catalog.keys
keys-Ascending = ground arith

reordered : (reorder_keys none explained 3 (10 ∷ 11 ∷ []) catalog).0 ≡ ok tt
unfolding reorder_keys number_if_valid statement
reordered = refl

reorder_keys-Reordered_example :
    Reordered catalog 3 (10 ∷ 11 ∷ []) (reorder_keys none explained 3 (10 ∷ 11 ∷ []) catalog)
reorder_keys-Reordered_example =
    reorder_keys-Reordered explained catalog 3 (10 ∷ 11 ∷ []) keys-Ascending

seventeen : max_priority (own explained catalog 3) +ℤ pos 10 ≡ pos 17
unfolding ◌+ℤ◌
seventeen = refl

create_key_auto_priority_last_example :
    (let (created, after) =
        create_key_auto_priority none explained 3 "k2" none true (pos 0) 0 catalog in
      (created ≡ ok 12)
      × (get_keys_for_channel after 3
          ≡ get_keys_for_channel catalog 3
            ++ map_key_row (full_key 3 "k2" none true (pos 17) (pos 0) 0 12) ∷ [])
      × ((d : ℕ)
          → (3 == d) ≡ false
          → get_keys_for_channel after d ≡ get_keys_for_channel catalog d))
create_key_auto_priority_last_example =
    create_key_auto_priority_last explained catalog 3 "k2" none true (pos 0) 0 17 (ground arith)
      seventeen (ground arith)

abbrev new_price : ChannelModelPricing
new_price = record {
  billing_type = per_call;
  input_price = 0;
  output_price = 0;
  call_price = 1;
  billing_expr = none;
}

unbound :
    (update_binding_pricing none explained 1 4 "up" new_price catalog).0 ≡ err (missing 1 4 "up")
unfolding update_binding_pricing update_bindings update_where statement
unbound = refl

update_binding_pricing-Repriced_example :
    Repriced catalog 1 3 "up" new_price
      (get_binding_pricing catalog 1 3 "up")
      (update_binding_pricing none explained 1 3 "up" new_price catalog)
update_binding_pricing-Repriced_example =
    update_binding_pricing-Repriced explained catalog 1 3 "up" new_price
