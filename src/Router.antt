-- ===== src/Router.antt =====
-- crates/core/src/router.rs: from the bindings of a model to the candidates in the order in which
-- they are tried. What the random generator draws is a parameter.
pub mod Eligible
pub mod Order
use chenni_x_api.Prelude.Tests.{ltb, leb, if◌then◌else◌}
use chenni_x_api.Prelude.Int.{ℤ, pos, pos_part, leb_ℤ}
use chenni_x_api.Prelude.Lists.{length, any, is_empty}
use chenni_x_api.Prelude.Sorting.{sort_by}
use chenni_x_api.Prelude.{
  ℕ, zero, suc, ◌+◌, ◌-◌, max, String, str_eq, Bool, true, false, not, Option, none, some, List, [],
  ◌∷◌, map,
}
use chenni_x_api.Common.Text.{trim, split}
use chenni_x_api.Common.Types.{RowId, ChannelConfig, KeyConfig}
use chenni_x_api.Cache.{RoutingStrategy, priority, load_balance}
use chenni_x_api.Cache.Store.{Candidate}

pub record RoutedKey : Type 0 where
  pub channel : ChannelConfig
  pub key : KeyConfig
  pub upstream_model_name : String
  pub binding_priority : ℤ
  pub weight : ℤ

abbrev pub comma : ℕ
comma = 44

-- `group_match` for a user in `user_group`.
unfoldable pub group_match : String → String → Bool
group_match user_group ch_group =
    any (λ g. str_eq (trim g) (trim user_group)) (split comma ch_group)

unfoldable pub routed : Candidate → KeyConfig → RoutedKey
routed c key = record {
  channel = c.channel;
  key = key;
  upstream_model_name = c.upstream_model_name;
  binding_priority = c.priority;
  weight = c.weight;
}

-- Step 3: the keys of one binding that are available for its upstream model.
bucket_of : (RowId → String → Bool) → Candidate → List KeyConfig → List RoutedKey
unfolding routed
bucket_of is_key_available c [] = []
bucket_of is_key_available c (key ∷ keys) =
    if not (is_key_available key.id c.upstream_model_name)
    then bucket_of is_key_available c keys
    else routed c key ∷ bucket_of is_key_available c keys

module _ (user_group : String) (is_key_available : RowId → String → Bool)
    (quota_filter : RowId → String → Bool) where
  -- Steps 1 to 4, in the order of the loop.
  unfoldable pub groups_of : List Candidate → List (List RoutedKey)
  unfolding bucket_of group_match
  groups_of [] = []
  groups_of (c ∷ cs) =
      let bucket = bucket_of is_key_available c c.keys in
      let rest = groups_of cs in
      if not (group_match user_group c.channel.group)
      then rest
      else if not (quota_filter c.channel.id c.upstream_model_name)
      then rest
      else if is_empty bucket
      then rest
      else bucket ∷ rest

abbrev pub key_order : RoutedKey → ℤ
key_order r = r.key.key_priority

abbrev pub i32_max : ℤ
i32_max = pos 2_147_483_647

-- `b.first().map(|r| r.binding_priority).unwrap_or(i32::MAX)`
abbrev pub group_priority : List RoutedKey → ℤ
group_priority [] = i32_max
group_priority (r ∷ _) = r.binding_priority

-- `b.first().map(|r| r.weight.max(1) as i64).unwrap_or(1)`
abbrev pub binding_weight : List RoutedKey → ℕ
binding_weight [] = 1
binding_weight (r ∷ _) = max (pos_part r.weight) 1

unfoldable pub route_priority : List (List RoutedKey) → List (List RoutedKey)
route_priority groups = sort_by group_priority (map (sort_by key_order) groups)

unfoldable pub total_weight : List (List RoutedKey) → ℕ
total_weight [] = 0
total_weight (b ∷ bs) = binding_weight b + total_weight bs

-- The group of the drawn number and the groups without it: the first group at which the running
-- sum exceeds the number, or else the last one.
unfoldable pub choose :
    ℕ → ℕ → List RoutedKey → List (List RoutedKey) → List RoutedKey × List (List RoutedKey)
choose pick acc b [] = (b, [])
choose pick acc b (c ∷ cs) =
    let later = choose pick (acc + binding_weight b) c cs in
    if ltb pick (acc + binding_weight b) then (b, c ∷ cs) else (later.0, b ∷ later.1)

-- `draw i n` is what `gen_range(0..n)` answers in round `i`.
module _ (draw : ℕ → ℕ → ℕ) where
  -- One round for each unit of fuel.
  unfoldable pub draw_all : ℕ → ℕ → List (List RoutedKey) → List (List RoutedKey)
  unfolding choose total_weight
  draw_all zero round groups = []
  draw_all (suc fuel) round [] = []
  draw_all (suc fuel) round (b ∷ bs) =
      let (chosen, rest) = choose (draw round (total_weight (b ∷ bs))) 0 b bs in
      chosen ∷ draw_all fuel (round + 1) rest

  unfoldable pub route_load_balance : List (List RoutedKey) → List (List RoutedKey)
  unfolding draw_all
  route_load_balance groups =
      draw_all (length groups) 0 (sort_by group_priority (map (sort_by key_order) groups))

  unfoldable pub route :
      List Candidate
      → String
      → (RowId → String → Bool)
      → RoutingStrategy
      → (RowId → String → Bool)
      → List (List RoutedKey)
  unfolding groups_of route_priority route_load_balance
  route channels user_group is_key_available strategy quota_filter =
      let groups = groups_of user_group is_key_available quota_filter channels in
      elim strategy [ priority ↦ route_priority groups | load_balance ↦ route_load_balance groups ]
