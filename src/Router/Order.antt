-- ===== src/Router/Order.antt =====
-- crates/core/src/router.rs: the order of the candidates, and the weighted draw.
use chenni_x_api.Prelude.Tests.{ltb, Bool-cases}
use chenni_x_api.Prelude.Lists.{All, is_empty}
use chenni_x_api.Prelude.Sorting.{
  IsSortedBy, All-sort_by, is_empty-sort_by, sort_by, sort_by-IsSortedBy,
}
use chenni_x_api.Prelude.{
  ℕ, zero, suc, ◌+◌, ◌≤◌, ◌<◌, ◌≡◌, refl, ap, inl, inr, String, Bool, false, List, [], ◌∷◌, ◌++◌,
  map, arith,
}
use chenni_x_api.Common.Types.{RowId}
use chenni_x_api.Cache.{RoutingStrategy, priority, load_balance}
use chenni_x_api.Cache.Store.{Candidate}
use chenni_x_api.Router.{
  RoutedKey, groups_of, key_order, group_priority, binding_weight, route_priority, total_weight,
  choose, draw_all, route_load_balance, route,
}

-- A group that the executor may index: it has a key, and its keys are in the order of priority.
abbrev pub IsRanked : List RoutedKey → Type 0
IsRanked g = (is_empty g ≡ false) × IsSortedBy key_order g

is_empty-groups_of :
    (ug : String) (ka qf : RowId → String → Bool) (cs : List Candidate)
    → All (λ g. is_empty g ≡ false) (groups_of ug ka qf cs)
unfolding groups_of
is_empty-groups_of ug ka qf [] = tt
is_empty-groups_of ug ka qf (c ∷ cs) = ground (arith, is_empty-groups_of ug ka qf cs)

All-IsRanked :
    (gs : List (List RoutedKey))
    → All (λ g. is_empty g ≡ false) gs
    → All IsRanked (map (sort_by key_order) gs)
All-IsRanked [] h = tt
All-IsRanked (g ∷ gs) h =
    ((is_empty-sort_by key_order g h.0, sort_by-IsSortedBy key_order g), All-IsRanked gs h.1)

All-choose :
    (P : List RoutedKey → Type 0) (pick acc : ℕ) (b : List RoutedKey) (bs : List (List RoutedKey))
    → P b
    → All P bs
    → P (choose pick acc b bs).0 × All P (choose pick acc b bs).1
unfolding choose
All-choose P pick acc b [] hb h = (hb, tt)
All-choose P pick acc b (c ∷ cs) hb h = elim (Bool-cases (ltb pick (acc + binding_weight b))) [
  | inl e ↦ rw e (hb, h)
  | inr e ↦
      let later = All-choose P pick (acc + binding_weight b) c cs h.0 h.1 in
      rw e (later.0, (hb, later.1))
]

All-draw_all :
    (P : List RoutedKey → Type 0) (draw : ℕ → ℕ → ℕ) (fuel round : ℕ) (gs : List (List RoutedKey))
    → All P gs
    → All P (draw_all draw fuel round gs)
unfolding draw_all
All-draw_all P draw zero round gs h = tt
All-draw_all P draw (suc fuel) round [] h = tt
All-draw_all P draw (suc fuel) round (b ∷ bs) h =
    let chosen = All-choose P (draw round (total_weight (b ∷ bs))) 0 b bs h.0 h.1 in
    (chosen.0, All-draw_all P draw fuel (round + 1) _ chosen.1)

-- In either strategy, and whatever the generator draws, every group that `route` returns has a
-- first key, and its keys stand in the order of their priority.
pub route-IsRanked :
    (draw : ℕ → ℕ → ℕ) (cs : List Candidate) (user_group : String)
    (is_key_available : RowId → String → Bool) (strategy : RoutingStrategy)
    (quota_filter : RowId → String → Bool)
    → All IsRanked (route draw cs user_group is_key_available strategy quota_filter)
unfolding route route_priority route_load_balance
route-IsRanked draw cs ug ka priority qf =
    All-sort_by group_priority IsRanked _ (All-IsRanked _ (is_empty-groups_of ug ka qf cs))
route-IsRanked draw cs ug ka load_balance qf =
    All-draw_all IsRanked draw _ 0 _
      (All-sort_by group_priority IsRanked _ (All-IsRanked _ (is_empty-groups_of ug ka qf cs)))

-- The group that a number drawn below the total weight stands for: the groups before it weigh no
-- more than the number, and with it they weigh more; it alone is taken out.
abbrev pub Drawn : ℕ → ℕ → List (List RoutedKey) → List RoutedKey × List (List RoutedKey) → Type 0
Drawn pick acc groups (chosen, rest) =
    (before : List (List RoutedKey)) × (after : List (List RoutedKey)) × (groups
      ≡ before ++ (chosen ∷ after))
    × (rest ≡ before ++ after)
    × (acc + total_weight before ≤ pick)
    × (pick < acc + total_weight before + binding_weight chosen)

choose-Drawn :
    (pick acc : ℕ) (b : List RoutedKey) (bs : List (List RoutedKey))
    → acc ≤ pick
    → pick < acc + total_weight (b ∷ bs)
    → Drawn pick acc (b ∷ bs) (choose pick acc b bs)
unfolding choose total_weight
choose-Drawn pick acc b [] lo hi = ([], [], refl, refl, omega arith, omega arith)
choose-Drawn pick acc b (c ∷ cs) lo hi = elim (Bool-cases (ltb pick (acc + binding_weight b))) [
  | inl e ↦ rw e ([], c ∷ cs, refl, refl, omega arith, ground arith)
  | inr e ↦
      let (before, after, split, kept, low, high) =
        choose-Drawn pick (acc + binding_weight b) c cs (ground arith) (omega arith) in
      rw e
        (b ∷ before, after, ap (λ l. b ∷ l) split, ap (λ l. b ∷ l) kept, omega arith, omega arith)
]

-- A number below the total weight draws the group in whose interval of the running sums it lies,
-- and takes out that group alone.
choose-interval :
    (pick : ℕ) (b : List RoutedKey) (bs : List (List RoutedKey))
    → pick < total_weight (b ∷ bs)
    → Drawn pick 0 (b ∷ bs) (choose pick 0 b bs)
choose-interval pick b bs h = choose-Drawn pick 0 b bs (omega arith) (omega arith)
