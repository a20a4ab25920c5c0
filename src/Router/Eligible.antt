-- ===== src/Router/Eligible.antt =====
-- crates/core/src/router.rs: every strategy gives the executor exactly the eligible keys, in groups
-- of one binding each; the strategies differ in the order alone.
use mathlib.Core.List.Perm
use mathlib.Core.List.{flatten, append_assoc, Perm-prop, Permᴰ, perm_append_comm}
use mathlib.Core.Logic.{∥∥₁_elim}
use chenni_x_api.Prelude.Tests.{ltb, if◌then◌else◌, Bool-cases}
use chenni_x_api.Prelude.Lists.{length, length-map, keep_if}
use chenni_x_api.Prelude.Sorting.{sort_by, length-sort_by, sort_by-perm}
use chenni_x_api.Prelude.{
  ℕ, zero, suc, ◌+◌, ◌≤◌, ◌≡◌, refl, inl, inr, String, Bool, ◌&&◌, List, [], ◌∷◌, ◌++◌, map, Perm,
  arith,
}
use chenni_x_api.Common.Types.{RowId, KeyConfig}
use chenni_x_api.Cache.{RoutingStrategy, priority, load_balance}
use chenni_x_api.Cache.Store.{Candidate}
use chenni_x_api.Router.{
  RoutedKey, routed, group_match, bucket_of, groups_of, key_order, group_priority, binding_weight,
  route_priority, total_weight, choose, draw_all, route_load_balance, route,
}

module _ (user_group : String) (is_key_available : RowId → String → Bool)
    (quota_filter : RowId → String → Bool) where
  -- The binding is open to the user's group, and its quota is not exhausted.
  abbrev pub binding_open : Candidate → Bool
  binding_open c =
      group_match user_group c.channel.group && quota_filter c.channel.id c.upstream_model_name

  -- The keys that a request may be sent with, binding by binding.
  abbrev pub eligible : List Candidate → List RoutedKey
  eligible [] = []
  eligible (c ∷ cs) =
      (if binding_open c
        then map (routed c) (keep_if (λ k. is_key_available k.id c.upstream_model_name) c.keys)
        else [])
      ++ eligible cs

  bucket_of-eq :
      (c : Candidate) (keys : List KeyConfig)
      → bucket_of is_key_available c keys
        ≡ map (routed c) (keep_if (λ k. is_key_available k.id c.upstream_model_name) keys)
  unfolding bucket_of
  bucket_of-eq c [] = refl
  bucket_of-eq c (k ∷ ks) = ground (arith, bucket_of-eq c ks)

  flatten-groups_of :
      (cs : List Candidate)
      → flatten (groups_of user_group is_key_available quota_filter cs) ≡ eligible cs
  unfolding groups_of flatten
  flatten-groups_of [] = refl
  flatten-groups_of (c ∷ cs) = ground (arith, flatten-groups_of cs, bucket_of-eq c c.keys)

flatten-permᴰ : (xs ys : List (List RoutedKey)) → Permᴰ xs ys → Perm (flatten xs) (flatten ys)
unfolding flatten
flatten-permᴰ _ _ Permᴰ.nil = Perm.nil
flatten-permᴰ _ _ (Permᴰ.cons {a = a} {l₁ = xs} {l₂ = ys} e p) =
    rw (← e) (Perm.append (Perm.refl a) (flatten-permᴰ xs ys p))
flatten-permᴰ _ _ (Permᴰ.swap {a = a} {b = b} {l = l} e f) =
    rw (← e, ← f, ← append_assoc a b (flatten l), ← append_assoc b a (flatten l))
      (Perm.append (perm_append_comm a b) (Perm.refl (flatten l)))
flatten-permᴰ _ _ (Permᴰ.trans {l₁ = xs} {l₂ = ys} {l₃ = zs} p q) =
    Perm.trans (flatten-permᴰ xs ys p) (flatten-permᴰ ys zs q)

flatten-perm : {xs ys : List (List RoutedKey)} → Perm xs ys → Perm (flatten xs) (flatten ys)
flatten-perm {xs} {ys} p = ∥∥₁_elim p Perm-prop (flatten-permᴰ xs ys)

flatten-map-sort_by :
    (gs : List (List RoutedKey)) → Perm (flatten (map (sort_by key_order) gs)) (flatten gs)
unfolding flatten
flatten-map-sort_by [] = Perm.nil
flatten-map-sort_by (g ∷ gs) = Perm.append (sort_by-perm key_order g) (flatten-map-sort_by gs)

choose-perm :
    (pick acc : ℕ) (b : List RoutedKey) (bs : List (List RoutedKey))
    → Perm ((choose pick acc b bs).0 ∷ (choose pick acc b bs).1) (b ∷ bs)
unfolding choose
choose-perm pick acc b [] = Perm.refl (b ∷ [])
choose-perm pick acc b (c ∷ cs) = elim (Bool-cases (ltb pick (acc + binding_weight b))) [
  | inl h ↦ rw h (Perm.refl (b ∷ c ∷ cs))
  | inr h ↦ rw h (
      Perm.trans (Perm.swap b (choose pick (acc + binding_weight b) c cs).0 _)
        (Perm.cons b (choose-perm pick (acc + binding_weight b) c cs)))
]

choose-length :
    (pick acc : ℕ) (b : List RoutedKey) (bs : List (List RoutedKey))
    → length (choose pick acc b bs).1 ≡ length bs
unfolding choose
choose-length pick acc b [] = refl
choose-length pick acc b (c ∷ cs) = ground (arith, choose-length pick (acc + binding_weight b) c cs)

draw_all-perm :
    (draw : ℕ → ℕ → ℕ) (fuel round : ℕ) (gs : List (List RoutedKey))
    → length gs ≤ fuel
    → Perm (draw_all draw fuel round gs) gs
unfolding draw_all
draw_all-perm draw zero round [] h = Perm.nil
draw_all-perm draw zero round (b ∷ bs) h = absurd (omega arith)
draw_all-perm draw (suc fuel) round [] h = Perm.nil
draw_all-perm draw (suc fuel) round (b ∷ bs) h =
    let pick = draw round (total_weight (b ∷ bs)) in
    Perm.trans
      (Perm.cons (choose pick 0 b bs).0 (
        draw_all-perm draw fuel (round + 1) (choose pick 0 b bs).1
          (omega (arith, choose-length pick 0 b bs))))
      (choose-perm pick 0 b bs)

-- In either strategy, and whatever the generator draws, the candidates are exactly the available
-- keys of the bindings that are open to the user's group and whose quota is not exhausted, each as
-- often as it is configured: routing loses none and adds none, and the drawing loop has enough
-- rounds.
pub route-eligible :
    (draw : ℕ → ℕ → ℕ) (cs : List Candidate) (user_group : String)
    (is_key_available : RowId → String → Bool) (strategy : RoutingStrategy)
    (quota_filter : RowId → String → Bool)
    → Perm
        (flatten (route draw cs user_group is_key_available strategy quota_filter))
        (eligible user_group is_key_available quota_filter cs)
unfolding route route_priority route_load_balance
route-eligible draw cs ug ka priority qf = rw (← flatten-groups_of ug ka qf cs) (
    Perm.trans (flatten-perm (sort_by-perm group_priority _))
      (flatten-map-sort_by (groups_of ug ka qf cs)))
route-eligible draw cs ug ka load_balance qf =
    let gs = groups_of ug ka qf cs in
    rw (← flatten-groups_of ug ka qf cs) (
      Perm.trans
        (flatten-perm (
          draw_all-perm draw (length gs) 0 (sort_by group_priority (map (sort_by key_order) gs)) (
            omega (
              arith,
              length-sort_by group_priority (map (sort_by key_order) gs),
              length-map (sort_by key_order) gs,
            ))))
        (Perm.trans (flatten-perm (sort_by-perm group_priority _)) (flatten-map-sort_by gs)))
