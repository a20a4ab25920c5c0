-- ===== src/Catalog/Repricing.antt =====
-- crates/storage/src/models.rs: a binding's pricing, set and read back.
use mathlib.Core.Option
use chenni_x_api.Prelude.Lists.{find}
use chenni_x_api.Prelude.Tests.{Bool-cases}
use chenni_x_api.Prelude.{
  ℕ, suc, ◌≡◌, refl, String, Bool, Option, none, some, List, [], ◌∷◌, inl, inr, arith,
}
use chenni_x_api.Common.Types.{
  RowId, ChannelModelPricing, BillingType, token, per_call, expression, billing_type_as_i32,
  billing_type_from_i32,
}
use chenni_x_api.Common.Results.{ProxyResult, ok, err}
use chenni_x_api.Storage.Table.{update_where}
use chenni_x_api.Accounts.{Violation, statement}
use chenni_x_api.Catalog.{BindingRow, Catalog, is_bound, get_binding_pricing, pricing_of}
use chenni_x_api.Catalog.Models.{missing, priced, update_bindings, update_binding_pricing}

billing_type_kept : (b : BillingType) → billing_type_from_i32 (billing_type_as_i32 b) ≡ b
unfolding billing_type_from_i32 billing_type_as_i32
billing_type_kept token = ground arith
billing_type_kept per_call = ground arith
billing_type_kept expression = ground arith

-- What a look-up finds after an update that keeps the test.
find-update_where :
    (p : BindingRow → Bool) (f : BindingRow → BindingRow) (rs : List BindingRow)
    → ((r : BindingRow) → p (f r) ≡ p r)
    → find p (update_where p f rs).0 ≡ Option.map f (find p rs)
unfolding update_where
find-update_where p f [] keeps = refl
find-update_where p f (r ∷ rs) keeps = elim (Bool-cases (p r)) [
  | inl e ↦ rw (e, keeps r, e)
  | inr e ↦ rw (e, e, find-update_where p f rs keeps)
]

update_where-none :
    (p : BindingRow → Bool) (f : BindingRow → BindingRow) (rs : List BindingRow)
    → find p rs ≡ none
    → update_where p f rs ≡ (rs, 0)
unfolding update_where
update_where-none p f [] h = refl
update_where-none p f (r ∷ rs) h = elim (Bool-cases (p r)) [
  | inl e ↦ ground (arith, h, e)
  | inr e ↦ rw (e, update_where-none p f rs (ground (arith, h, e)))
]

update_where-some :
    (p : BindingRow → Bool) (f : BindingRow → BindingRow) (rs : List BindingRow) (b : BindingRow)
    → find p rs ≡ some b
    → (n : ℕ) × ((update_where p f rs).1 ≡ suc n)
unfolding update_where
update_where-some p f [] b h = ground (arith, h)
update_where-some p f (r ∷ rs) b h = elim (Bool-cases (p r)) [
  | inl e ↦ ((update_where p f rs).1, rw e)
  | inr e ↦ let (n, q) = update_where-some p f rs b (ground (arith, h, e)) in (n, rw (e, q))
]

-- The result of setting a pricing, by what the binding's pricing was.
abbrev pub Repriced :
    Catalog
    → RowId
    → RowId
    → String
    → ChannelModelPricing
    → Option ChannelModelPricing
    → ProxyResult {0} Unit × Catalog
    → Type 0
Repriced t m c u p (some _) (r, after) = (r ≡ ok tt) × (get_binding_pricing after m c u ≡ some p)
Repriced t m c u p none (r, after) = (r ≡ err (missing m c u)) × (after ≡ t)

module _ (explain : Violation → String) (t : Catalog) (m c : RowId) (u : String)
    (pricing : ChannelModelPricing) where
  found-Repriced :
      (o : Option BindingRow)
      → find (is_bound m c u) t.bindings ≡ o
      → Repriced t m c u pricing
          (Option.map pricing_of o)
          (update_binding_pricing none explain m c u pricing t)
  unfolding update_binding_pricing update_bindings statement get_binding_pricing pricing_of priced
  found-Repriced (some b) h =
      let (n, q) = update_where-some (is_bound m c u) (priced pricing) t.bindings b h in
      (
        rw q,
        rw (
          find-update_where (is_bound m c u) (priced pricing) t.bindings (λ r. refl),
          h,
          billing_type_kept pricing.billing_type,
        ),
      )
  found-Repriced none h =
      rw (update_where-none (is_bound m c u) (priced pricing) t.bindings h) (refl, refl)

  -- Where SQLite refuses nothing: the pricing of a binding that exists is set and read back, and
  -- for a binding that does not exist the update fails and the tables stay.
  pub update_binding_pricing-Repriced :
      Repriced t m c u pricing
        (get_binding_pricing t m c u)
        (update_binding_pricing none explain m c u pricing t)
  unfolding get_binding_pricing
  update_binding_pricing-Repriced = found-Repriced (find (is_bound m c u) t.bindings) refl
