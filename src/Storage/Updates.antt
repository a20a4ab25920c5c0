-- ===== src/Storage/Updates.antt =====
-- The laws of `UPDATE .. WHERE id = ?` on a table with a primary key.
use chenni_x_api.Prelude.Tests.{◌==◌, ==_iff, Bool-cases}
use chenni_x_api.Prelude.{
  ℕ, ◌≡◌, ◌≢◌, refl, subst, inl, inr, Bool, true, ◌&&◌, some, List, [], ◌∷◌, arith,
}
use chenni_x_api.Storage.Table.{update_where, select, Absent, Keyed, adjust_at}

module _ {R : Type 0} (id : R → ℕ) where
  pub update_where-adjust_at :
      (k : ℕ) (f : R → R) (rows : List R)
      → (update_where (λ r. id r == k) f rows).0 ≡ adjust_at id k f rows
  unfolding update_where adjust_at
  update_where-adjust_at k f [] = refl
  update_where-adjust_at k f (r ∷ rs) = ground (arith, update_where-adjust_at k f rs)

  adjust_at-Absent :
      (k : ℕ) (f : R → R) (rows : List R) → Absent id k rows → adjust_at id k f rows ≡ rows
  unfolding adjust_at
  adjust_at-Absent k f [] h = refl
  adjust_at-Absent k f (r ∷ rs) h = ground (arith, adjust_at-Absent k f rs h.1)

  update_where-Absent :
      (k : ℕ) (g : R → Bool) (f : R → R) (rows : List R)
      → Absent id k rows
      → update_where (λ r. id r == k && g r) f rows ≡ (rows, 0)
  unfolding update_where
  update_where-Absent k g f [] h = refl
  update_where-Absent k g f (r ∷ rs) h = ground (arith, update_where-Absent k g f rs h.1)

  -- Where a guarded update by key changes a row, it found the row, the guard held, and the update
  -- is the unguarded one.
  abbrev pub Hit : ℕ → (R → Bool) → (R → R) → List R → Type 0
  Hit k g f rows =
      ((update_where (λ r. id r == k && g r) f rows).0 ≡ adjust_at id k f rows)
      × ((r : R) × (select id k rows ≡ some r) × (g r ≡ true))

  pub update_where-Hit :
      (k : ℕ) (g : R → Bool) (f : R → R) (rows : List R)
      → Keyed id rows
      → (update_where (λ r. id r == k && g r) f rows).1 ≢ 0
      → Hit k g f rows
  unfolding update_where select adjust_at
  update_where-Hit k g f [] d h = absurd (h refl)
  update_where-Hit k g f (r ∷ rs) d h = elim (Bool-cases (id r == k)) [
    | inl e ↦
        let absent : Absent id k rs = subst (λ j. Absent id j rs) ((==_iff (id r) k).0 e) d.0 in
        let skipped = update_where-Absent k g f rs absent in
        let untouched = adjust_at-Absent k f rs absent in
        elim (Bool-cases (g r)) [
          | inl q ↦ (ground (arith, skipped, untouched), (r, ground arith, q))
          | inr q ↦ absurd (h (ground (arith, skipped)))
        ]
    | inr e ↦
        let rest = update_where-Hit k g f rs d.1 (λ z. h (ground arith)) in
        (ground (arith, rest.0), (rest.1.0, ground (arith, rest.1.1), rest.1.2))
  ]

  module _ (f : R → R) (keeps : (r : R) → id (f r) ≡ id r) where
    pub adjust_at-adjust_at :
        (k : ℕ) (g : R → R) (rows : List R)
        → ((r : R) → id (g r) ≡ id r)
        → adjust_at id k f (adjust_at id k g rows) ≡ adjust_at id k (λ r. f (g r)) rows
    unfolding adjust_at
    adjust_at-adjust_at k g [] h = refl
    adjust_at-adjust_at k g (r ∷ rs) h = ground (arith, adjust_at-adjust_at k g rs h, h r)

    adjust_at-keeps_Absent :
        (j k : ℕ) (rows : List R) → Absent id j rows → Absent id j (adjust_at id k f rows)
    unfolding adjust_at
    adjust_at-keeps_Absent j k [] h = tt
    adjust_at-keeps_Absent j k (r ∷ rs) h =
        ground (arith, keeps r, adjust_at-keeps_Absent j k rs h.1)

    pub adjust_at-Keyed : (k : ℕ) (rows : List R) → Keyed id rows → Keyed id (adjust_at id k f rows)
    unfolding adjust_at
    adjust_at-Keyed k [] h = tt
    adjust_at-Keyed k (r ∷ rs) h =
        ground (arith, keeps r, adjust_at-Keyed k rs h.1, adjust_at-keeps_Absent (id r) k rs h.0)

  pub adjust_at-eq_self :
      (k : ℕ) (f : R → R) (rows : List R) → ((r : R) → f r ≡ r) → adjust_at id k f rows ≡ rows
  unfolding adjust_at
  adjust_at-eq_self k f [] h = refl
  adjust_at-eq_self k f (r ∷ rs) h = ground (arith, h r, adjust_at-eq_self k f rs h)
