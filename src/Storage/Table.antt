-- ===== src/Storage/Table.antt =====
-- SQL on a table as a list of rows. `INTEGER` columns are integers; a statement that SQLite
-- refuses is an argument of the methods that run it.
use chenni_x_api.Prelude.Tests.{◌==◌, if◌then◌else◌}
use chenni_x_api.Prelude.{ℕ, suc, ◌≡◌, Bool, false, Option, none, some, List, [], ◌∷◌}

module _ {R : Type 0} where
  -- `UPDATE .. SET f WHERE p`, with the number of rows that it changed.
  unfoldable pub update_where : (R → Bool) → (R → R) → List R → List R × ℕ
  update_where p f [] = ([], 0)
  update_where p f (r ∷ rs) =
      let (rs', n) = update_where p f rs in if p r then (f r ∷ rs', suc n) else (r ∷ rs', n)

  module _ (id : R → ℕ) where
    -- `SELECT .. WHERE id = k`.
    unfoldable pub select : ℕ → List R → Option R
    select k [] = none
    select k (r ∷ rs) = if id r == k then some r else select k rs

    -- No row of the table has the id.
    abbrev pub Absent : ℕ → List R → Type 0
    Absent k [] = Unit
    Absent k (r ∷ rs) = ((id r == k) ≡ false) × Absent k rs

    -- `INTEGER PRIMARY KEY`.
    abbrev pub Keyed : List R → Type 0
    Keyed [] = Unit
    Keyed (r ∷ rs) = Absent (id r) rs × Keyed rs

    -- Every row with the id is rewritten.
    unfoldable pub adjust_at : ℕ → (R → R) → List R → List R
    adjust_at k f [] = []
    adjust_at k f (r ∷ rs) = (if id r == k then f r else r) ∷ adjust_at k f rs
