-- ===== src/Prelude/Picks.antt =====
-- Some of the elements of a list, in its order, and lists that grow by such a choice.
use mathlib.Core.Path.{◌≡◌, refl, ap, ◌∙◌}
use mathlib.Core.List.{List, [], ◌∷◌, ◌++◌, append_assoc}

pub data Picks {A : Type 0} : List A → List A → Type 0 where
  none_left : (ys : List A) → Picks [] ys
  pick : {xs ys : List A} (x : A) → Picks xs ys → Picks (x ∷ xs) (x ∷ ys)
  pass : {xs ys : List A} (y : A) → Picks xs ys → Picks xs (y ∷ ys)

module _ {A : Type 0} where
  Picks-skip : {ys vs : List A} (us : List A) → Picks ys vs → Picks ys (us ++ vs)
  Picks-skip [] q = q
  Picks-skip (u ∷ us) q = pass u (Picks-skip us q)

  Picks-append : {xs ys us vs : List A} → Picks xs us → Picks ys vs → Picks (xs ++ ys) (us ++ vs)
  Picks-append (none_left us) q = Picks-skip us q
  Picks-append (pick x p) q = pick x (Picks-append p q)
  Picks-append (pass y p) q = pass y (Picks-append p q)

  -- `later` is `before` and some of the names, in their order.
  abbrev pub Adds : List A → List A → List A → Type 0
  Adds before names later = (new : List A) × (later ≡ before ++ new) × Picks new names

  append_nil : (xs : List A) → xs ≡ xs ++ []
  append_nil [] = refl
  append_nil (x ∷ xs) = ap (λ l. x ∷ l) (append_nil xs)

  pub Adds-none : (before names : List A) → Adds before names before
  Adds-none before names = ([], append_nil before, none_left names)

  pub Adds-then :
      (before us vs mid later : List A)
      → Adds before us mid
      → Adds mid vs later
      → Adds before (us ++ vs) later
  Adds-then before us vs mid later (xs, e, p) (ys, f, q) =
      (xs ++ ys, f ∙ ap (λ l. l ++ ys) e ∙ append_assoc before xs ys, Picks-append p q)
