-- ===== src/Prelude/Sorting.antt =====
-- `slice::sort_by` on an integer key: the stable sort. Any stable sort gives this list.
use mathlib.Core.List.Perm
use chenni_x_api.Prelude.Tests.{if◌then◌else◌, Bool-cases}
use chenni_x_api.Prelude.Int.{ℤ, ◌≤ℤ◌, leb_ℤ, eqb_ℤ}
use chenni_x_api.Prelude.Lists.{length, keep_if, is_empty, All, All-keep_if}
use chenni_x_api.Prelude.{
  suc, ◌≡◌, refl, ap, ◌∙◌, inl, inr, Bool, false, List, [], ◌∷◌, Perm, arith,
}

module _ {A : Type 0} (key : A → ℤ) where
  -- Before the first element whose key is not smaller.
  unfoldable pub place : A → List A → List A
  place x [] = x ∷ []
  place x (y ∷ ys) = if leb_ℤ (key x) (key y) then x ∷ y ∷ ys else y ∷ place x ys

  unfoldable pub sort_by : List A → List A
  unfolding place
  sort_by [] = []
  sort_by (x ∷ xs) = place x (sort_by xs)

  abbrev pub IsSortedBy : List A → Type 0
  IsSortedBy [] = Unit
  IsSortedBy (x ∷ xs) = All (λ y. key x ≤ℤ key y) xs × IsSortedBy xs

  All-le_trans :
      (a b : ℤ) (xs : List A) → a ≤ℤ b → All (λ y. b ≤ℤ key y) xs → All (λ y. a ≤ℤ key y) xs
  All-le_trans a b [] h s = tt
  All-le_trans a b (x ∷ xs) h s = (omega arith, All-le_trans a b xs h s.1)

  All-place :
      (a : ℤ) (x : A) (xs : List A)
      → a ≤ℤ key x
      → All (λ y. a ≤ℤ key y) xs
      → All (λ y. a ≤ℤ key y) (place x xs)
  unfolding place
  All-place a x [] h s = (h, tt)
  All-place a x (y ∷ ys) h s = ground (arith, All-place a x ys h s.1)

  place-IsSortedBy : (x : A) (xs : List A) → IsSortedBy xs → IsSortedBy (place x xs)
  unfolding place
  place-IsSortedBy x [] s = (tt, tt)
  place-IsSortedBy x (y ∷ ys) s =
      ground
        (arith, All-le_trans (key x) (key y) ys, All-place (key y) x ys, place-IsSortedBy x ys s.1)

  pub sort_by-IsSortedBy : (xs : List A) → IsSortedBy (sort_by xs)
  unfolding sort_by
  sort_by-IsSortedBy [] = tt
  sort_by-IsSortedBy (x ∷ xs) = place-IsSortedBy x (sort_by xs) (sort_by-IsSortedBy xs)

  length-place : (x : A) (xs : List A) → length (place x xs) ≡ suc (length xs)
  unfolding place
  length-place x [] = refl
  length-place x (y ∷ ys) = ground (arith, length-place x ys)

  place-perm : (x : A) (xs : List A) → Perm (place x xs) (x ∷ xs)
  unfolding place
  place-perm x [] = Perm.refl (x ∷ [])
  place-perm x (y ∷ ys) = elim (Bool-cases (leb_ℤ (key x) (key y))) [
    | inl h ↦ rw h (Perm.refl (x ∷ y ∷ ys))
    | inr h ↦ rw h (Perm.trans (Perm.cons y (place-perm x ys)) (Perm.swap x y ys))
  ]

  pub sort_by-perm : (xs : List A) → Perm (sort_by xs) xs
  unfolding sort_by
  sort_by-perm [] = Perm.nil
  sort_by-perm (x ∷ xs) = Perm.trans (place-perm x (sort_by xs)) (Perm.cons x (sort_by-perm xs))

  pub length-sort_by : (xs : List A) → length (sort_by xs) ≡ length xs
  unfolding sort_by
  length-sort_by [] = refl
  length-sort_by (x ∷ xs) = length-place x (sort_by xs) ∙ ap suc (length-sort_by xs)

  All-placed : (P : A → Type 0) (x : A) (xs : List A) → P x → All P xs → All P (place x xs)
  unfolding place
  All-placed P x [] h s = (h, tt)
  All-placed P x (y ∷ ys) h s = ground (arith, All-placed P x ys h s.1)

  pub All-sort_by : (P : A → Type 0) (xs : List A) → All P xs → All P (sort_by xs)
  unfolding sort_by
  All-sort_by P [] h = tt
  All-sort_by P (x ∷ xs) h = All-placed P x (sort_by xs) h.0 (All-sort_by P xs h.1)

  is_empty-place : (x : A) (xs : List A) → is_empty (place x xs) ≡ false
  unfolding place
  is_empty-place x [] = refl
  is_empty-place x (y ∷ ys) = ground arith

  pub is_empty-sort_by : (xs : List A) → is_empty xs ≡ false → is_empty (sort_by xs) ≡ false
  unfolding sort_by
  is_empty-sort_by [] h = h
  is_empty-sort_by (x ∷ xs) h = is_empty-place x (sort_by xs)

  -- Elements of one key.
  abbrev pub with_key : ℤ → List A → List A
  with_key k = keep_if (λ x. eqb_ℤ (key x) k)

  place-stable : (k : ℤ) (x : A) (xs : List A) → with_key k (place x xs) ≡ with_key k (x ∷ xs)
  unfolding place
  place-stable k x [] = refl
  place-stable k x (y ∷ ys) = ground (arith, place-stable k x ys)

  -- The sort is stable: elements of equal key keep their order.
  pub sort_by-stable : (k : ℤ) (xs : List A) → with_key k (sort_by xs) ≡ with_key k xs
  unfolding sort_by
  sort_by-stable k [] = refl
  sort_by-stable k (x ∷ xs) = place-stable k x (sort_by xs) ∙ ground (arith, sort_by-stable k xs)

  place-smallest : (x : A) (xs : List A) → All (λ y. key x ≤ℤ key y) xs → place x xs ≡ x ∷ xs
  unfolding place
  place-smallest x [] h = refl
  place-smallest x (y ∷ ys) h = ground (arith, h.0)

  -- A sorted list is sorted already.
  pub sort_by-sorted : (xs : List A) → IsSortedBy xs → sort_by xs ≡ xs
  unfolding sort_by
  sort_by-sorted [] h = refl
  sort_by-sorted (x ∷ xs) h = rw (sort_by-sorted xs h.1) (place-smallest x xs h.0)

  pub keep_if-IsSortedBy : (p : A → Bool) (xs : List A) → IsSortedBy xs → IsSortedBy (keep_if p xs)
  keep_if-IsSortedBy p [] h = tt
  keep_if-IsSortedBy p (x ∷ xs) h = elim (Bool-cases (p x)) [
    | inl e ↦ rw e (
      All-keep_if (λ y. key x ≤ℤ key y) (λ y. key x ≤ℤ key y) p (λ y l _. l) xs h.0,
      keep_if-IsSortedBy p xs h.1,
    )
    | inr e ↦ rw e (keep_if-IsSortedBy p xs h.1)
  ]
