-- ===== src/Catalog/Entries.antt =====
-- crates/server/src/pipeline.rs: the laws of entries that are inserted one after the other.
use chenni_x_api.Prelude.Int.{ℤ}
use chenni_x_api.Prelude.Lists.{any, find}
use chenni_x_api.Prelude.Sorting.{place, sort_by}
use chenni_x_api.Prelude.Maps.{Map, Eq, get, nat_eq, pair_eq, triple_eq, string_eq}
use chenni_x_api.Prelude.Tests.{◌==◌, ==_iff, ==_refl, Bool-cases, if◌then◌else◌}
use chenni_x_api.Prelude.{
  ℕ, ◌≡◌, refl, ◌∙◌, Bool, true, false, ◌&&◌, ◌||◌, Option, none, some, List, [], ◌∷◌, inl, inr,
  subst, arith,
}

abbrev pub or_else : {A : Type 0} → Option A → Option A → Option A
or_else none b = b
or_else (some a) b = some a

-- The last entry for a key is the one that counts.
pub last_wins :
    {V : Type 0} (f : ℕ → V) (k j : ℕ) (b : Bool) (x : Option V)
    → (if b then some (f k) else (if j == k then some (f j) else x))
      ≡ (if j == k || b then some (f k) else x)
last_wins f k j b x = elim (Bool-cases (j == k)) [
  | inl e ↦ rw ((==_iff j k).0 e, ==_refl k) (ground arith)
  | inr e ↦ rw e
]

-- An entry for a key that no other has.
pub only_one :
    {K V : Type 0} ⦃e : Eq K⦄ (k j : K) (v : V) (m : Map K V) (x : Option V)
    → get j m ≡ none
    → or_else (get k m) (if e.beq j k then some v else x)
      ≡ or_else (if e.beq j k then some v else get k m) x
only_one ⦃e⦄ k j v m x h = elim (Bool-cases (e.beq j k)) [
  | inl b ↦ rw (b, subst (λ i. get i m ≡ none) ((e.beq_iff j k).0 b) h)
  | inr b ↦ rw b
]

pub or_else_again : {A : Type 0} (a x : Option A) → or_else a (or_else a x) ≡ or_else a x
or_else_again none x = refl
or_else_again (some a) x = refl

pub price_step :
    {A : Type 0} (a b e : Bool) (q r x : Option A)
    → ((a && b) ≡ true → r ≡ q)
    → (let y = if a && b then or_else r x else x in if a && e then or_else q y else y)
      ≡ (if a && (b || e) then or_else q x else x)
price_step false b e q r x h = refl
price_step true false e q r x h = refl
price_step true true true q r x h = rw (h refl) (or_else_again q x)
price_step true true false q r x h = rw (h refl)

pub any-place :
    {A : Type 0} (key : A → ℤ) (p : A → Bool) (x : A) (xs : List A)
    → any p (place key x xs) ≡ (p x || any p xs)
unfolding place
any-place key p x [] = refl
any-place key p x (y ∷ ys) = ground (arith, any-place key p x ys)

pub any-sort_by :
    {A : Type 0} (key : A → ℤ) (p : A → Bool) (xs : List A) → any p (sort_by key xs) ≡ any p xs
unfolding sort_by
any-sort_by key p [] = refl
any-sort_by key p (x ∷ xs) = any-place key p x (sort_by key xs) ∙ rw (any-sort_by key p xs)

pub models_step :
    {A : Type 0} (a e f b : Bool) (q x : Option A)
    → (a ≡ true → f ≡ b)
    → (let y = if a && f then or_else q x else x in if e && b then or_else q y else y)
      ≡ (if (a || e) && b then or_else q x else x)
models_step false e f b q x h = refl
models_step true true f true q x h = rw (h refl) (or_else_again q x)
models_step true true f false q x h = rw (h refl)
models_step true false f b q x h = rw (h refl)

pub find-absent : {A : Type 0} (p : A → Bool) (xs : List A) → any p xs ≡ false → find p xs ≡ none
find-absent p [] h = refl
find-absent p (x ∷ xs) h = ground (arith, find-absent p xs)

pub or_none : {A : Type 0} (a : Option A) → or_else a none ≡ a
or_none none = refl
or_none (some a) = refl
