-- ===== src/Prelude/Maps.antt =====
-- `HashMap` as an association list. Keys are compared through an instance.
use Prim.Native.Nat.{ℕ}
use Prim.Native.String.{String}
use mathlib.Core.Path.{◌≡◌, refl, ◌∙◌}
use mathlib.Core.Logic.{◌↔◌, inl, inr}
use mathlib.Core.Bool.{Bool, true, ◌&&◌}
use mathlib.Core.Option
use mathlib.Core.Option.{Option, none, some}
use mathlib.Core.List.{List, [], ◌∷◌}
use native.Mathlib.Omega.{arith}
use text.Mathlib.Text.{◌==◌ as str_eq}
use text.Mathlib.TextEquality.{eq_iff}
use chenni_x_api.Prelude.Tests.{◌==◌, ==_iff, if◌then◌else◌, Bool-cases}

pub record Eq {ℓ} (A : Type ℓ) : Type ℓ where
  pub beq : A → A → Bool
  pub beq_iff : (a b : A) → (beq a b ≡ true) ↔ (a ≡ b)

instance abbrev pub nat_eq : Eq ℕ
nat_eq = record { beq = λ a b. a == b; beq_iff = ==_iff }

instance abbrev pub string_eq : Eq String
string_eq = record { beq = str_eq; beq_iff = eq_iff }

-- The keys `(i64, String)` of the caches.
abbrev pub pair_beq : ℕ × String → ℕ × String → Bool
pair_beq (a, s) (b, t) = a == b && str_eq s t

pub pair_beq_iff : (p q : ℕ × String) → (pair_beq p q ≡ true) ↔ (p ≡ q)
pair_beq_iff (a, s) (b, t) = (λ h. ground (arith, eq_iff s t), λ h. ground (arith, eq_iff s t))

instance abbrev pub pair_eq : Eq (ℕ × String)
pair_eq = record { beq = pair_beq; beq_iff = pair_beq_iff }

-- The keys `(i64, i64, String)` of the price table.
abbrev pub triple_beq : ℕ × ℕ × String → ℕ × ℕ × String → Bool
triple_beq (a, b, s) (c, d, t) = a == c && (b == d && str_eq s t)

pub triple_beq_iff : (p q : ℕ × ℕ × String) → (triple_beq p q ≡ true) ↔ (p ≡ q)
triple_beq_iff (a, b, s) (c, d, t) =
    (λ h. ground (arith, eq_iff s t), λ h. ground (arith, eq_iff s t))

instance abbrev pub triple_eq : Eq (ℕ × ℕ × String)
triple_eq = record { beq = triple_beq; beq_iff = triple_beq_iff }

abbrev pub Map {ℓ κ} : Type ℓ → Type κ → Type (ℓ ⊔ κ)
Map K V = List (K × V)

pub beq_refl {ℓ} : {K : Type ℓ} ⦃e : Eq K⦄ (k : K) → e.beq k k ≡ true
beq_refl ⦃e⦄ k = (e.beq_iff k k).1 refl

abbrev pub keep_some {ℓ} : {V : Type ℓ} → (V → Bool) → Option V → Option V
keep_some p none = none
keep_some p (some v) = if p v then some v else none

module _ {ℓ κ} {K : Type ℓ} {V : Type κ} ⦃e : Eq K⦄ where
  unfoldable pub get : K → Map K V → Option V
  get k [] = none
  get k ((j, v) ∷ m) = if e.beq j k then some v else get k m

  unfoldable pub insert : K → V → Map K V → Map K V
  insert k v [] = (k, v) ∷ []
  insert k v ((j, w) ∷ m) = if e.beq j k then (k, v) ∷ m else (j, w) ∷ insert k v m

  unfoldable pub remove : K → Map K V → Map K V
  remove k [] = []
  remove k ((j, v) ∷ m) = if e.beq j k then remove k m else (j, v) ∷ remove k m

  -- `values_mut`: every value is rewritten in place.
  unfoldable pub map_values : (V → V) → Map K V → Map K V
  map_values f [] = []
  map_values f ((j, v) ∷ m) = (j, f v) ∷ map_values f m

  unfoldable pub retain : (V → Bool) → Map K V → Map K V
  retain p [] = []
  retain p ((j, v) ∷ m) = if p v then (j, v) ∷ retain p m else retain p m

  -- No key is listed twice.
  abbrev pub Distinct : Map K V → Type κ
  Distinct [] = Unit
  Distinct ((k, v) ∷ m) = (get k m ≡ none) × Distinct m

  pub get-insert :
      (j k : K) (v : V) (m : Map K V)
      → get j (insert k v m) ≡ (if e.beq k j then some v else get j m)
  unfolding get insert
  get-insert j k v [] = refl
  get-insert j k v ((i, w) ∷ m) =
      ground (arith, e.beq_iff k j, e.beq_iff i k, e.beq_iff i j, get-insert j k v m)

  pub get-insert_self : (k : K) (v : V) (m : Map K V) → get k (insert k v m) ≡ some v
  get-insert_self k v m = rw (get-insert k k v m, beq_refl k)

  pub get-remove :
      (j k : K) (m : Map K V) → get j (remove k m) ≡ (if e.beq k j then none else get j m)
  unfolding get remove
  get-remove j k [] = ground arith
  get-remove j k ((i, w) ∷ m) =
      ground (arith, e.beq_iff k j, e.beq_iff i k, e.beq_iff i j, get-remove j k m)

  pub get-map_values :
      (k : K) (f : V → V) (m : Map K V) → get k (map_values f m) ≡ Option.map f (get k m)
  unfolding get map_values
  get-map_values k f [] = refl
  get-map_values k f ((j, v) ∷ m) = elim (Bool-cases (e.beq j k)) [
    | inl h ↦ rw h
    | inr h ↦ rw h (get-map_values k f m)
  ]

  pub get-retain-none :
      (k : K) (p : V → Bool) (m : Map K V) → get k m ≡ none → get k (retain p m) ≡ none
  unfolding get retain
  get-retain-none k p [] h = refl
  get-retain-none k p ((j, v) ∷ m) h = ground (arith, get-retain-none k p m)

  pub get-retain :
      (k : K) (p : V → Bool) (m : Map K V) → Distinct m → get k (retain p m) ≡ keep_some p (get k m)
  unfolding get retain
  get-retain k p [] d = refl
  get-retain k p ((j, v) ∷ m) d =
      ground (arith, e.beq_iff j k, get-retain k p m d.1, get-retain-none j p m d.0)

  pub insert-Distinct : (k : K) (v : V) (m : Map K V) → Distinct m → Distinct (insert k v m)
  unfolding get insert
  insert-Distinct k v [] d = (refl, tt)
  insert-Distinct k v ((j, w) ∷ m) d =
      ground (arith, e.beq_iff j k, e.beq_iff k j, insert-Distinct k v m d.1, get-insert j k v m)

  pub retain-Distinct : (p : V → Bool) (m : Map K V) → Distinct m → Distinct (retain p m)
  unfolding retain
  retain-Distinct p [] d = tt
  retain-Distinct p ((j, v) ∷ m) d =
      ground (arith, retain-Distinct p m d.1, get-retain-none j p m d.0)

  pub map_values-Distinct : (f : V → V) (m : Map K V) → Distinct m → Distinct (map_values f m)
  unfolding map_values
  map_values-Distinct f [] d = tt
  map_values-Distinct f ((j, v) ∷ m) d =
      (get-map_values j f m ∙ rw d.0, map_values-Distinct f m d.1)
