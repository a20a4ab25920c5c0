-- ===== src/Prelude/Int.antt =====
-- The signed 64-bit integers of the source (`i64`, `i32`), as integers over the native numbers.
-- `wrap_i64` is the wrap-around of 64-bit two's complement.
use Prim.Native.Nat.{ℕ, suc, ◌+◌, ◌-◌, ◌%◌, ◌≤◌, ◌<◌}
use mathlib.Core.Path.{◌≡◌}
use mathlib.Core.Bool.{Bool}
use mathlib.Core.Logic.{◌⊎◌}
use native.Mathlib.Omega.{arith}
use chenni_x_api.Prelude.Tests.{ltb, leb, if◌then◌else◌, ◌==◌}

-- `negsuc n` is -(n + 1).
pub data ℤ : Type 0 where
  pos : ℕ → ℤ
  negsuc : ℕ → ℤ

abbrev pub pos_part : ℤ → ℕ
pos_part (pos n) = n
pos_part (negsuc _) = 0

abbrev pub neg_part : ℤ → ℕ
neg_part (pos _) = 0
neg_part (negsuc n) = suc n

-- a - b, as an integer.
abbrev pub sub_ℕ : ℕ → ℕ → ℤ
sub_ℕ a b = if leb b a then pos (a - b) else negsuc (b - a - 1)

infixl 65 ◌+ℤ◌ ◌-ℤ◌
infix 50 ◌≤ℤ◌
unfoldable pub ◌+ℤ◌ : ℤ → ℤ → ℤ
a +ℤ b = sub_ℕ (pos_part a + pos_part b) (neg_part a + neg_part b)

unfoldable pub ◌-ℤ◌ : ℤ → ℤ → ℤ
a -ℤ b = sub_ℕ (pos_part a + neg_part b) (neg_part a + pos_part b)

abbrev pub ◌≤ℤ◌ : ℤ → ℤ → Type 0
a ≤ℤ b = pos_part a + neg_part b ≤ pos_part b + neg_part a

abbrev pub ltb_ℤ : ℤ → ℤ → Bool
ltb_ℤ a b = ltb (pos_part a + neg_part b) (pos_part b + neg_part a)

abbrev pub leb_ℤ : ℤ → ℤ → Bool
leb_ℤ a b = leb (pos_part a + neg_part b) (pos_part b + neg_part a)

abbrev pub eqb_ℤ : ℤ → ℤ → Bool
eqb_ℤ a b = (pos_part a + neg_part b) == (pos_part b + neg_part a)

-- With these the operations can stay shut.
pub +ℤ_parts :
    (a b : ℤ)
    → pos_part (a +ℤ b) + neg_part a + neg_part b ≡ neg_part (a +ℤ b) + pos_part a + pos_part b
unfolding ◌+ℤ◌
+ℤ_parts a b = ground arith

pub -ℤ_parts :
    (a b : ℤ)
    → pos_part (a -ℤ b) + neg_part a + pos_part b ≡ neg_part (a -ℤ b) + pos_part a + neg_part b
unfolding ◌-ℤ◌
-ℤ_parts a b = ground arith

pub eq_of_parts : (a b : ℤ) → pos_part a + neg_part b ≡ pos_part b + neg_part a → a ≡ b
eq_of_parts a b h = ground arith

pub ruleset int_laws = (arith, +ℤ_parts, -ℤ_parts, eq_of_parts)

pub -ℤ_cancel : (a b : ℤ) → a +ℤ b -ℤ b ≡ a
-ℤ_cancel a b = omega int_laws

pub +ℤ_cancel : (a b : ℤ) → a -ℤ b +ℤ b ≡ a
+ℤ_cancel a b = omega int_laws

pub leb_ℤ-total : (a b : ℤ) → (a ≤ℤ b) ⊎ (b ≤ℤ a)
leb_ℤ-total a b = omega arith

-- 2 ^ 63 and 2 ^ 64.
abbrev pub i64_half : ℕ
i64_half = 9_223_372_036_854_775_808

abbrev pub i64_mod : ℕ
i64_mod = 18_446_744_073_709_551_616

-- The value of a 64-bit pattern.
unfoldable pub from_bits : ℕ → ℤ
from_bits m = if ltb m i64_half then pos m else negsuc (i64_mod - m - 1)

-- `as i64` of an integer that is out of range, and the result of `+`, `-` in a release build.
unfoldable pub wrap_i64 : ℤ → ℤ
unfolding from_bits
wrap_i64 (pos n) = from_bits (n % i64_mod)
wrap_i64 (negsuc n) = from_bits (i64_mod - 1 - n % i64_mod)

-- `as i32`.
unfoldable pub wrap_i32 : ℤ → ℤ
wrap_i32 (pos n) =
    let m = n % 4_294_967_296 in if ltb m 2_147_483_648 then pos m else negsuc (4_294_967_295 - m)
wrap_i32 (negsuc n) =
    let m = n % 4_294_967_296 in if ltb m 2_147_483_648 then negsuc m else pos (4_294_967_295 - m)

-- `i64::saturating_add`.
unfoldable pub saturating_add : ℤ → ℤ → ℤ
saturating_add a b =
    if leb i64_half (pos_part (a +ℤ b))
    then pos (i64_half - 1)
    else if ltb i64_half (neg_part (a +ℤ b))
    then negsuc (i64_half - 1)
    else a +ℤ b

pub record InI64 (a : ℤ) : Type 0 where
  pub above : neg_part a ≤ i64_half
  pub below : pos_part a < i64_half

pub wrap_i64-eq : (a : ℤ) → InI64 a → wrap_i64 a ≡ a
unfolding wrap_i64
wrap_i64-eq (pos n) h = ground arith
wrap_i64-eq (negsuc n) h = ground arith

-- The difference of two non-negative 64-bit integers is a 64-bit integer.
pub -ℤ-InI64 : (a b : ℤ) → InI64 a → InI64 b → pos 0 ≤ℤ a → pos 0 ≤ℤ b → InI64 (a -ℤ b)
unfolding ◌-ℤ◌
-ℤ-InI64 (pos a) (pos b) h k p q = ground arith
-ℤ-InI64 (negsuc a) b h k p q = absurd (omega arith)
-ℤ-InI64 (pos a) (negsuc b) h k p q = absurd (omega arith)

pub add-sub_cancel : (a b : ℤ) → b +ℤ (a -ℤ b) ≡ a
add-sub_cancel a b = omega int_laws

pub +ℤ_assoc : (a b c : ℤ) → a +ℤ b +ℤ c ≡ a +ℤ (b +ℤ c)
+ℤ_assoc a b c = omega int_laws

pub -ℤ_assoc : (a b c : ℤ) → a -ℤ b -ℤ c ≡ a -ℤ (b +ℤ c)
-ℤ_assoc a b c = omega int_laws

pub +ℤ_zero : (a : ℤ) → a +ℤ pos 0 ≡ a
+ℤ_zero a = omega int_laws

pub -ℤ_zero : (a : ℤ) → a -ℤ pos 0 ≡ a
-ℤ_zero a = omega int_laws

pub sub-eq-add_neg : (a b : ℤ) → a -ℤ b ≡ a +ℤ (pos 0 -ℤ b)
sub-eq-add_neg a b = omega int_laws

pub add-eq-sub_neg : (a b : ℤ) → a +ℤ b ≡ a -ℤ (pos 0 -ℤ b)
add-eq-sub_neg a b = omega int_laws

-- An integer of 32 bits is kept.
pub wrap_i32-eq : (n : ℕ) → n < 2_147_483_648 → wrap_i32 (pos n) ≡ pos n
unfolding wrap_i32
wrap_i32-eq n h = ground arith
