-- ===== src/Prelude/Int64.antt =====
-- Go's int64: an integer, with each result of the arithmetic wrapped to 64 bits.
use Prim.Native.Nat.{ℕ, suc, ◌+◌, ◌-◌, ◌%◌, ◌^◌, ◌≤◌, ◌<◌}
use mathlib.Core.Path.{◌≡◌}
use mathlib.Core.Bool.{Bool}
use native.Mathlib.Omega.{arith}
use dcr.Prelude.Tests.{ltb, leb, if◌then◌else◌}

-- `negsuc n` is -(n + 1).
pub data ℤ : Type 0 where
  pos : ℕ → ℤ
  negsuc : ℕ → ℤ

abbrev pub pos_part : ℤ → ℕ
pos_part (pos n) = n
pos_part (negsuc n) = 0

abbrev pub neg_part : ℤ → ℕ
neg_part (pos n) = 0
neg_part (negsuc n) = suc n

-- a - b, as an integer.
abbrev pub sub_ℕ : ℕ → ℕ → ℤ
sub_ℕ a b = if leb b a then pos (a - b) else negsuc (b - a - 1)

infixl 65 ◌+ℤ◌ ◌-ℤ◌
infix 50 ◌≤ℤ◌ ◌<ℤ◌
unfoldable pub ◌+ℤ◌ : ℤ → ℤ → ℤ
a +ℤ b = sub_ℕ (pos_part a + pos_part b) (neg_part a + neg_part b)

unfoldable pub ◌-ℤ◌ : ℤ → ℤ → ℤ
a -ℤ b = sub_ℕ (pos_part a + neg_part b) (neg_part a + pos_part b)

abbrev pub ◌≤ℤ◌ : ℤ → ℤ → Type 0
a ≤ℤ b = pos_part a + neg_part b ≤ pos_part b + neg_part a

abbrev pub ◌<ℤ◌ : ℤ → ℤ → Type 0
a <ℤ b = pos_part a + neg_part b < pos_part b + neg_part a

abbrev pub ltb_ℤ : ℤ → ℤ → Bool
ltb_ℤ a b = ltb (pos_part a + neg_part b) (pos_part b + neg_part a)

abbrev pub leb_ℤ : ℤ → ℤ → Bool
leb_ℤ a b = leb (pos_part a + neg_part b) (pos_part b + neg_part a)

abbrev pub int64_half : ℕ
int64_half = 2 ^ 63

-- Two's complement: the value of the low 64 bits.
unfoldable pub wrap : ℤ → ℤ
wrap (pos n) = let r = n % 2 ^ 64 in if ltb r int64_half then pos r else negsuc (2 ^ 64 - 1 - r)
wrap (negsuc n) = let r = n % 2 ^ 64 in if ltb r int64_half then negsuc r else pos (2 ^ 64 - 1 - r)

-- The values that an int64 holds.
abbrev pub IsInt64 : ℤ → Type 0
IsInt64 (pos n) = n < int64_half
IsInt64 (negsuc n) = n < int64_half

-- Go's `a + b` and `a - b` on int64.
abbrev pub add64 : ℤ → ℤ → ℤ
add64 a b = wrap (a +ℤ b)

abbrev pub sub64 : ℤ → ℤ → ℤ
sub64 a b = wrap (a -ℤ b)

pub +ℤ_parts :
    (a b : ℤ)
    → pos_part (a +ℤ b) + neg_part a + neg_part b ≡ neg_part (a +ℤ b) + pos_part a + pos_part b
unfolding ◌+ℤ◌
+ℤ_parts a b = ground arith

pub -ℤ_parts :
    (a b : ℤ)
    → pos_part (a -ℤ b) + neg_part a + pos_part b ≡ neg_part (a -ℤ b) + pos_part a + neg_part b
unfolding ◌-ℤ◌
-ℤ_parts a b = ground arith

pub eq_of_parts : (a b : ℤ) → pos_part a + neg_part b ≡ pos_part b + neg_part a → a ≡ b
eq_of_parts a b h = ground arith

pub ruleset int_laws = (arith, +ℤ_parts, -ℤ_parts, eq_of_parts)

pub wrap_of_IsInt64 : (a : ℤ) → IsInt64 a → wrap a ≡ a
unfolding wrap
wrap_of_IsInt64 (pos n) h = ground arith
wrap_of_IsInt64 (negsuc n) h = ground arith

pub wrap-IsInt64 : (a : ℤ) → IsInt64 (wrap a)
unfolding wrap
wrap-IsInt64 (pos n) = ground arith
wrap-IsInt64 (negsuc n) = ground arith

-- An integer between two bounds of the type is a value of it.
pub IsInt64-of_bounds : (a : ℤ) → pos_part a < int64_half → neg_part a ≤ int64_half → IsInt64 a
IsInt64-of_bounds (pos n) h k = h
IsInt64-of_bounds (negsuc n) h k = omega arith

-- Sums and differences of values of zero or more that fit are exact.
pub add64_exact :
    (a b : ℤ) → pos 0 ≤ℤ a → pos 0 ≤ℤ b → pos_part a + pos_part b < int64_half → add64 a b ≡ a +ℤ b
unfolding wrap ◌+ℤ◌
add64_exact a b p q h = ground arith

pub sub64_exact : (a b : ℤ) → pos 0 ≤ℤ b → b ≤ℤ a → pos_part a < int64_half → sub64 a b ≡ a -ℤ b
unfolding wrap ◌-ℤ◌
sub64_exact a b p q h = ground arith

pub pos_part_mono : (a b : ℤ) → a ≤ℤ b → pos_part a ≤ pos_part b
pos_part_mono a b h = ground arith

pub pos_part-add_lt : (a b : ℤ) {n : ℕ} → pos_part a + pos_part b < n → pos_part (a +ℤ b) < n
unfolding ◌+ℤ◌
pos_part-add_lt a b h = ground arith

pub pos_part-add_le : (a b : ℤ) → pos_part (a +ℤ b) ≤ pos_part a + pos_part b
unfolding ◌+ℤ◌
pos_part-add_le a b = ground arith
