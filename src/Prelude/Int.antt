-- ===== src/Prelude/Int.antt =====
-- Signed integers over the native numbers, for the `int64` and `int32` values of the source.
-- Sums and orders go through the two parts of an integer, which are numbers that `omega` reads.
use Prim.Native.Nat.{ℕ, suc, ◌+◌, ◌-◌, ◌*◌, ◌/◌, ◌%◌, ◌^◌, ◌≤◌, ◌<◌}
use mathlib.Core.Path.{◌≡◌, refl}
use mathlib.Core.Bool.{Bool, true, false}
use native.Mathlib.Omega.{arith}
use kosmos_v.Prelude.Tests.{ltb, leb, if◌then◌else◌}

-- `negsuc n` is -(n + 1).
pub data ℤ : Type 0 where
  pos : ℕ → ℤ
  negsuc : ℕ → ℤ

abbrev pub pos_part : ℤ → ℕ
pos_part (pos n) = n
pos_part (negsuc n) = 0

abbrev pub neg_part : ℤ → ℕ
neg_part (pos n) = 0
neg_part (negsuc n) = suc n

-- a - b, as an integer.
abbrev pub sub_ℕ : ℕ → ℕ → ℤ
sub_ℕ a b = if leb b a then pos (a - b) else negsuc (b - a - 1)

infixl 65 ◌+ℤ◌ ◌-ℤ◌
infix 50 ◌≤ℤ◌ ◌<ℤ◌
unfoldable pub ◌+ℤ◌ : ℤ → ℤ → ℤ
a +ℤ b = sub_ℕ (pos_part a + pos_part b) (neg_part a + neg_part b)

unfoldable pub ◌-ℤ◌ : ℤ → ℤ → ℤ
a -ℤ b = sub_ℕ (pos_part a + neg_part b) (neg_part a + pos_part b)

abbrev pub ◌≤ℤ◌ : ℤ → ℤ → Type 0
a ≤ℤ b = pos_part a + neg_part b ≤ pos_part b + neg_part a

abbrev pub ◌<ℤ◌ : ℤ → ℤ → Type 0
a <ℤ b = pos_part a + neg_part b < pos_part b + neg_part a

abbrev pub ltb_ℤ : ℤ → ℤ → Bool
ltb_ℤ a b = ltb (pos_part a + neg_part b) (pos_part b + neg_part a)

abbrev pub leb_ℤ : ℤ → ℤ → Bool
leb_ℤ a b = leb (pos_part a + neg_part b) (pos_part b + neg_part a)

-- One lemma for each operation lets `omega` work with the operations shut, at any depth.
pub +ℤ_parts :
    (a b : ℤ)
    → pos_part (a +ℤ b) + neg_part a + neg_part b ≡ neg_part (a +ℤ b) + pos_part a + pos_part b
unfolding ◌+ℤ◌
+ℤ_parts a b = ground arith

pub -ℤ_parts :
    (a b : ℤ)
    → pos_part (a -ℤ b) + neg_part a + pos_part b ≡ neg_part (a -ℤ b) + pos_part a + neg_part b
unfolding ◌-ℤ◌
-ℤ_parts a b = ground arith

pub eq_of_parts : (a b : ℤ) → pos_part a + neg_part b ≡ pos_part b + neg_part a → a ≡ b
eq_of_parts a b h = ground arith

-- At most one part of an integer is not 0.
pub parts_exclusive : (a : ℤ) → 0 < pos_part a → neg_part a ≡ 0
parts_exclusive (pos n) h = refl
parts_exclusive (negsuc n) h = elim h [ ]

pub ruleset int_laws = (arith, +ℤ_parts, -ℤ_parts, eq_of_parts)

pub ltb_ℤ→lt : (a b : ℤ) → ltb_ℤ a b ≡ true → a <ℤ b
ltb_ℤ→lt a b h = ground arith

pub not-ltb_ℤ→le : (a b : ℤ) → ltb_ℤ a b ≡ false → b ≤ℤ a
not-ltb_ℤ→le a b h = ground arith

-- The sum of two integers that are not negative.
pub +ℤ_counts :
    (a b : ℤ)
    → neg_part a ≡ 0
    → neg_part b ≡ 0
    → (neg_part (a +ℤ b) ≡ 0) × (pos_part (a +ℤ b) ≡ pos_part a + pos_part b)
unfolding ◌+ℤ◌
+ℤ_counts a b h k = ground arith

pub pos-pos_part : (a : ℤ) → neg_part a ≡ 0 → a ≡ pos (pos_part a)
pos-pos_part a h = ground arith

infixl 70 ◌*ℤ◌
unfoldable pub ◌*ℤ◌ : ℤ → ℤ → ℤ
a *ℤ b =
    sub_ℕ (pos_part a * pos_part b + neg_part a * neg_part b)
      (pos_part a * neg_part b + neg_part a * pos_part b)

-- The signed number of a word of 64 bits.
abbrev pub signed : ℕ → ℤ
signed n = if ltb n (2 ^ 63) then pos n else negsuc (2 ^ 64 - 1 - n)

-- The wrap-around of `int` and `int64`.
unfoldable pub wrap_int64 : ℤ → ℤ
wrap_int64 (pos n) = signed (n % 2 ^ 64)
wrap_int64 (negsuc n) = signed (2 ^ 64 - 1 - n % 2 ^ 64)

-- Go's `/`, which rounds towards zero, of a divisor that is not 0.
unfoldable pub quotient : ℤ → ℤ → ℤ
quotient (pos a) b = sub_ℕ (a / pos_part b) (a / neg_part b)
quotient (negsuc a) b = sub_ℕ (suc a / neg_part b) (suc a / pos_part b)

pub wrap_int64-pos : (n : ℕ) → n < 2 ^ 63 → wrap_int64 (pos n) ≡ pos n
unfolding wrap_int64
wrap_int64-pos n h = ground arith

pub *ℤ-pos : (a b : ℕ) → pos a *ℤ pos b ≡ pos (a * b)
unfolding ◌*ℤ◌
*ℤ-pos a b = ground arith

pub +ℤ-pos : (a b : ℕ) → pos a +ℤ pos b ≡ pos (a + b)
unfolding ◌+ℤ◌
+ℤ-pos a b = ground arith

pub quotient-pos : (a b : ℕ) → quotient (pos a) (pos b) ≡ pos (a / b)
unfolding quotient
quotient-pos a b = ground arith
