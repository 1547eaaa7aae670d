-- ===== src/Float/Clamp.antt =====
-- Clamping a float between two integers, and converting the result to an integer.
use kosmos_v.Prelude.{ℕ, ◌+◌, ◌-◌, ◌^◌, ◌≤◌, ◌<◌, ◌≡◌, refl, ◌≢◌, inl, inr, true, false, arith}
use kosmos_v.Prelude.Tests.{Bool-cases}
use kosmos_v.Prelude.Int.{ℤ, pos, negsuc, pos_part, neg_part, ◌≤ℤ◌, ◌<ℤ◌}
use kosmos_v.Float.{
  Fraction, Float64, finite, pos_inf, neg_inf, nan, Machine, of_ℤ, leb_fraction, of_int, max, min,
  trunc, in_range, to_int, half_int32, div, over_fraction, den,
}
use kosmos_v.Float.Order.{◌≼◌, IsIeee, ≼_trans, le-trunc, trunc-le}

-- The float is a finite value between two integers.
abbrev pub Within : ℤ → ℤ → Float64 → Type 0
Within lo hi f = (q : Fraction) × (f ≡ finite q) × (of_ℤ lo ≼ q) × (q ≼ of_ℤ hi)

-- The integer is one that floats hold exactly.
abbrev pub IsExact : ℤ → Type 0
IsExact z = pos_part z + neg_part z ≤ 2 ^ 53

in_range_between :
    (half : ℕ) (lo hi z : ℤ)
    → in_range half lo ≡ true
    → in_range half hi ≡ true
    → lo ≤ℤ z
    → z ≤ℤ hi
    → in_range half z ≡ true
in_range_between half lo hi (pos n) a b h k = ground arith
in_range_between half lo hi (negsuc n) a b h k = ground arith

pub to_int-Within :
    (m : Machine) (half : ℕ) (lo hi : ℤ) (f : Float64)
    → in_range half lo ≡ true
    → in_range half hi ≡ true
    → Within lo hi f
    → (lo ≤ℤ to_int m half f) × (to_int m half f ≤ℤ hi)
unfolding to_int
to_int-Within m half lo hi f a b (q, e, h, k) =
    let above = le-trunc lo q h in
    let below = trunc-le hi q k in
    rw e (rw (in_range_between half lo hi (trunc q) a b above below) (above, below))

pub leb_fraction-≼ : (a b : Fraction) → leb_fraction a b ≡ true → a ≼ b
leb_fraction-≼ a b h = ground arith

pub not-leb_fraction-≼ : (a b : Fraction) → leb_fraction a b ≡ false → b ≼ a
not-leb_fraction-≼ a b h = ground arith

module _ (m : Machine) (ieee : IsIeee m) (lo hi : ℤ) (order : lo ≤ℤ hi) (lo_exact : IsExact lo)
    (hi_exact : IsExact hi) where
  low-≼-high : m.round_off (of_ℤ lo) ≼ m.round_off (of_ℤ hi)
  low-≼-high = ieee.mono (of_ℤ lo) (of_ℤ hi) (omega arith)

  -- The lower end, capped by the upper one.
  cap_low : Within lo hi (min (of_int m hi) (of_int m lo))
  unfolding min
  cap_low =
      let l = m.round_off (of_ℤ lo) in
      let h = m.round_off (of_ℤ hi) in
      let lo_le_l = ieee.exact_above lo lo_exact in
      let h_le_hi = ieee.exact_below hi hi_exact in
      elim (Bool-cases (leb_fraction h l)) [
        | inl b ↦ rw b (h, refl, ≼_trans (of_ℤ lo) l h lo_le_l low-≼-high, h_le_hi)
        | inr b ↦ rw b (l, refl, lo_le_l, ≼_trans l h (of_ℤ hi) low-≼-high h_le_hi)
      ]

  -- A value that is not below the lower end, capped by the upper one.
  cap_above :
      (x : Fraction) → m.round_off (of_ℤ lo) ≼ x → Within lo hi (min (of_int m hi) (finite x))
  unfolding min
  cap_above x l_le_x =
      let l = m.round_off (of_ℤ lo) in
      let h = m.round_off (of_ℤ hi) in
      let lo_le_l = ieee.exact_above lo lo_exact in
      let h_le_hi = ieee.exact_below hi hi_exact in
      elim (Bool-cases (leb_fraction h x)) [
        | inl b ↦ rw b (h, refl, ≼_trans (of_ℤ lo) l h lo_le_l low-≼-high, h_le_hi)
        | inr b ↦ rw b (
          x,
          refl,
          ≼_trans (of_ℤ lo) l x lo_le_l l_le_x,
          ≼_trans x h (of_ℤ hi) (not-leb_fraction-≼ h x b) h_le_hi,
        )
      ]

  clamp_finite : (x : Fraction) → Within lo hi (min (of_int m hi) (max (of_int m lo) (finite x)))
  unfolding max
  clamp_finite x =
      let l = m.round_off (of_ℤ lo) in
      elim (Bool-cases (leb_fraction l x)) [
        | inl a ↦ rw a (cap_above x (leb_fraction-≼ l x a))
        | inr a ↦ rw a cap_low
      ]

  -- Whatever the value, the clamp lands in the interval, unless the value is NaN.
  pub clamp-Within :
      (f : Float64) → f ≢ nan → Within lo hi (min (of_int m hi) (max (of_int m lo) f))
  unfolding max
  clamp-Within (finite x) h = clamp_finite x
  clamp-Within pos_inf h = (
    m.round_off (of_ℤ hi),
    unfold min in refl,
    ≼_trans (of_ℤ lo) (m.round_off (of_ℤ lo)) _ (ieee.exact_above lo lo_exact) low-≼-high,
    ieee.exact_below hi hi_exact,
  )
  clamp-Within neg_inf h = cap_low
  clamp-Within nan h = absurd (h refl)

-- An integer of 32 bits is one that floats hold exactly.
pub int32-IsExact : (z : ℤ) → in_range half_int32 z ≡ true → IsExact z
int32-IsExact (pos n) h = ground arith
int32-IsExact (negsuc n) h = ground arith

-- `int32` of a clamp between two integers of 32 bits lies between them.
pub clamp_bounds :
    (m : Machine) (lo hi : ℤ) (f : Float64)
    → IsIeee m
    → in_range half_int32 lo ≡ true
    → in_range half_int32 hi ≡ true
    → lo ≤ℤ hi
    → f ≢ nan
    → let r = to_int m half_int32 (min (of_int m hi) (max (of_int m lo) f)) in (lo ≤ℤ r) × (r ≤ℤ hi)
clamp_bounds m lo hi f ieee a b order h =
    to_int-Within m half_int32 lo hi _ a b
      (clamp-Within m ieee lo hi order (int32-IsExact lo a) (int32-IsExact hi b) f h)

-- A positive integer stays positive as a float.
pub round_off_pos :
    (m : Machine) (z : ℤ)
    → IsIeee m
    → pos 0 <ℤ z
    → (m.round_off (of_ℤ z)).minus < (m.round_off (of_ℤ z)).plus
round_off_pos m z ieee h =
    let one = of_ℤ (pos 1) in
    let above : one ≼ m.round_off (of_ℤ z) =
      ≼_trans one (m.round_off one) (m.round_off (of_ℤ z)) (ieee.exact_above (pos 1) (omega arith))
        (ieee.mono one (of_ℤ z) (omega arith)) in
    omega arith

-- A quotient of finite values with a positive divisor is finite.
pub div_finite :
    (m : Machine) (a b : Fraction)
    → b.minus < b.plus
    → (q : Fraction) × (div m (finite a) (finite b) ≡ finite q)
unfolding div
div_finite m a b h = (m.round_off (over_fraction a (b.plus - b.minus) (den b)), ground arith)

-- A clamp of a value and of a lower end that are not above a fraction is not above it.
min-max_limit :
    (h l x b : Fraction)
    → l ≼ b
    → x ≼ b
    → (q : Fraction) × (min (finite h) (max (finite l) (finite x)) ≡ finite q) × (q ≼ b)
unfolding min max
min-max_limit h l x b low here = elim (Bool-cases (leb_fraction l x)) [
  | inl a ↦ rw a (elim (Bool-cases (leb_fraction h x)) [
    | inl c ↦ rw c (h, refl, ≼_trans h x b (leb_fraction-≼ h x c) here)
    | inr c ↦ rw c (x, refl, here)
  ])
  | inr a ↦ rw a (elim (Bool-cases (leb_fraction h l)) [
    | inl c ↦ rw c (h, refl, ≼_trans h l b (leb_fraction-≼ h l c) low)
    | inr c ↦ rw c (l, refl, low)
  ])
]

finite-injective : {p q : Fraction} → finite p ≡ finite q → p ≡ q
finite-injective e = cc

to_int-limit :
    (m : Machine) (lo hi b : ℤ) (f : Float64)
    → in_range half_int32 lo ≡ true
    → in_range half_int32 hi ≡ true
    → Within lo hi f
    → ((q : Fraction) × (f ≡ finite q) × (q ≼ of_ℤ b))
    → to_int m half_int32 f ≤ℤ b
unfolding to_int
to_int-limit m lo hi b f in_lo in_hi (q, e, h, k) (p, e', limit) =
    let same : finite q ≡ finite p = cc in
    rw e (
      rw
        (in_range_between half_int32 lo hi (trunc q) in_lo in_hi (le-trunc lo q h)
          (trunc-le hi q k))
        (trunc-le b q (rw (finite-injective same) limit)))

-- `int32` of a clamped integer is not above what the integer and the lower limit are not above.
pub clamp_limit :
    (m : Machine) (lo hi n b : ℤ)
    → IsIeee m
    → in_range half_int32 lo ≡ true
    → in_range half_int32 hi ≡ true
    → lo ≤ℤ hi
    → lo ≤ℤ b
    → n ≤ℤ b
    → IsExact b
    → to_int m half_int32 (min (of_int m hi) (max (of_int m lo) (of_int m n))) ≤ℤ b
clamp_limit m lo hi n b ieee in_lo in_hi order low here exact =
    let f = min (of_int m hi) (max (of_int m lo) (of_int m n)) in
    let rounded_below = λ (z : ℤ) (h : z ≤ℤ b).
      ≼_trans (m.round_off (of_ℤ z)) (m.round_off (of_ℤ b)) (of_ℤ b)
        (ieee.mono (of_ℤ z) (of_ℤ b) (omega arith)) (ieee.exact_below b exact) in
    to_int-limit m lo hi b f in_lo in_hi
      (clamp-Within m ieee lo hi order (int32-IsExact lo in_lo) (int32-IsExact hi in_hi)
        (of_int m n) (λ x. cc))
      (min-max_limit (m.round_off (of_ℤ hi)) (m.round_off (of_ℤ lo)) (m.round_off (of_ℤ n)) (of_ℤ b)
        (rounded_below lo low) (rounded_below n here))
