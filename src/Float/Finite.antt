-- ===== src/Float/Finite.antt =====
-- Operations on finite values whose results are finite, and the cap of a value by a multiple.
use kosmos_v.Prelude.{ℕ, ◌+◌, ◌*◌, ◌/◌, ◌^◌, ◌≤◌, ◌<◌, ◌≡◌, refl, inl, inr, true, arith}
use kosmos_v.Prelude.Tests.{Bool-cases, leb, leb→le}
use kosmos_v.Prelude.Int.{ℤ, pos}
use kosmos_v.Float.{
  Fraction, den, Float64, finite, Machine, of_ℤ, leb_fraction, constant, negated, add, sub, mul,
  max, min, magnitude, sqrt, div, over_fraction, times_fraction,
}
use kosmos_v.Float.Clamp.{Within, leb_fraction-≼}
use kosmos_v.Float.Order.{◌≼◌, ratio, IsIeee, ≼_trans, scale}

abbrev pub IsFinite : Float64 → Type 0
IsFinite f = (q : Fraction) × (f ≡ finite q)

module _ (m : Machine) where
  pub add-IsFinite : (f g : Float64) → IsFinite f → IsFinite g → IsFinite (add m f g)
  unfolding add
  add-IsFinite f g (a, e) (b, h) = rw (e, h) (_, refl)

  pub sub-IsFinite : (f g : Float64) → IsFinite f → IsFinite g → IsFinite (sub m f g)
  unfolding add
  sub-IsFinite f g (a, e) (b, h) = rw (e, h) (_, refl)

  pub mul-IsFinite : (f g : Float64) → IsFinite f → IsFinite g → IsFinite (mul m f g)
  unfolding mul
  mul-IsFinite f g (a, e) (b, h) = rw (e, h) (_, refl)

pub max-IsFinite : (f g : Float64) → IsFinite f → IsFinite g → IsFinite (max f g)
unfolding max
max-IsFinite f g (a, e) (b, h) =
    rw (e, h)
      (elim (Bool-cases (leb_fraction a b)) [ inl t ↦ rw t (b, refl) | inr t ↦ rw t (a, refl) ])

pub min-IsFinite : (f g : Float64) → IsFinite f → IsFinite g → IsFinite (min f g)
unfolding min
min-IsFinite f g (a, e) (b, h) =
    rw (e, h)
      (elim (Bool-cases (leb_fraction a b)) [ inl t ↦ rw t (a, refl) | inr t ↦ rw t (b, refl) ])

-- A value that is raised to one end and then capped by another.
pub raised-Within :
    (five x r : Fraction) (lo hi : ℤ)
    → of_ℤ lo ≼ five
    → of_ℤ lo ≼ r
    → r ≼ of_ℤ hi
    → Within lo hi (min (max (finite five) (finite x)) (finite r))
unfolding max min
raised-Within five x r lo hi low_five low_r high_r = elim (Bool-cases (leb_fraction five x)) [
  | inl a ↦ rw a (elim (Bool-cases (leb_fraction x r)) [
    | inl b ↦ rw b (
      x,
      refl,
      ≼_trans (of_ℤ lo) five x low_five (leb_fraction-≼ five x a),
      ≼_trans x r (of_ℤ hi) (leb_fraction-≼ x r b) high_r,
    )
    | inr b ↦ rw b (r, refl, low_r, high_r)
  ])
  | inr a ↦ rw a (elim (Bool-cases (leb_fraction five r)) [
    | inl b ↦ rw b (five, refl, low_five, ≼_trans five r (of_ℤ hi) (leb_fraction-≼ five r b) high_r)
    | inr b ↦ rw b (r, refl, low_r, high_r)
  ])
]

-- The product of a whole number and 3 / 2, rounded twice.
abbrev pub half_more : Machine → ℕ → Fraction
half_more m n =
    m.round_off
      (times_fraction (m.round_off (of_ℤ (pos n))) (record { plus = 3; minus = 0; den_pred = 1 }))

half_above :
    (c n : ℕ) (o : Fraction)
    → 2 * c ≤ 3 * n
    → of_ℤ (pos n) ≼ o
    → of_ℤ (pos c) ≼ times_fraction o (record { plus = 3; minus = 0; den_pred = 1 })
half_above c n o h k = omega (arith, scale (2 * c) (3 * n) (den o) h)

half_below :
    (c n : ℕ) (o : Fraction)
    → 3 * n ≤ 2 * c
    → o ≼ of_ℤ (pos n)
    → times_fraction o (record { plus = 3; minus = 0; den_pred = 1 }) ≼ of_ℤ (pos c)
half_below c n o h k = omega (arith, scale (3 * n) (2 * c) (den o) h)

pub half_more_bounds :
    (m : Machine) (n : ℕ)
    → IsIeee m
    → n ≤ 2 ^ 51
    → (of_ℤ (pos (3 * n / 2)) ≼ half_more m n) × (half_more m n ≼ of_ℤ (pos ((3 * n + 1) / 2)))
half_more_bounds m n ieee small =
    let o = m.round_off (of_ℤ (pos n)) in
    let t = times_fraction o (record { plus = 3; minus = 0; den_pred = 1 }) in
    let lo = of_ℤ (pos (3 * n / 2)) in
    let hi = of_ℤ (pos ((3 * n + 1) / 2)) in
    let above : of_ℤ (pos n) ≼ o = ieee.exact_above (pos n) (omega arith) in
    let below : o ≼ of_ℤ (pos n) = ieee.exact_below (pos n) (omega arith) in
    let t_above : lo ≼ t = half_above (3 * n / 2) n o (omega arith) above in
    let t_below : t ≼ hi = half_below ((3 * n + 1) / 2) n o (omega arith) below in
    (
      ≼_trans lo (m.round_off lo) (half_more m n) (ieee.exact_above (pos (3 * n / 2)) (omega arith))
          (ieee.mono lo t t_above),
      ≼_trans (half_more m n) (m.round_off hi) hi (ieee.mono t hi t_below)
          (ieee.exact_below (pos ((3 * n + 1) / 2)) (omega arith)),
    )

-- A thousandth of what is at least 1 is positive.
pub div_thousand :
    (m : Machine) (o : Fraction)
    → IsIeee m
    → of_ℤ (pos 1) ≼ o
    → (s : Fraction) × (div m (finite o) (constant 1000 1) ≡ finite s) × (s.minus < s.plus)
unfolding div
div_thousand m o ieee h =
    let x = over_fraction o 1000 1 in
    let small : ratio 1 1023 ≼ x = omega arith in
    let above : ratio 1 1023 ≼ m.round_off x =
      ≼_trans (ratio 1 1023) (m.round_off (ratio 1 1023)) (m.round_off x)
        (ieee.power_above 10 (omega arith)) (ieee.mono (ratio 1 1023) x small) in
    (m.round_off x, refl, omega (arith, above))

magnitude-nonnegative :
    (e : Float64) → IsFinite e → (a : Fraction) × (magnitude e ≡ finite a) × (a.minus ≤ a.plus)
unfolding magnitude
magnitude-nonnegative e (q, h) = rw h (elim (Bool-cases (leb q.minus q.plus)) [
  | inl t ↦ rw t (q, refl, leb→le q.minus q.plus t)
  | inr t ↦ rw t (negated q, refl, ground arith)
])

-- The square root of twice a magnitude.
pub sqrt-IsFinite :
    (m : Machine) (e : Float64)
    → IsIeee m
    → IsFinite e
    → IsFinite (sqrt m (mul m (magnitude e) (constant 2 1)))
unfolding sqrt mul
sqrt-IsFinite m e ieee h =
    let (a, is_a, sign) = magnitude-nonnegative e h in
    let zero = of_ℤ (pos 0) in
    let x = times_fraction a (record { plus = 2; minus = 0; den_pred = 0 }) in
    let above : zero ≼ m.round_off x =
      ≼_trans zero (m.round_off zero) (m.round_off x) (ieee.exact_above (pos 0) (omega arith))
        (ieee.mono zero x (omega (arith, sign))) in
    let holds : leb (m.round_off x).minus (m.round_off x).plus ≡ true = ground (arith, above) in
    rw (is_a, holds) (_, refl)
