-- ===== src/Float.antt =====
-- Go's `float64`, the number type of the planners (pkg/pod-autoscaler/pkg/recommender/logic.go,
-- pkg/pod-autoscaler/pkg/contention-manager/logic.go, pkg/pod-replicas-updater/pkg/logic.go).
-- A finite value is an exact fraction. What depends on the machine is a parameter, `Machine`: how a
-- result is rounded, the square root, and what a conversion of a value out of range to an integer
-- gives. A finite result stays finite: on the inputs of the planners (quotients, products and sums
-- of a few integers of 64 bits) nothing comes near the largest float. There is no negative zero: no
-- divisor of the planners can be one.
pub mod Order
pub mod Clamp
pub mod Quotient
pub mod Finite
use Prim.Native.Nat.{compare, Ordering}
use kosmos_v.Prelude.{ℕ, suc, ◌+◌, ◌-◌, ◌*◌, ◌/◌, ◌^◌, Bool, true, false, not}
use kosmos_v.Prelude.Tests.{leb, ltb, if◌then◌else◌}
use kosmos_v.Prelude.Int.{ℤ, pos, negsuc, pos_part, neg_part, sub_ℕ}

-- (plus - minus) / (den_pred + 1)
pub record Fraction : Type 0 where
  pub plus : ℕ
  pub minus : ℕ
  pub den_pred : ℕ

abbrev pub den : Fraction → ℕ
den q = suc q.den_pred

pub data Float64 : Type 0 where
  finite : Fraction → Float64
  pos_inf neg_inf nan : Float64

pub record Machine : Type 0 where
  pub round_off : Fraction → Fraction
  pub root : Fraction → Fraction
  -- The conversion of a value that the integer type of this half range does not hold.
  pub wild : ℕ → Float64 → ℤ

abbrev pub of_ℤ : ℤ → Fraction
of_ℤ z = record { plus = pos_part z; minus = neg_part z; den_pred = 0 }

-- The order of two fractions, as a test.
abbrev pub leb_fraction : Fraction → Fraction → Bool
leb_fraction a b = leb (a.plus * den b + b.minus * den a) (b.plus * den a + a.minus * den b)

-- The constant p / d of a Go expression.
abbrev pub constant : ℕ → ℕ → Float64
constant p d = finite (record { plus = p; minus = 0; den_pred = d - 1 })

abbrev pub negated : Fraction → Fraction
negated q = record { plus = q.minus; minus = q.plus; den_pred = q.den_pred }

abbrev pub neg : Float64 → Float64
neg (finite q) = finite (negated q)
neg pos_inf = neg_inf
neg neg_inf = pos_inf
neg nan = nan

abbrev pub plus_fraction : Fraction → Fraction → Fraction
plus_fraction a b = record {
  plus = a.plus * den b + b.plus * den a;
  minus = a.minus * den b + b.minus * den a;
  den_pred = a.den_pred * b.den_pred + a.den_pred + b.den_pred;
}

abbrev pub times_fraction : Fraction → Fraction → Fraction
times_fraction a b = record {
  plus = a.plus * b.plus + a.minus * b.minus;
  minus = a.plus * b.minus + a.minus * b.plus;
  den_pred = a.den_pred * b.den_pred + a.den_pred + b.den_pred;
}

-- a divided by n / d, for n that is not 0
abbrev pub over_fraction : Fraction → ℕ → ℕ → Fraction
over_fraction a n d = record { plus = a.plus * d; minus = a.minus * d; den_pred = den a * n - 1 }

-- The infinity with the sign of a fraction, or NaN for 0.
abbrev pub inf_of : Fraction → Float64
inf_of q = elim (compare q.plus q.minus) [
  | Ordering.lt ↦ neg_inf
  | Ordering.eq ↦ nan
  | Ordering.gt ↦ pos_inf
]

module _ (m : Machine) where
  abbrev pub of_int : ℤ → Float64
  of_int z = finite (m.round_off (of_ℤ z))

  unfoldable pub add : Float64 → Float64 → Float64
  add (finite a) (finite b) = finite (m.round_off (plus_fraction a b))
  add (finite a) pos_inf = pos_inf
  add (finite a) neg_inf = neg_inf
  add pos_inf (finite b) = pos_inf
  add pos_inf pos_inf = pos_inf
  add neg_inf (finite b) = neg_inf
  add neg_inf neg_inf = neg_inf
  add _ _ = nan

  abbrev pub sub : Float64 → Float64 → Float64
  sub a b = add a (neg b)

  unfoldable pub mul : Float64 → Float64 → Float64
  mul (finite a) (finite b) = finite (m.round_off (times_fraction a b))
  mul (finite a) pos_inf = inf_of a
  mul (finite a) neg_inf = neg (inf_of a)
  mul pos_inf (finite b) = inf_of b
  mul neg_inf (finite b) = neg (inf_of b)
  mul pos_inf pos_inf = pos_inf
  mul neg_inf neg_inf = pos_inf
  mul pos_inf neg_inf = neg_inf
  mul neg_inf pos_inf = neg_inf
  mul _ _ = nan

  divide_finite : Fraction → Fraction → Float64
  divide_finite a b = elim (compare b.plus b.minus) [
    | Ordering.eq ↦ inf_of a
    | Ordering.gt ↦ finite (m.round_off (over_fraction a (b.plus - b.minus) (den b)))
    | Ordering.lt ↦ finite (m.round_off (over_fraction (negated a) (b.minus - b.plus) (den b)))
  ]

  unfoldable pub div : Float64 → Float64 → Float64
  unfolding divide_finite
  div (finite a) (finite b) = divide_finite a b
  div (finite a) pos_inf = constant 0 1
  div (finite a) neg_inf = constant 0 1
  div pos_inf (finite b) = if leb b.minus b.plus then pos_inf else neg_inf
  div neg_inf (finite b) = if leb b.minus b.plus then neg_inf else pos_inf
  div _ _ = nan

-- `math.Max`: an infinity above all wins also over NaN.
unfoldable pub max : Float64 → Float64 → Float64
max pos_inf _ = pos_inf
max nan pos_inf = pos_inf
max nan _ = nan
max neg_inf b = b
max (finite a) (finite b) = if leb_fraction a b then finite b else finite a
max (finite a) pos_inf = pos_inf
max (finite a) neg_inf = finite a
max (finite a) nan = nan

-- `math.Min`
unfoldable pub min : Float64 → Float64 → Float64
min neg_inf _ = neg_inf
min nan neg_inf = neg_inf
min nan _ = nan
min pos_inf b = b
min (finite a) (finite b) = if leb_fraction a b then finite a else finite b
min (finite a) neg_inf = neg_inf
min (finite a) pos_inf = finite a
min (finite a) nan = nan

-- `math.Abs`
unfoldable pub magnitude : Float64 → Float64
magnitude (finite q) = if leb q.minus q.plus then finite q else finite (negated q)
magnitude pos_inf = pos_inf
magnitude neg_inf = pos_inf
magnitude nan = nan

-- `math.Sqrt`
unfoldable pub sqrt : Machine → Float64 → Float64
sqrt m (finite q) = if leb q.minus q.plus then finite (m.root q) else nan
sqrt m pos_inf = pos_inf
sqrt m _ = nan

-- a > b
unfoldable pub gt : Float64 → Float64 → Bool
gt (finite a) (finite b) = not (leb_fraction a b)
gt (finite a) neg_inf = true
gt pos_inf (finite b) = true
gt pos_inf neg_inf = true
gt _ _ = false

abbrev pub neg_ℕ : ℕ → ℤ
neg_ℕ n = sub_ℕ 0 n

-- Towards zero.
unfoldable pub trunc : Fraction → ℤ
trunc q =
    if leb q.minus q.plus
    then pos ((q.plus - q.minus) / den q)
    else neg_ℕ ((q.minus - q.plus) / den q)

-- `math.Round` of a finite value: to the nearest integer, halves away from zero.
abbrev pub nearest : Fraction → ℤ
nearest q =
    if leb q.minus q.plus
    then pos ((2 * (q.plus - q.minus) + den q) / (2 * den q))
    else neg_ℕ ((2 * (q.minus - q.plus) + den q) / (2 * den q))

unfoldable pub round : Float64 → Float64
round (finite q) = finite (of_ℤ (nearest q))
round f = f

abbrev pub in_range : ℕ → ℤ → Bool
in_range half (pos n) = ltb n half
in_range half (negsuc n) = ltb n half

abbrev pub half_int32 : ℕ
half_int32 = 2 ^ 31

abbrev pub half_int64 : ℕ
half_int64 = 2 ^ 63

-- `int32(f)` and `int64(f)`, by the half of the integer type's range.
unfoldable pub to_int : Machine → ℕ → Float64 → ℤ
unfolding trunc
to_int m half (finite q) = if in_range half (trunc q) then trunc q else m.wild half (finite q)
to_int m half f = m.wild half f
