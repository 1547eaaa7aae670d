-- ===== src/Float/Quotient.antt =====
-- The product of a quotient of integers with an integer, as the solver of contentions computes it.
use kosmos_v.Prelude.{ℕ, suc, ◌+◌, ◌-◌, ◌*◌, ◌^◌, ◌≤◌, ◌<◌, ◌≡◌, arith}
use native.Mathlib.Nat.{one-mul}
use kosmos_v.Prelude.Int.{pos}
use kosmos_v.Float.{Fraction, finite, Machine, of_int, den, times_fraction, over_fraction, div, mul}
use kosmos_v.Float.Order.{◌≼◌, ratio, IsIeee, ≼_trans, scale}

over_core :
    (p i f dn n c k : ℕ) → p ≤ c * f + i → k * dn ≤ n → p * dn * k ≤ c * (f * n) + i * dn * k
over_core p i f dn n c k h g = omega (arith, scale _ _ (dn * k) h, scale _ _ (c * f) g)

-- A quotient by at least D + 1 of what is at most c.
over-≼ :
    (a : Fraction) (n dn c D : ℕ)
    → a ≼ ratio c 0
    → suc D * dn ≤ n
    → 0 < dn
    → over_fraction a n dn ≼ ratio c D
over-≼ a n dn c D h k pos_dn =
    let core = over_core a.plus a.minus (den a) dn n c (suc D) (omega arith) k in
    let pos_n : 0 < n = omega (arith, scale 1 (suc D) dn (omega arith)) in
    let pos_den : 0 < den a * n = omega (arith, scale 1 (den a) n (omega arith)) in
    let same : suc (den a * n - 1) ≡ den a * n = omega arith in rw same (omega arith)

times_core :
    (p i f e n bi k g c : ℕ)
    → p * e ≤ n * f + i * e
    → k ≤ c * g
    → (p * (bi + k) + i * bi) * e ≤ n * c * (f * g) + (p * bi + i * (bi + k)) * e
times_core p i f e n bi k g c h l = omega (arith, scale _ _ k h, scale _ _ (n * f) l)

-- A product with a factor that is not negative.
times-≼ :
    (a b : Fraction) (n e c : ℕ)
    → a ≼ ratio n e
    → b ≼ ratio c 0
    → b.minus ≤ b.plus
    → times_fraction a b ≼ ratio (n * c) e
times-≼ a b n e c h k sign =
    let core =
      times_core a.plus a.minus (den a) (suc e) n b.minus (b.plus - b.minus) (den b) c (omega arith)
        (omega arith) in
    let same : b.minus + (b.plus - b.minus) ≡ b.plus = omega arith in
    let dens : suc (a.den_pred * b.den_pred + a.den_pred + b.den_pred) ≡ den a * den b =
      omega arith in
    rw dens (omega (arith, rw same at core))

sign_core : (i j bi bp : ℕ) → bi ≤ bp → (i + j) * bi + i * bp ≤ (i + j) * bp + i * bi
sign_core i j bi bp h = omega (arith, scale _ _ j h)

times_sign :
    (a b : Fraction)
    → a.minus ≤ a.plus
    → b.minus ≤ b.plus
    → (times_fraction a b).minus ≤ (times_fraction a b).plus
times_sign a b h k =
    let same : a.minus + (a.plus - a.minus) ≡ a.plus = omega arith in
    rw same at (sign_core a.minus (a.plus - a.minus) b.minus b.plus k)

div_pos :
    (m : Machine) (a b : Fraction)
    → b.minus < b.plus
    → div m (finite a) (finite b)
      ≡ finite (m.round_off (over_fraction a (b.plus - b.minus) (den b)))
unfolding div
div_pos m a b h = ground arith

module _ (m : Machine) (ieee : IsIeee m) where
  round_off_sign : (a : Fraction) → a.minus ≤ a.plus → (m.round_off a).minus ≤ (m.round_off a).plus
  round_off_sign a h =
      let zero = ratio 0 0 in
      let above =
        ≼_trans zero (m.round_off zero) (m.round_off a) (ieee.exact_above (pos 0) (omega arith))
          (ieee.mono zero a (omega arith)) in
      omega arith

  -- Rounding what is at most an integer, and what is at most a quotient.
  round_off_le : (a : Fraction) (n : ℕ) → n ≤ 2 ^ 53 → a ≼ ratio n 0 → m.round_off a ≼ ratio n 0
  round_off_le a n exact h =
      ≼_trans (m.round_off a) (m.round_off (ratio n 0)) (ratio n 0) (ieee.mono a (ratio n 0) h)
        (ieee.exact_below (pos n) (omega arith))

  round_off_close :
      (a : Fraction) (n e : ℕ)
      → e < 2 ^ 1000
      → a ≼ ratio n e
      → m.round_off a ≼ ratio (n * (2 ^ 53 + 1)) (suc e * 2 ^ 53 - 1)
  round_off_close a n e small h =
      ≼_trans (m.round_off a) (m.round_off (ratio n e)) _ (ieee.mono a (ratio n e) h)
        (ieee.close_above n e small)

  module _ (part whole room : ℕ) (part_le : part ≤ suc whole) (whole_exact : suc whole ≤ 2 ^ 53)
      (room_exact : room ≤ 2 ^ 53) where
    part_float : Fraction
    part_float = m.round_off (ratio part 0)

    whole_float : Fraction
    whole_float = m.round_off (ratio (suc whole) 0)

    room_float : Fraction
    room_float = m.round_off (ratio room 0)

    -- The quotient before it is rounded, the quota, and the share before it is rounded.
    exact_quota : Fraction
    exact_quota = over_fraction part_float (whole_float.plus - whole_float.minus) (den whole_float)

    pub share : Fraction
    share = m.round_off (times_fraction (m.round_off exact_quota) room_float)

    whole_float_above : suc whole * den whole_float + whole_float.minus ≤ whole_float.plus
    unfolding whole_float
    whole_float_above = let above = ieee.exact_above (pos (suc whole)) (omega arith) in omega arith

    pub share_lem :
        mul m (div m (of_int m (pos part)) (of_int m (pos (suc whole)))) (of_int m (pos room))
        ≡ finite share
    unfolding share exact_quota room_float whole_float part_float mul
    share_lem = rw (
        div_pos m (m.round_off (ratio part 0)) (m.round_off (ratio (suc whole) 0))
          (unfold whole_float in omega (arith, whole_float_above)))

    exact_quota-≼ : exact_quota ≼ ratio part whole
    unfolding exact_quota part_float
    exact_quota-≼ =
        over-≼ (m.round_off (ratio part 0)) (whole_float.plus - whole_float.minus) (den whole_float)
          part whole (round_off_le (ratio part 0) part (omega arith) (omega arith))
          (omega (arith, whole_float_above)) (omega arith)

    room_float-≼ : room_float ≼ ratio room 0
    unfolding room_float
    room_float-≼ = round_off_le (ratio room 0) room room_exact (omega arith)

    room_float_sign : room_float.minus ≤ room_float.plus
    unfolding room_float
    room_float_sign = round_off_sign (ratio room 0) (omega arith)

    exact_quota_sign : exact_quota.minus ≤ exact_quota.plus
    unfolding exact_quota part_float
    exact_quota_sign = scale _ _ (den whole_float) (round_off_sign (ratio part 0) (omega arith))

    pub share_sign : share.minus ≤ share.plus
    unfolding share
    share_sign = round_off_sign (times_fraction (m.round_off exact_quota) room_float) (
        times_sign (m.round_off exact_quota) room_float
          (round_off_sign exact_quota exact_quota_sign) room_float_sign)

    -- The share is at most the whole.
    pub share-≼-whole : share ≼ ratio room 0
    unfolding share
    share-≼-whole =
        let quota_le : exact_quota ≼ ratio 1 0 =
          ≼_trans exact_quota (ratio part whole) (ratio 1 0) exact_quota-≼ (omega arith) in
        round_off_le (times_fraction (m.round_off exact_quota) room_float) room room_exact (
          rw one-mul at (
            times-≼ (m.round_off exact_quota) room_float 1 0 room
              (round_off_le exact_quota 1 (omega arith) quota_le) room_float-≼ room_float_sign))

    -- The share exceeds its exact value by two roundings at most.
    pub share_close :
        share
        ≼ ratio
            (part * (2 ^ 53 + 1) * room * (2 ^ 53 + 1))
            (suc (suc whole * 2 ^ 53 - 1) * 2 ^ 53 - 1)
    unfolding share
    share_close =
        round_off_close (times_fraction (m.round_off exact_quota) room_float)
          (part * (2 ^ 53 + 1) * room) (suc whole * 2 ^ 53 - 1) (omega arith)
          (times-≼ (m.round_off exact_quota) room_float (part * (2 ^ 53 + 1))
            (suc whole * 2 ^ 53 - 1) room
            (round_off_close exact_quota part whole (omega arith) exact_quota-≼) room_float-≼
            room_float_sign)
