-- ===== src/Contention/Solver.antt =====
-- The proportional solver on integers that floats hold exactly.
use kosmos_v.Prelude.{ℕ, suc, ◌+◌, ◌-◌, ◌*◌, ◌/◌, ◌^◌, ◌≤◌, ◌<◌, ◌≡◌, arith}
use kosmos_v.Prelude.Int.{pos}
use kosmos_v.Float.{Fraction, Machine, den, trunc, to_int}
use kosmos_v.Float.Order.{IsIeee, scale, cancel, trunc-ratio}
use kosmos_v.Float.Quotient.{share, share_lem, share_sign, share-≼-whole, share_close}
use kosmos_v.Contention.{proportional}

module _ (m : Machine) (ieee : IsIeee m) (part whole room : ℕ) (part_le : part ≤ suc whole)
    (whole_exact : suc whole ≤ 2 ^ 53) (room_exact : room ≤ 2 ^ 53) where
  abbrev float_share : Fraction
  float_share = share m ieee part whole room part_le whole_exact room_exact

  abbrev portion : ℕ
  portion = (float_share.plus - float_share.minus) / den float_share

  portion-le : portion ≤ room
  portion-le = omega (
    arith,
    trunc-ratio float_share room 0
        (share-≼-whole m ieee part whole room part_le whole_exact room_exact),
  )

  proportional-portion : proportional m (pos part) (pos (suc whole)) (pos room) ≡ pos portion
  unfolding proportional to_int trunc
  proportional-portion =
      rw (share_lem m ieee part whole room part_le whole_exact room_exact) (
        ground
          (arith, portion-le, share_sign m ieee part whole room part_le whole_exact room_exact))

  -- On a machine with IEEE 754 floats, for a total that is positive and an availability, both of at
  -- most 53 bits: of an amount that is not more than the total, the solver gives a number from 0 up
  -- to all that is available.
  pub proportional_bounds :
      (t : ℕ) × (proportional m (pos part) (pos (suc whole)) (pos room) ≡ pos t) × (t ≤ room)
  proportional_bounds = (portion, proportional-portion, portion-le)

  close_core :
      (t : ℕ)
      → suc whole * room < 2 ^ 51
      → t * (suc whole * 2 ^ 106) ≤ part * (2 ^ 53 + 1) * room * (2 ^ 53 + 1)
      → t * suc whole ≤ part * room
  close_core t small h = omega (arith, scale _ _ room part_le)

  portion_close : portion * (suc whole * 2 ^ 106) ≤ part * (2 ^ 53 + 1) * room * (2 ^ 53 + 1)
  portion_close =
      let dens : suc (suc (suc whole * 2 ^ 53 - 1) * 2 ^ 53 - 1) ≡ suc whole * 2 ^ 106 =
        omega arith in
      rw (← dens) (
        trunc-ratio float_share _ _
          (share_close m ieee part whole room part_le whole_exact room_exact))

  -- If moreover the product of total and availability is below 2 ^ 51, rounding never gives more than
  -- the exact share: on a machine with IEEE 754 floats, for a positive total and an availability of at
  -- most 53 bits and an amount up to the total, the number times the total is at most the amount times
  -- the availability.
  pub proportional_exact :
      suc whole * room < 2 ^ 51
      → (t : ℕ) × (proportional m (pos part) (pos (suc whole)) (pos room) ≡ pos t)
        × (t * suc whole ≤ part * room)
  proportional_exact small = (portion, proportional-portion, close_core portion small portion_close)

  capped_core :
      (t : ℕ)
      → suc whole ≤ 2 ^ 51
      → room ≤ suc whole
      → t * (suc whole * 2 ^ 106) ≤ part * (2 ^ 53 + 1) * room * (2 ^ 53 + 1)
      → t ≤ part
  capped_core t small tight h =
      let wide = scale room (suc whole) (part * (2 ^ 53 + 1) * (2 ^ 53 + 1)) tight in
      let narrow =
        cancel (t * 2 ^ 106) (part * (2 ^ 53 + 1) * (2 ^ 53 + 1)) whole (omega (arith, wide)) in
      omega (arith, narrow)

  -- Where a total of at most 51 bits is no less than what is available, rounding never gives an
  -- amount more than itself.
  pub proportional-le :
      suc whole ≤ 2 ^ 51
      → room ≤ suc whole
      → (t : ℕ) × (proportional m (pos part) (pos (suc whole)) (pos room) ≡ pos t) × (t ≤ part)
  proportional-le small tight =
      (portion, proportional-portion, capped_core portion small tight portion_close)
