-- ===== src/Recommender/Cpu.antt =====
-- How much CPU a recommendation may ask for.
use kosmos_v.Prelude.{ℕ, ◌+◌, ◌*◌, ◌/◌, ◌^◌, ◌≤◌, ◌<◌, ◌≡◌, refl, arith}
use kosmos_v.Prelude.Tests.{leb, lt→ltb, if◌then◌else◌}
use kosmos_v.Prelude.Int.{ℤ, pos, ◌≤ℤ◌, ◌<ℤ◌}
use kosmos_v.Quantity.{Quantities, IsDecimal}
use kosmos_v.Quantity.Milli.{milli_value-new_milli_quantity}
use kosmos_v.Float.{
  Fraction, Float64, finite, Machine, of_ℤ, of_int, constant, sub, mul, to_int, half_int64,
}
use kosmos_v.Float.Clamp.{Within, to_int-Within, div_finite}
use kosmos_v.Float.Finite.{
  IsFinite, add-IsFinite, sub-IsFinite, mul-IsFinite, max-IsFinite, min-IsFinite, raised-Within,
  div_thousand, sqrt-IsFinite, half_more, half_more_bounds,
}
use kosmos_v.Float.Order.{◌≼◌, IsIeee, ≼_trans}
use kosmos_v.Api.{cpu_of, PodScale, ServiceLevelAgreement}
use kosmos_v.Recommender.{
  Logic, fixed, adaptive, bc_gain, dc_gain, next_cores, adapt_bc, adapt_dc, seconds, control_error,
  compute_cpu_fixed, compute_cpu_adaptive, compute_cpu_resource,
}

-- Finite divided by a positive constant.
constant-IsFinite : (p d : ℕ) → IsFinite (constant p d)
constant-IsFinite p d = (_, refl)

-- The smaller of 5 and one and a half times the number.
abbrev pub least : ℕ → ℕ
least n = if leb 5 (3 * n / 2) then 5 else 3 * n / 2

least_le : (n : ℕ) → (least n ≤ 5) × (least n ≤ 3 * n / 2)
least_le n = ground arith

module _ (m : Machine) (ieee : IsIeee m) where
  -- The cores that the control loops propose, for finite gains and errors.
  next_cores-Within :
      (xcprec bc dc e : Float64) (n : ℕ)
      → n ≤ 2 ^ 51
      → IsFinite xcprec
      → IsFinite bc
      → IsFinite dc
      → IsFinite e
      → Within
          (pos (least n))
          (pos ((3 * n + 1) / 2))
          (next_cores m xcprec bc dc e (of_int m (pos n)))
  unfolding next_cores mul
  next_cores-Within xcprec bc dc e n small fx fb fd fe =
      let (x, is_x) =
        add-IsFinite m _ _ (add-IsFinite m _ _ fx (mul-IsFinite m _ _ fb fe))
          (mul-IsFinite m _ _ fd fe) in
      let (low, high) = half_more_bounds m n ieee small in
      let (below_five, below_half) = least_le n in
      let half = of_ℤ (pos (3 * n / 2)) in
      let low_r : of_ℤ (pos (least n)) ≼ half_more m n =
        ≼_trans (of_ℤ (pos (least n))) half (half_more m n) (omega (arith, below_half)) low in
      rw is_x (
        raised-Within (record { plus = 5; minus = 0; den_pred = 0 }) x (half_more m n)
          (pos (least n)) (pos ((3 * n + 1) / 2)) (omega (arith, below_five)) low_r high)

  -- A positive number of thousandths is a positive number of seconds.
  seconds_positive :
      {Q : Type 0} ⦃q : Quantities Q⦄ (t : Q)
      → pos 0 <ℤ q.milli_value t
      → (s : Fraction) × (seconds m t ≡ finite s) × (s.minus < s.plus)
  seconds_positive ⦃q = q⦄ t positive =
      let z = q.milli_value t in
      let one = of_ℤ (pos 1) in
      let o = m.round_off (of_ℤ z) in
      let above : one ≼ o =
        ≼_trans one (m.round_off one) o (ieee.exact_above (pos 1) (omega arith))
          (ieee.mono one (of_ℤ z) (omega arith)) in
      div_thousand m o ieee above

  control_error-IsFinite :
      {Q : Type 0} ⦃q : Quantities Q⦄ (agreed measured : Q)
      → pos 0 <ℤ q.milli_value agreed
      → pos 0 <ℤ q.milli_value measured
      → IsFinite (control_error m agreed measured)
  unfolding control_error
  control_error-IsFinite agreed measured h k =
      let (a, is_a, a_pos) = seconds_positive agreed h in
      let (b, is_b, b_pos) = seconds_positive measured k in
      let one : Fraction = record { plus = 1; minus = 0; den_pred = 0 } in
      min-IsFinite _ _
        (max-IsFinite _ _
          (sub-IsFinite m _ _ (rw is_a (div_finite m one a a_pos))
            (rw is_b (div_finite m one b b_pos)))
          (_, refl))
        (constant-IsFinite 10 1)

  -- The state of a logic is finite.
  abbrev pub IsCalm : Logic → Type 0
  IsCalm (fixed l) = IsFinite l.prev_error
  IsCalm (adaptive l) = IsFinite l.prev_error × IsFinite l.bc × IsFinite l.dc

  adapt_bc-IsFinite : (bc e : Float64) → IsFinite bc → IsFinite e → IsFinite (adapt_bc m bc e)
  unfolding adapt_bc
  adapt_bc-IsFinite bc e h k =
      min-IsFinite _ _
        (max-IsFinite _ _ (mul-IsFinite m _ _ h (sqrt-IsFinite m e ieee k))
          (constant-IsFinite 10 1))
        (constant-IsFinite 100 1)

  adapt_dc-IsFinite : (bc : Float64) → IsFinite bc → IsFinite (adapt_dc m bc)
  unfolding adapt_dc
  adapt_dc-IsFinite bc h =
      let forty : Fraction = record { plus = 40; minus = 0; den_pred = 0 } in
      let (p, is_p) = mul-IsFinite m _ _ h (constant-IsFinite 80 1) in
      min-IsFinite _ _
        (max-IsFinite _ _ (rw is_p (div_finite m p forty (omega arith))) (constant-IsFinite 15 1))
        (constant-IsFinite 150 1)

  module _ {Q : Type 0} ⦃q : Quantities Q⦄ (laws : IsDecimal Q) where
    proposal_bounds :
        (z : ℤ) (prev bc dc e : Float64) (n : ℕ)
        → z ≡ pos n
        → n ≤ 2 ^ 51
        → IsFinite prev
        → IsFinite bc
        → IsFinite dc
        → IsFinite e
        → let cores = next_cores m (sub m (of_int m z) (mul m bc prev)) bc dc e (of_int m z) in
          let cpu = q.new_milli_quantity (to_int m half_int64 cores) in
          (pos (least n) ≤ℤ q.milli_value cpu) × (q.milli_value cpu ≤ℤ pos ((3 * n + 1) / 2))
    proposal_bounds z prev bc dc e n is_n small fp fb fd fe =
        let xcprec = sub-IsFinite m (of_int m (pos n)) _ (_, refl) (mul-IsFinite m _ _ fb fp) in
        let within = next_cores-Within _ bc dc e n small xcprec fb fd fe in
        let (low, _) = least_le n in
        rw (is_n, milli_value-new_milli_quantity laws)
          (to_int-Within m half_int64 (pos (least n)) (pos ((3 * n + 1) / 2)) _
            (lt→ltb (least n) half_int64 (omega (arith, low)))
            (lt→ltb ((3 * n + 1) / 2) half_int64 (omega arith)) within)

    -- For a logic with a finite state, positive response times and an actual CPU of at most 2 ^ 51
    -- thousandths, on a machine with IEEE 754 floats: the CPU that either logic recommends is at most
    -- one and a half times the actual one, rounded up, and at least 5 thousandths or, where that is
    -- less, one and a half times the actual one, rounded down; and the state of the logic stays
    -- finite.
    pub compute_cpu_resource_bounds :
        (l : Logic) (scale : PodScale Q) (sla : ServiceLevelAgreement Q) (measured : Q) (n : ℕ)
        → IsCalm l
        → q.milli_value (cpu_of scale.status.actual_resources) ≡ pos n
        → n ≤ 2 ^ 51
        → pos 0 <ℤ q.milli_value sla.spec.metric.response_time
        → pos 0 <ℤ q.milli_value measured
        → let (cpu, l') = compute_cpu_resource m l scale sla measured in
          IsCalm l'
          × (pos (least n) ≤ℤ q.milli_value cpu)
          × (q.milli_value cpu ≤ℤ pos ((3 * n + 1) / 2))
    unfolding compute_cpu_resource compute_cpu_fixed compute_cpu_adaptive
    compute_cpu_resource_bounds (fixed l) scale sla measured n calm is_n small agreed positive =
        let e = control_error m sla.spec.metric.response_time measured in
        let finite_e =
          control_error-IsFinite sla.spec.metric.response_time measured agreed positive in
        let (low, high) =
          proposal_bounds _ l.prev_error bc_gain dc_gain e n is_n small calm
            (constant-IsFinite 40 1) (constant-IsFinite 80 1) finite_e in
        (finite_e, low, high)
    compute_cpu_resource_bounds (adaptive l) scale sla measured n calm is_n small agreed positive =
        let e = control_error m sla.spec.metric.response_time measured in
        let (fp, fb, fd) = calm in
        let finite_e =
          control_error-IsFinite sla.spec.metric.response_time measured agreed positive in
        let finite_bc = adapt_bc-IsFinite l.bc e fb finite_e in
        let (low, high) =
          proposal_bounds _ l.prev_error l.bc l.dc e n is_n small fp fb fd finite_e in
        ((finite_e, finite_bc, adapt_dc-IsFinite (adapt_bc m l.bc e) finite_bc), low, high)
