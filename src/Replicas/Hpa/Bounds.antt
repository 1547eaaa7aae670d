-- ===== src/Replicas/Hpa/Bounds.antt =====
-- What `HPALogic.computeReplica` may answer.
use kosmos_v.Prelude.{
  ◌≤◌, ◌<◌, ◌≡◌, refl, ◌≢◌, ◌⊎◌, inl, inr, true, false, Option, none, some, ◌&&◌, arith,
}
use kosmos_v.Prelude.Tests.{Bool-cases}
use kosmos_v.Prelude.Int.{ℤ, pos, ltb_ℤ, ◌<ℤ◌, ◌≤ℤ◌}
use kosmos_v.Quantity.{Quantities}
use kosmos_v.Float.{Fraction, Machine, finite, nan, of_int, div, mul, round, in_range, half_int32}
use kosmos_v.Float.Order.{IsIeee}
use kosmos_v.Float.Clamp.{clamp_bounds, round_off_pos, div_finite}
use kosmos_v.Replicas.{
  steady, HpaLogic, Clock, is_stabilizing, millis_since, stabilize_period_millis, advance,
}
use kosmos_v.Replicas.Machine.{HasWaited, advance-IsAdvance}
use kosmos_v.Replicas.Hpa.{proposed, tolerance_upper, tolerance_lower, compute_replica}
use kosmos_v.Api.{ServiceLevelAgreement}

-- The limits of an agreement are in order and fit 32 bits.
abbrev pub HasLimits : {Q : Type 0} → ServiceLevelAgreement Q → Type 0
HasLimits sla =
    (in_range half_int32 sla.spec.min_replicas ≡ true)
    × (in_range half_int32 sla.spec.max_replicas ≡ true)
    × (sla.spec.min_replicas ≤ℤ sla.spec.max_replicas)

-- The answer is within the limits of the agreement.
abbrev pub IsWithin : {Q : Type 0} → ServiceLevelAgreement Q → ℤ → Type 0
IsWithin sla r = (sla.spec.min_replicas ≤ℤ r) × (r ≤ℤ sla.spec.max_replicas)

module _ (m : Machine) (ieee : IsIeee m) where
  ratio_not_nan :
      (a d : Fraction) (cur : ℤ)
      → d.minus < d.plus
      → round (mul m (div m (finite a) (finite d)) (of_int m cur)) ≢ nan
  unfolding mul round
  ratio_not_nan a d cur h = let (q, e) = div_finite m a d h in rw e (λ x. cc)

  module _ {Q : Type 0} ⦃q : Quantities Q⦄ (sla : ServiceLevelAgreement Q) where
    pub proposed-IsWithin :
        (actual : Fraction) (cur : ℤ)
        → HasLimits sla
        → pos 0 <ℤ q.milli_value sla.spec.metric.response_time
        → IsWithin sla (
            proposed m sla.spec.min_replicas sla.spec.max_replicas
              (finite actual)
              (of_int m (q.milli_value sla.spec.metric.response_time))
              cur)
    unfolding proposed
    proposed-IsWithin actual cur (a, b, order) positive =
        clamp_bounds m sla.spec.min_replicas sla.spec.max_replicas _ ieee a b order (
          ratio_not_nan actual _ cur
            (round_off_pos m (q.milli_value sla.spec.metric.response_time) ieee positive))

-- The replicas and the time of the last change stay; or the stabilization period is over, the
-- machine has waited in the direction of the change, and the new number is within the limits.
abbrev pub IsChange :
    {Q : Type 0} → ServiceLevelAgreement Q → Clock → ℤ → HpaLogic → ℤ × HpaLogic → Type 0
IsChange sla clock cur l (r, l') =
    (r ≡ cur) × (l'.stabilize_time ≡ l.stabilize_time)
    ⊎ (stabilize_period_millis ≤ millis_since clock.checked l.stabilize_time)
      × IsWithin sla r
      × HasWaited clock l cur r
      × (l'.state ≡ steady)
      × (l'.stabilize_time ≡ clock.stored)

module _ (m : Machine) (ieee : IsIeee m) {Q : Type 0} ⦃q : Quantities Q⦄
    (sla : ServiceLevelAgreement Q) where
  pub advance-IsChange :
      (clock : Clock) (l : HpaLogic) (cur n : ℤ)
      → IsWithin sla n
      → is_stabilizing clock l ≡ false
      → IsChange sla clock cur l (advance clock l cur n)
  advance-IsChange clock l cur n within over = ground (arith, advance-IsAdvance clock l cur n)

  -- On a machine with IEEE 754 floats, for an agreement with ordered limits of 32 bits and a positive
  -- target, `HPALogic` answers the replicas that are there and keeps the time of the last change, or
  -- it changes both: then the stabilization period is over, the machine was scaling in this direction
  -- for longer than its period, the answer is within the limits, and the machine is steady and counts
  -- the next stabilization period from now.
  pub compute_replica-IsChange :
      (answer : Option Q) (clock : Clock) (cur : ℤ) (l : HpaLogic)
      → HasLimits sla
      → pos 0 <ℤ q.milli_value sla.spec.metric.response_time
      → IsChange sla clock cur l (compute_replica m sla answer clock cur l)
  unfolding compute_replica
  compute_replica-IsChange none clock cur l limits positive = ground arith
  compute_replica-IsChange (some response_time) clock cur l limits positive =
      let desired = of_int m (q.milli_value sla.spec.metric.response_time) in
      let actual = of_int m (q.milli_value response_time) in
      let n = proposed m sla.spec.min_replicas sla.spec.max_replicas actual desired cur in
      elim (Bool-cases (is_stabilizing clock l)) [
        | inl waits ↦ rw waits (inl (refl, refl))
        | inr over ↦
            rw over
              (elim (Bool-cases
                (ltb_ℤ n (tolerance_upper m desired) && ltb_ℤ (tolerance_lower m desired) n)) [
                  | inl tolerated ↦ rw tolerated (inl (refl, refl))
                  | inr out ↦ rw out (
                      advance-IsChange clock l cur n
                        (proposed-IsWithin m ieee sla _ cur limits positive) over)
                ])
      ]
