-- ===== src/Replicas/Hpa.antt =====
-- pkg/pod-replicas-updater/pkg/logic.go: `HPALogic.computeReplica`. The service's response time,
-- which the metrics API answers, is an argument, `none` for an error.
pub mod Bounds
pub mod Tolerance
use kosmos_v.Prelude.{◌&&◌, Option, none, some}
use kosmos_v.Prelude.Tests.{if◌then◌else◌}
use kosmos_v.Prelude.Int.{ℤ, ltb_ℤ}
use kosmos_v.Quantity.{Quantities}
use kosmos_v.Float.{
  Machine, Float64, finite, constant, of_int, mul, div, min, max, round, to_int, half_int32,
}
use kosmos_v.Replicas.{LogicState, steady, HpaLogic, Clock, is_stabilizing, advance}
use kosmos_v.Api.{ServiceLevelAgreement}

-- A constant of the source that is no integer, as the compiler rounds it.
abbrev pub rounded : Machine → Float64 → Float64
rounded m (finite q) = finite (m.round_off q)
rounded m f = f

module _ (m : Machine) where
  -- `math.Min(float64(maxReplicas), math.Max(float64(minReplicas), x))`
  abbrev pub between : ℤ → ℤ → Float64 → Float64
  between lo hi x = min (of_int m hi) (max (of_int m lo) x)

  -- The replicas that would bring the response time to its target, within the limits.
  unfoldable pub proposed : ℤ → ℤ → Float64 → Float64 → ℤ → ℤ
  proposed lo hi actual desired cur =
      to_int m half_int32 (between lo hi (round (mul m (div m actual desired) (of_int m cur))))

  -- The bounds of the tolerance check: 1.2 and 2 - 1.2 times the target.
  abbrev pub tolerance_upper : Float64 → ℤ
  tolerance_upper desired = to_int m half_int32 (mul m desired (rounded m (constant 12 10)))

  abbrev pub tolerance_lower : Float64 → ℤ
  tolerance_lower desired = to_int m half_int32 (mul m desired (rounded m (constant 8 10)))

module _ {Q : Type 0} ⦃q : Quantities Q⦄ (m : Machine) where
  unfoldable pub compute_replica :
      ServiceLevelAgreement Q → Option Q → Clock → ℤ → HpaLogic → ℤ × HpaLogic
  compute_replica sla answer clock cur l =
      if is_stabilizing clock l then (cur, record l { state = steady }) else elim answer [
        | none ↦ (cur, l)
        | some response_time ↦
            let desired = of_int m (q.milli_value sla.spec.metric.response_time) in
            let actual = of_int m (q.milli_value response_time) in
            let n = proposed m sla.spec.min_replicas sla.spec.max_replicas actual desired cur in
            if ltb_ℤ n (tolerance_upper m desired) && ltb_ℤ (tolerance_lower m desired) n
            then (cur, record l { state = steady })
            else advance clock l cur n
      ]
