-- ===== src/Replicas/Hpa/Tolerance.antt =====
-- The tolerance check of `HPALogic.computeReplica` compares a number of replicas with bounds on a
-- response time.
use kosmos_v.Prelude.{◌≡◌, some, arith}
use kosmos_v.Prelude.Int.{ℤ, pos, ◌<ℤ◌}
use kosmos_v.Quantity.{Quantities}
use kosmos_v.Float.{Machine, of_ℤ, of_int}
use kosmos_v.Float.Order.{IsIeee}
use kosmos_v.Replicas.{steady, HpaLogic, Clock}
use kosmos_v.Replicas.Hpa.{tolerance_upper, tolerance_lower, compute_replica}
use kosmos_v.Replicas.Hpa.Bounds.{HasLimits, proposed-IsWithin}
use kosmos_v.Api.{ServiceLevelAgreement}

module _ (m : Machine) (ieee : IsIeee m) {Q : Type 0} ⦃q : Quantities Q⦄
    (sla : ServiceLevelAgreement Q) where
  -- On a machine with IEEE 754 floats, for an agreement with ordered limits of 32 bits and a positive
  -- target: if all numbers of replicas that it allows lie strictly between the integers below 0.8 and
  -- 1.2 times its response time in milliseconds, as floats, then a call of `HPALogic` that gets a
  -- metric keeps the replicas, however long the responses take, and makes the machine steady.
  pub tolerance_blocks :
      (response_time : Q) (clock : Clock) (cur : ℤ) (l : HpaLogic)
      → HasLimits sla
      → pos 0 <ℤ q.milli_value sla.spec.metric.response_time
      → tolerance_lower m (of_int m (q.milli_value sla.spec.metric.response_time))
        <ℤ sla.spec.min_replicas
      → sla.spec.max_replicas
        <ℤ tolerance_upper m (of_int m (q.milli_value sla.spec.metric.response_time))
      → compute_replica m sla (some response_time) clock cur l ≡ (cur, record l { state = steady })
  unfolding compute_replica
  tolerance_blocks response_time clock cur l limits positive low high = ground (
    arith,
    proposed-IsWithin m ieee sla (m.round_off (of_ℤ (q.milli_value response_time))) cur limits
        positive,
  )
