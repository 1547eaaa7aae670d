-- ===== src/Recommender.antt =====
-- pkg/pod-autoscaler/pkg/recommender/logic.go: the two control loops that propose resources for a
-- pod, from the response time that was measured and the one agreed on. The measured value, which the
-- metrics API answers, is an argument. A product and a sum are rounded one after the other, as on
-- machines where the compiler fuses no operations.
pub mod Bounds
pub mod Loop
pub mod Answers
pub mod Within
pub mod Cpu
use kosmos_v.Prelude.{String, Bool, true, false, ◌&&◌, Option, none, some, List, [], ◌∷◌, str_eq}
use kosmos_v.Prelude.Tests.{if◌then◌else◌}
use kosmos_v.Prelude.Int.{ℤ, ltb_ℤ}
use kosmos_v.Quantity.{Quantities}
use kosmos_v.Float.{
  Machine, Float64, constant, neg, of_int, add, sub, mul, div, max, min, magnitude, sqrt, to_int,
  half_int64,
}
use kosmos_v.Api.{
  ResourceList, cpu_of, memory_of, resources, Container, Pod, PodScale, ServiceLevelAgreement,
}

-- `FixedGainControlLogic`
pub record FixedGainLogic : Type 0 where
  pub xcprec : Float64
  pub cores : Float64
  pub prev_error : Float64

-- `AdaptiveGainControlLogic`
pub record AdaptiveGainLogic : Type 0 where
  pub xcprec : Float64
  pub cores : Float64
  pub prev_error : Float64
  pub bc : Float64
  pub dc : Float64

-- The implementations of the interface `Logic`.
pub data Logic : Type 0 where
  fixed : FixedGainLogic → Logic
  adaptive : AdaptiveGainLogic → Logic

abbrev pub bc_gain : Float64
bc_gain = constant 40 1

abbrev pub dc_gain : Float64
dc_gain = constant 80 1

abbrev pub max_scale_out : Float64
max_scale_out = constant 3 2

abbrev pub min_cpu : Float64
min_cpu = constant 5 1

module _ (m : Machine) where
  -- `cores`, of the logic's former state, its two gains, the error and the old cores.
  unfoldable pub next_cores : Float64 → Float64 → Float64 → Float64 → Float64 → Float64
  next_cores xcprec bc dc e old =
      let xc = add m xcprec (mul m bc e) in
      min (max min_cpu (add m xc (mul m dc e))) (mul m old max_scale_out)

  unfoldable pub adapt_bc : Float64 → Float64 → Float64
  adapt_bc bc e =
      min (max (mul m bc (sqrt m (mul m (magnitude e) (constant 2 1)))) (constant 10 1))
        (constant 100 1)

  unfoldable pub adapt_dc : Float64 → Float64
  adapt_dc bc = min (max (div m (mul m bc dc_gain) bc_gain) (constant 15 1)) (constant 150 1)

module _ {Q : Type 0} where
  unfoldable pub container_to_scale : List (Container Q) → String → Option (Container Q)
  container_to_scale [] name = none
  container_to_scale (c ∷ cs) name =
      if str_eq c.name name then some c else container_to_scale cs name

  -- A nil map of resources reads as an empty one.
  abbrev pub listed : Option (ResourceList Q) → ResourceList Q
  listed none = record { cpu = none; memory = none; others = [] }
  listed (some r) = r

  abbrev pub is_set : Option (ResourceList Q) → Bool
  is_set none = false
  is_set (some r) = true

module _ {Q : Type 0} ⦃q : Quantities Q⦄ where
  unfoldable pub apply_bounds : Q → Q → Q → Bool → Bool → Q × Bool
  apply_bounds value lo hi check_lower check_upper =
      if check_upper && ltb_ℤ (q.milli_value hi) (q.milli_value value)
      then (hi, true)
      else (if check_lower && ltb_ℤ (q.milli_value value) (q.milli_value lo)
          then (lo, true)
          else (value, false))

  unfoldable pub compute_memory_resource : PodScale Q → Q
  compute_memory_resource scale =
      q.new_milli_quantity (q.milli_value (memory_of scale.spec.desired_resources))

  -- The code of `computePodScale` behind the desired values: the new pod scale.
  unfoldable pub with_desired : PodScale Q → ServiceLevelAgreement Q → Q → Q → PodScale Q
  with_desired scale sla cpu memory =
      let lo = listed sla.spec.min_resources in
      let hi = listed sla.spec.max_resources in
      let check_lower = is_set sla.spec.min_resources in
      let check_upper = is_set sla.spec.max_resources in
      let capped_cpu = (apply_bounds cpu (cpu_of lo) (cpu_of hi) check_lower check_upper).0 in
      let capped_memory =
        (apply_bounds memory (memory_of lo) (memory_of hi) check_lower check_upper).0 in
      record scale {
        spec = record (scale.spec) { desired_resources = resources cpu memory };
        status = record (scale.status) { capped_resources = resources capped_cpu capped_memory };
      }

  module _ (m : Machine) where
    unfoldable pub new_fixed_gain_logic : PodScale Q → FixedGainLogic
    new_fixed_gain_logic scale =
        let actual = of_int m (q.milli_value (cpu_of scale.status.actual_resources)) in
        record { xcprec = actual; cores = actual; prev_error = constant 0 1 }

    unfoldable pub new_adaptive_gain_logic : PodScale Q → AdaptiveGainLogic
    new_adaptive_gain_logic scale =
        let actual = of_int m (q.milli_value (cpu_of scale.status.actual_resources)) in
        record {
          xcprec = actual;
          cores = actual;
          prev_error = constant 0 1;
          bc = bc_gain;
          dc = dc_gain;
        }

    -- A response time in seconds.
    abbrev pub seconds : Q → Float64
    seconds t = div m (of_int m (q.milli_value t)) (constant 1000 1)

    -- The error `e`, for the agreed and the measured response time.
    unfoldable pub control_error : Q → Q → Float64
    control_error agreed measured =
        let e =
          sub m (div m (constant 1 1) (seconds agreed)) (div m (constant 1 1) (seconds measured)) in
        min (max e (neg (constant 10 1))) (constant 10 1)

    unfoldable pub compute_cpu_fixed :
        FixedGainLogic → PodScale Q → ServiceLevelAgreement Q → Q → Q × FixedGainLogic
    compute_cpu_fixed l scale sla measured =
        let old = of_int m (q.milli_value (cpu_of scale.status.actual_resources)) in
        let xcprec = sub m old (mul m bc_gain l.prev_error) in
        let e = control_error sla.spec.metric.response_time measured in
        (
          q.new_milli_quantity (to_int m half_int64 (next_cores m xcprec bc_gain dc_gain e old)),
          record { xcprec = xcprec; cores = old; prev_error = e },
        )

    unfoldable pub compute_cpu_adaptive :
        AdaptiveGainLogic → PodScale Q → ServiceLevelAgreement Q → Q → Q × AdaptiveGainLogic
    compute_cpu_adaptive l scale sla measured =
        let old = of_int m (q.milli_value (cpu_of scale.status.actual_resources)) in
        let xcprec = sub m old (mul m l.bc l.prev_error) in
        let e = control_error sla.spec.metric.response_time measured in
        let bc = adapt_bc m l.bc e in
        (
          q.new_milli_quantity (to_int m half_int64 (next_cores m xcprec l.bc l.dc e old)),
          record { xcprec = xcprec; cores = old; prev_error = e; bc = bc; dc = adapt_dc m bc },
        )

    -- The call of `computeCPUResource` through the interface.
    unfoldable pub compute_cpu_resource :
        Logic → PodScale Q → ServiceLevelAgreement Q → Q → Q × Logic
    compute_cpu_resource (fixed l) scale sla measured =
        let (cpu, l') = compute_cpu_fixed l scale sla measured in (cpu, fixed l')
    compute_cpu_resource (adaptive l) scale sla measured =
        let (cpu, l') = compute_cpu_adaptive l scale sla measured in (cpu, adaptive l')

    -- `none` where the pod lacks the container; the logic is as before then.
    unfoldable pub compute_pod_scale :
        Logic → Pod Q → PodScale Q → ServiceLevelAgreement Q → Q → Option (PodScale Q) × Logic
    compute_pod_scale l pod scale sla measured =
        elim (container_to_scale pod.containers sla.spec.service.container) [
          | none ↦ (none, l)
          | some c ↦
              let (cpu, l') = compute_cpu_resource l scale sla measured in
              (some (with_desired scale sla cpu (compute_memory_resource scale)), l')
        ]
