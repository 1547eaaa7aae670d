-- ===== src/Examples/Recommending.antt =====
-- The theorems on the recommender at concrete inputs.
use kosmos_v.Prelude.{arith, String, ◌≡◌, refl, subst, Option, none, some, List, [], ◌∷◌, str_eq}
use kosmos_v.Prelude.Tests.{if◌then◌else◌}
use kosmos_v.Api.{Pod, PodScale, ServiceLevelAgreement}
use kosmos_v.Recommender.Cpu.{IsCalm, compute_cpu_resource_bounds}
use kosmos_v.Recommender.Loop.{recommend_node}
use kosmos_v.Recommender.Answers.{AreOrdered, IsMessage, recommend_node-IsMessage}
use kosmos_v.Prelude.Int.{pos, ◌≤ℤ◌}
use kosmos_v.Float.{constant}
use kosmos_v.Quantity.Thousandths.{
  Thousandths, thousandths, thousandths_quantities, Thousandths-IsDecimal,
}
use kosmos_v.Recommender.{Logic, fixed, compute_cpu_resource}
use kosmos_v.Examples.Data.{exact_machine, exact_machine-IsIeee, scale_of, pod_of, agreement}

-- The logic of a fresh pod scale.
abbrev fresh : Logic
fresh =
    fixed (record { xcprec = constant 300 1; cores = constant 300 1; prev_error = constant 0 1 })

-- Every pod has metrics, and pod b is not found.
abbrev some_pod : String → String → Option (Pod Thousandths)
some_pod namespace name = if str_eq name "b" then none else some (pod_of name)

abbrev two_scales : List (PodScale Thousandths)
two_scales = scale_of "a" 300 400 ∷ scale_of "b" 300 400 ∷ []

agreement-AreOrdered :
    (sla : ServiceLevelAgreement Thousandths)
    → some (agreement 500 3 7) ≡ some sla
    → AreOrdered exact_machine some_pod
        (λ namespace name. some (agreement 500 3 7))
        (λ pod. some (thousandths (pos 900)))
        sla
agreement-AreOrdered sla e =
    let same : agreement 500 3 7 ≡ sla = cc in
    subst
      (AreOrdered exact_machine some_pod (λ namespace name. some (agreement 500 3 7))
        (λ pod. some (thousandths (pos 900))))
      same (omega arith, omega arith)

recommend_node-IsMessage_example :
    IsMessage exact_machine some_pod
      (λ namespace name. some (agreement 500 3 7))
      (λ pod. some (thousandths (pos 900)))
      "node"
      (some two_scales)
      (recommend_node exact_machine some_pod
        (λ namespace name. some (agreement 500 3 7))
        (λ pod. some (thousandths (pos 900)))
        (λ node. some two_scales)
        "node"
        (λ key. none)).0
recommend_node-IsMessage_example =
    recommend_node-IsMessage exact_machine some_pod (λ namespace name. some (agreement 500 3 7))
      (λ pod. some (thousandths (pos 900))) (λ namespace name. agreement-AreOrdered)
      (λ node. some two_scales) "node" (λ key. none)

compute_cpu_resource_bounds_example :
    let (cpu, l') =
      compute_cpu_resource exact_machine fresh
        (scale_of "a" 300 400)
        (agreement 500 3 7)
        (thousandths (pos 900)) in
    IsCalm exact_machine exact_machine-IsIeee l' × (pos 5 ≤ℤ cpu.count) × (cpu.count ≤ℤ pos 450)
compute_cpu_resource_bounds_example =
    compute_cpu_resource_bounds exact_machine exact_machine-IsIeee Thousandths-IsDecimal fresh
      (scale_of "a" 300 400) (agreement 500 3 7) (thousandths (pos 900)) 300 (_, refl) refl
      (omega arith) (omega arith) (omega arith)
