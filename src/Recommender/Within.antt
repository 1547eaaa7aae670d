-- ===== src/Recommender/Within.antt =====
-- A recommendation under an agreement with limits that are whole thousandths: the capped resources
-- are such numbers too, and no more than the upper limits.
use kosmos_v.Prelude.{
  ℕ, ◌≤◌, String, ◌≡◌, refl, subst, inl, inr, true, Option, none, some, List, [], ◌∷◌, arith,
}
use kosmos_v.Prelude.Tests.{Bool-cases}
use kosmos_v.Prelude.Branches.{option_branch}
use kosmos_v.Prelude.Lists.{length, All}
use kosmos_v.Prelude.Int.{ltb_ℤ, not-ltb_ℤ→le}
use kosmos_v.Quantity.{Quantities, IsDecimal}
use kosmos_v.Quantity.Milli.{IsMilli, IsMilli-new_milli_quantity}
use kosmos_v.Float.{Machine}
use kosmos_v.Api.{ResourceList, cpu_of, memory_of, Pod, PodScale, ServiceLevelAgreement}
use kosmos_v.Contention.{capped_cpu, capped_memory}
use kosmos_v.Contention.Fits.{count, IsCount}
use kosmos_v.Contention.Remainder.{neg_part-zero}
use kosmos_v.Recommender.{
  Logic, fixed, adaptive, listed, apply_bounds, container_to_scale, compute_cpu_resource,
  compute_cpu_fixed, compute_cpu_adaptive, compute_memory_resource, with_desired, compute_pod_scale,
}
use kosmos_v.Recommender.Loop.{
  Key, LogicMap, logic_for, recommend_container, recommend_all, recommend_node,
}

module _ {Q : Type 0} ⦃q : Quantities Q⦄ where
  -- The upper limits of an agreement.
  abbrev pub limits_of : ServiceLevelAgreement Q → ResourceList Q
  limits_of sla = listed sla.spec.max_resources

  module _ (laws : IsDecimal Q) where
    abbrev pub IsWithin : Q → Q → Type 0
    IsWithin limit a = IsCount laws a × (count a ≤ count limit)

    -- Both limits of both resources are set, whole, in order and at most a number of thousandths.
    pub record IsLimited (most : ℕ) (sla : ServiceLevelAgreement Q) : Type 0 where
      pub lo : ResourceList Q
      pub hi : ResourceList Q
      pub lo_is : sla.spec.min_resources ≡ some lo
      pub hi_is : sla.spec.max_resources ≡ some hi
      pub cpu_order : IsWithin (cpu_of hi) (cpu_of lo)
      pub memory_order : IsWithin (memory_of hi) (memory_of lo)
      pub cpu_whole : IsCount laws (cpu_of hi)
      pub memory_whole : IsCount laws (memory_of hi)
      pub cpu_most : count (cpu_of hi) ≤ most
      pub memory_most : count (memory_of hi) ≤ most

    pub limits_most :
        (most : ℕ) (sla : ServiceLevelAgreement Q)
        → IsLimited most sla
        → (count (cpu_of (limits_of sla)) ≤ most) × (count (memory_of (limits_of sla)) ≤ most)
    limits_most most sla limited = rw limited.hi_is (limited.cpu_most, limited.memory_most)

    apply_bounds-IsWithin :
        (value lo hi : Q)
        → IsMilli laws value
        → IsWithin hi lo
        → IsCount laws hi
        → IsWithin hi (apply_bounds value lo hi true true).0
    unfolding apply_bounds
    apply_bounds-IsWithin value lo hi whole (low, order) high =
        elim (Bool-cases (ltb_ℤ (q.milli_value hi) (q.milli_value value))) [
          | inl above ↦ rw above (high, omega arith)
          | inr le ↦ rw le (elim (Bool-cases (ltb_ℤ (q.milli_value value) (q.milli_value lo))) [
            | inl below ↦ rw below (low, order)
            | inr ge ↦
                let under = not-ltb_ℤ→le (q.milli_value hi) (q.milli_value value) le in
                let over = not-ltb_ℤ→le (q.milli_value value) (q.milli_value lo) ge in
                let sign = neg_part-zero (q.milli_value value) (omega (arith, over, low)) in
                rw ge ((whole, sign), omega (arith, under, high))
          ])
        ]

    -- What a recommendation says under the limits of an agreement.
    abbrev pub KeepsLimits : ServiceLevelAgreement Q → PodScale Q → Type 0
    KeepsLimits sla p =
        IsWithin (cpu_of (limits_of sla)) (capped_cpu p)
        × IsWithin (memory_of (limits_of sla)) (capped_memory p)

    with_desired-KeepsLimits :
        (most : ℕ) (scale : PodScale Q) (sla : ServiceLevelAgreement Q) (cpu memory : Q)
        → IsMilli laws cpu
        → IsMilli laws memory
        → IsLimited most sla
        → KeepsLimits sla (with_desired scale sla cpu memory)
    unfolding with_desired
    with_desired-KeepsLimits most scale sla cpu memory c m limited =
        rw (limited.lo_is, limited.hi_is)
          (
            apply_bounds-IsWithin cpu (cpu_of limited.lo) (cpu_of limited.hi) c limited.cpu_order
                limited.cpu_whole,
            apply_bounds-IsWithin memory (memory_of limited.lo) (memory_of limited.hi) m
                limited.memory_order limited.memory_whole,
          )

    module _ (m : Machine) where
      compute_cpu_resource-IsMilli :
          (l : Logic) (scale : PodScale Q) (sla : ServiceLevelAgreement Q) (measured : Q)
          → IsMilli laws (compute_cpu_resource m l scale sla measured).0
      unfolding compute_cpu_resource compute_cpu_fixed compute_cpu_adaptive
      compute_cpu_resource-IsMilli (fixed l) scale sla measured = IsMilli-new_milli_quantity laws _
      compute_cpu_resource-IsMilli (adaptive l) scale sla measured =
          IsMilli-new_milli_quantity laws _

      compute_memory_resource-IsMilli :
          (scale : PodScale Q) → IsMilli laws (compute_memory_resource scale)
      unfolding compute_memory_resource
      compute_memory_resource-IsMilli scale = IsMilli-new_milli_quantity laws _

      -- A recommendation that is not nil, and its agreement's name.
      abbrev pub MayKeep : PodScale Q → ServiceLevelAgreement Q → Option (PodScale Q) → Type 0
      MayKeep scale sla none = Unit
      MayKeep scale sla (some p) =
          KeepsLimits sla p
          × (p.spec.namespace ≡ scale.spec.namespace)
          × (p.spec.sla ≡ scale.spec.sla)

      with_desired-names :
          (scale : PodScale Q) (sla : ServiceLevelAgreement Q) (cpu memory : Q)
          → ((with_desired scale sla cpu memory).spec.namespace ≡ scale.spec.namespace)
            × ((with_desired scale sla cpu memory).spec.sla ≡ scale.spec.sla)
      unfolding with_desired
      with_desired-names scale sla cpu memory = (refl, refl)

      compute_pod_scale-MayKeep :
          (most : ℕ) (l : Logic) (pod : Pod Q) (scale : PodScale Q) (sla : ServiceLevelAgreement Q)
          (measured : Q)
          → IsLimited most sla
          → MayKeep scale sla (compute_pod_scale m l pod scale sla measured).0
      unfolding compute_pod_scale
      compute_pod_scale-MayKeep most l pod scale sla measured limited =
          let P : Option (PodScale Q) × Logic → Type 0 = λ r. MayKeep scale sla r.0 in
          option_branch P (container_to_scale pod.containers sla.spec.service.container) (λ _. tt)
            (λ c _.
              let (namespace_is, name_is) = with_desired-names scale sla _ _ in
              (
                with_desired-KeepsLimits most scale sla _ _
                    (compute_cpu_resource-IsMilli l scale sla measured)
                    (compute_memory_resource-IsMilli scale) limited,
                namespace_is,
                name_is,
              ))

    module _ (m : Machine) (find_pod : String → String → Option (Pod Q))
        (find_sla : String → String → Option (ServiceLevelAgreement Q))
        (pod_metrics : Pod Q → Option Q) (most : ℕ)
        (limited : (namespace name : String) (sla : ServiceLevelAgreement Q)
          → find_sla namespace name ≡ some sla
          → IsLimited most sla) where
      -- It keeps to the limits of the agreement that it names.
      abbrev pub IsKept : PodScale Q → Type 0
      IsKept p =
          (sla : ServiceLevelAgreement Q) × (find_sla p.spec.namespace p.spec.sla ≡ some sla)
          × KeepsLimits sla p

      abbrev pub IsKeptIfAny : Option (PodScale Q) → Type 0
      IsKeptIfAny none = Unit
      IsKeptIfAny (some p) = IsKept p

      MayKeep-IsKeptIfAny :
          (scale : PodScale Q) (sla : ServiceLevelAgreement Q) (o : Option (PodScale Q))
          → find_sla scale.spec.namespace scale.spec.sla ≡ some sla
          → MayKeep m scale sla o
          → IsKeptIfAny o
      MayKeep-IsKeptIfAny scale sla none e h = tt
      MayKeep-IsKeptIfAny scale sla (some p) e (keeps, namespace_is, name_is) =
          (sla, rw (namespace_is, name_is) e, keeps)

      abbrev One : Option (Option (PodScale Q)) × LogicMap → Type 0
      One (none, logics) = Unit
      One (some new, logics) = IsKeptIfAny new

      recommend_container-One :
          (scale : PodScale Q) (logics : LogicMap)
          → One (recommend_container m find_pod find_sla pod_metrics scale logics)
      unfolding recommend_container
      recommend_container-One scale logics =
          option_branch One (find_pod scale.spec.namespace scale.spec.pod) (λ _. tt)
            (λ pod _.
              option_branch One (find_sla scale.spec.namespace scale.spec.sla) (λ _. tt)
                (λ sla e.
                  let key : Key = (scale.meta.namespace, scale.meta.name) in
                  let l = logic_for m (logics key) sla.spec.recommender_logic scale in
                  option_branch One (pod_metrics pod) (λ _. tt)
                    (λ measured _. MayKeep-IsKeptIfAny scale sla _ e (
                      compute_pod_scale-MayKeep m most l pod scale sla measured
                        (limited scale.spec.namespace scale.spec.sla sla e)))))

      -- The pod scales of a message, and their number.
      abbrev pub AreKept : ℕ → List (Option (PodScale Q)) → Type 0
      AreKept n scales = All IsKeptIfAny scales × (length scales ≤ n)

      recommend_all-AreKept :
          (scales : List (PodScale Q)) (logics : LogicMap)
          → AreKept (length scales) (recommend_all m find_pod find_sla pod_metrics scales logics).0
      unfolding recommend_all
      recommend_all-AreKept [] logics = (tt, omega arith)
      recommend_all-AreKept (scale ∷ scales) logics =
          let (answer, logics') =
            recommend_container m find_pod find_sla pod_metrics scale logics in
          let one = recommend_container-One scale logics in
          let (rest, few) = recommend_all-AreKept scales logics' in
          let P : List (Option (PodScale Q)) × LogicMap → Type 0 =
            λ r. AreKept (length (scale ∷ scales)) r.0 in
          option_branch P answer (λ e. (rest, omega (arith, few)))
            (λ new e. ((subst (λ o. One (o, logics')) e one, rest), omega (arith, few)))

      abbrev pub IsKeptMessage : ℕ → Option (String × List (Option (PodScale Q))) → Type 0
      IsKeptMessage n none = Unit
      IsKeptMessage n (some (node, scales)) = AreKept n scales

      listed-IsKeptMessage :
          (listed_scales : Option (List (PodScale Q))) (n : ℕ) (node : String) (logics : LogicMap)
          → ((scales : List (PodScale Q)) → listed_scales ≡ some scales → length scales ≤ n)
          → IsKeptMessage n
              (recommend_node m find_pod find_sla pod_metrics (λ _. listed_scales) node logics).0
      unfolding recommend_node
      listed-IsKeptMessage none n node logics few = tt
      listed-IsKeptMessage (some []) n node logics few = tt
      listed-IsKeptMessage (some (scale ∷ scales)) n node logics few =
          let (kept, small) = recommend_all-AreKept (scale ∷ scales) logics in
          (kept, omega (arith, small, few (scale ∷ scales) refl))

      -- The message of a node with at most `n` pod scales.
      pub recommend_node-IsKeptMessage :
          (scales_on : String → Option (List (PodScale Q))) (n : ℕ) (node : String)
          (logics : LogicMap)
          → ((scales : List (PodScale Q)) → scales_on node ≡ some scales → length scales ≤ n)
          → IsKeptMessage n (recommend_node m find_pod find_sla pod_metrics scales_on node logics).0
      unfolding recommend_node
      recommend_node-IsKeptMessage scales_on n node logics few =
          listed-IsKeptMessage (scales_on node) n node logics few
