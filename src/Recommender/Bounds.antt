-- ===== src/Recommender/Bounds.antt =====
-- What a recommendation keeps to: the agreement's limits on resources.
use kosmos_v.Prelude.{
  sym, subst, ◌≡◌, refl, inl, inr, false, Option, none, some, String, List, [], ◌∷◌, arith, str_eq,
}
use kosmos_v.Prelude.Tests.{Option-cases}
use kosmos_v.Prelude.Lists.{any}
use kosmos_v.Prelude.Int.{◌≤ℤ◌}
use kosmos_v.Quantity.{Quantities}
use kosmos_v.Float.{Machine}
use kosmos_v.Api.{ResourceList, cpu_of, memory_of, Container, Pod, PodScale, ServiceLevelAgreement}
use kosmos_v.Recommender.{
  Logic, apply_bounds, container_to_scale, listed, is_set, compute_memory_resource,
  compute_cpu_resource, with_desired, compute_pod_scale,
}

module _ {Q : Type 0} ⦃q : Quantities Q⦄ where
  open q use {milli_value}

  -- A resource that is read in the two lists, where they are given: nothing above the upper list,
  -- nothing below the lower one.
  abbrev pub IsBounded :
      (ResourceList Q → Q) → Option (ResourceList Q) → Option (ResourceList Q) → Q → Type 0
  IsBounded read none none a = Unit
  IsBounded read (some lo) none a = milli_value (read lo) ≤ℤ milli_value a
  IsBounded read none (some hi) a = milli_value a ≤ℤ milli_value (read hi)
  IsBounded read (some lo) (some hi) a =
      (milli_value (read lo) ≤ℤ milli_value a) × (milli_value a ≤ℤ milli_value (read hi))

  -- The limits of a resource are in order, where both are given.
  abbrev pub IsOrdered :
      (ResourceList Q → Q) → Option (ResourceList Q) → Option (ResourceList Q) → Type 0
  IsOrdered read (some lo) (some hi) = milli_value (read lo) ≤ℤ milli_value (read hi)
  IsOrdered read none hi = Unit
  IsOrdered read (some lo) none = Unit

  -- The capped value is within the limits, and it is the value itself where that is.
  abbrev pub IsCapped :
      (ResourceList Q → Q) → Option (ResourceList Q) → Option (ResourceList Q) → Q → Q → Type 0
  IsCapped read lo hi value result =
      IsBounded read lo hi result × (IsBounded read lo hi value → result ≡ value)

  apply_bounds-IsCapped :
      (read : ResourceList Q → Q) (lo hi : Option (ResourceList Q)) (value : Q)
      → IsOrdered read lo hi
      → IsCapped read lo hi value
          (apply_bounds value (read (listed lo)) (read (listed hi)) (is_set lo) (is_set hi)).0
  unfolding apply_bounds
  apply_bounds-IsCapped read none none value order = (tt, λ h. refl)
  apply_bounds-IsCapped read (some lo) none value order = ground arith
  apply_bounds-IsCapped read none (some hi) value order = ground arith
  apply_bounds-IsCapped read (some lo) (some hi) value order = ground arith

  finds :
      (cs : List (Container Q)) (name : String)
      → container_to_scale cs name ≡ none
      → any (λ c. str_eq c.name name) cs ≡ false
  unfolding container_to_scale
  finds [] name h = refl
  finds (c ∷ cs) name h = ground (arith, finds cs name)

  -- What an answer of `computePodScale` says of its arguments.
  abbrev pub Recommended :
      Pod Q → PodScale Q → ServiceLevelAgreement Q → Option (PodScale Q) → Type 0
  Recommended pod scale sla none =
      any (λ c. str_eq c.name sla.spec.service.container) pod.containers ≡ false
  Recommended pod scale sla (some new) =
      (new.meta ≡ scale.meta)
      × (new.spec ≡ record (scale.spec) { desired_resources = new.spec.desired_resources })
      × (new.status.actual_resources ≡ scale.status.actual_resources)
      × IsCapped cpu_of sla.spec.min_resources sla.spec.max_resources
          (cpu_of new.spec.desired_resources) (cpu_of new.status.capped_resources)
      × IsCapped memory_of sla.spec.min_resources sla.spec.max_resources
          (memory_of new.spec.desired_resources) (memory_of new.status.capped_resources)

  module _ (m : Machine) where
    pub compute_pod_scale-Recommended :
        (l : Logic) (pod : Pod Q) (scale : PodScale Q) (sla : ServiceLevelAgreement Q)
        (measured : Q)
        → IsOrdered cpu_of sla.spec.min_resources sla.spec.max_resources
        → IsOrdered memory_of sla.spec.min_resources sla.spec.max_resources
        → Recommended pod scale sla (compute_pod_scale m l pod scale sla measured).0
    unfolding compute_pod_scale with_desired
    compute_pod_scale-Recommended l pod scale sla measured cpu_order memory_order =
        let cpu = (compute_cpu_resource m l scale sla measured).0 in
        let lo = sla.spec.min_resources in
        let hi = sla.spec.max_resources in
        let memory = compute_memory_resource scale in
        elim (Option-cases (container_to_scale pod.containers sla.spec.service.container)) [
          | inl absent ↦
              let same : (compute_pod_scale m l pod scale sla measured).0 ≡ none = ground arith in
              subst (Recommended pod scale sla) (sym same)
                (finds pod.containers sla.spec.service.container absent)
          | inr (c, e) ↦
              let same : (compute_pod_scale m l pod scale sla measured).0
                  ≡ some (with_desired scale sla cpu memory) =
                ground arith in
              subst (Recommended pod scale sla) (sym same) (
                refl,
                refl,
                refl,
                apply_bounds-IsCapped cpu_of lo hi cpu cpu_order,
                apply_bounds-IsCapped memory_of lo hi memory memory_order,
              )
        ]
