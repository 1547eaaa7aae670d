-- ===== src/Contention/Tracking.antt =====
-- When `NewContentionManager` returns nil, and what it returns otherwise.
use mathlib.Core.Bool.{false≢true}
use kosmos_v.Prelude.{
  String, ◌≡◌, refl, sym, ap, subst, ◌∙◌, ◌⊎◌, inl, inr, true, false, Option, none, some, List, [],
  ◌∷◌,
}
use kosmos_v.Prelude.Tests.{Bool-cases}
use kosmos_v.Prelude.Int.{pos, ltb_ℤ}
use kosmos_v.Quantity.{Quantities}
use kosmos_v.Api.{cpu_of, memory_of, is_guaranteed, Pod, PodScale, Node}
use kosmos_v.NodeScales.{NodeScales, contains}
use kosmos_v.NodeScales.Removal.{Removed, remove-Removed}
use kosmos_v.Contention.{
  ContentionManager, Untracked, visit_pod, visit_pods, with_capacity, new_contention_manager,
}

module _ {Q : Type 0} where
  succeeds :
      (s : NodeScales Q) (name namespace : String) (o : Option (PodScale Q × NodeScales Q))
      → Removed name namespace s o
      → contains s name namespace ≡ true
      → (r : PodScale Q × NodeScales Q) × (o ≡ some r)
  succeeds s name namespace none absent here = absurd (false≢true (sym absent ∙ here))
  succeeds s name namespace (some r) h here = (r, refl)

module _ {Q : Type 0} ⦃q : Quantities Q⦄ where
  visit_pod_total :
      (u : Untracked Q) (pod : Pod Q) → (u' : Untracked Q) × (visit_pod u pod ≡ some u')
  unfolding visit_pod
  visit_pod_total u pod = elim (Bool-cases (contains u.scales pod.meta.name pod.meta.namespace)) [
    | inr absent ↦ rw absent (_, refl)
    | inl here ↦ elim (Bool-cases (is_guaranteed pod.qos_class)) [
      | inl guaranteed ↦ rw (here, guaranteed) (_, refl)
      | inr burstable ↦
          let (r, e) =
            succeeds u.scales pod.meta.name pod.meta.namespace _
              (remove-Removed pod.meta.name pod.meta.namespace u.scales) here in
          rw (here, burstable, e) (_, refl)
    ]
  ]

  visit_pods_total :
      (u : Untracked Q) (pods : List (Pod Q)) → (u' : Untracked Q) × (visit_pods u pods ≡ some u')
  unfolding visit_pods
  visit_pods_total u [] = (u, refl)
  visit_pods_total u (pod ∷ pods) =
      let (u', e) = visit_pod_total u pod in
      let (end, f) = visit_pods_total u' pods in
      (end, ap (λ o. elim o [ none ↦ none | some v ↦ visit_pods v pods ]) e ∙ f)

  abbrev pub IsNegative : Q → Type 0
  IsNegative a = ltb_ℤ (q.sign a) (pos 0) ≡ true

  abbrev pub IsNotNegative : Q → Type 0
  IsNotNegative a = ltb_ℤ (q.sign a) (pos 0) ≡ false

  -- `nil` where a resource that the untracked pods leave is negative; else a manager of the
  -- resources that they leave, which are not negative, and of the pod scales that were kept.
  abbrev pub Managed : Node Q → Untracked Q → Option (ContentionManager Q) → Type 0
  Managed n u none =
      IsNegative (q.add (cpu_of n.capacity) (q.neg u.cpu))
      ⊎ IsNegative (q.add (memory_of n.capacity) (q.neg u.memory))
  Managed n u (some cm) =
      (cm.cpu_capacity ≡ q.add (cpu_of n.capacity) (q.neg u.cpu))
      × (cm.memory_capacity ≡ q.add (memory_of n.capacity) (q.neg u.memory))
      × IsNotNegative cm.cpu_capacity
      × IsNotNegative cm.memory_capacity
      × (cm.pod_scales ≡ u.scales.pod_scales)

  with_capacity-Managed : (n : Node Q) (u : Untracked Q) → Managed n u (with_capacity n u)
  unfolding with_capacity
  with_capacity-Managed n u =
      let cpu = q.add (cpu_of n.capacity) (q.neg u.cpu) in
      let memory = q.add (memory_of n.capacity) (q.neg u.memory) in
      elim (Bool-cases (ltb_ℤ (q.sign cpu) (pos 0))) [
        | inl less ↦ rw less (inl less)
        | inr more ↦ elim (Bool-cases (ltb_ℤ (q.sign memory) (pos 0))) [
          | inl less ↦ rw (more, less) (inr less)
          | inr most ↦ rw (more, most) (refl, refl, more, most, refl)
        ]
      ]

  -- The loop over the pods of the node always comes to its end: its call of `Remove` never fails.
  -- Then `NewContentionManager` returns nil only where the untracked pods leave a negative resource,
  -- and else a manager whose capacities are what they leave and are not negative.
  pub new_contention_manager-Managed :
      (n : Node Q) (ns : NodeScales Q) (pods : List (Pod Q))
      → (u : Untracked Q) × (visit_pods
            (record { cpu = q.empty; memory = q.empty; scales = ns })
            pods
          ≡ some u)
        × Managed n u (new_contention_manager n ns pods)
  unfolding new_contention_manager
  new_contention_manager-Managed n ns pods =
      let (u, e) =
        visit_pods_total (record { cpu = q.empty; memory = q.empty; scales = ns }) pods in
      (
        u,
        e,
        subst (Managed n u) (sym (ap (λ o. elim o [ none ↦ none | some v ↦ with_capacity n v ]) e))
            (with_capacity-Managed n u),
      )
