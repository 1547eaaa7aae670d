-- ===== src/ResourceUpdater/Sync.antt =====
-- When `syncPod` refuses, and what it changes in the pod otherwise.
use kosmos_v.Prelude.{
  String, ◌≡◌, refl, sym, subst, ◌⊎◌, inl, inr, true, false, List, [], ◌∷◌, ◌++◌, arith, str_eq,
}
use kosmos_v.Prelude.Tests.{Bool-cases}
use kosmos_v.Prelude.Lists.{any, All}
use kosmos_v.Prelude.Int.{pos, ◌<ℤ◌, ◌≤ℤ◌, leb_ℤ}
use kosmos_v.Prelude.Results.{Result, ok, err}
use kosmos_v.Quantity.{Quantities}
use kosmos_v.Api.{ResourceList, cpu_of, memory_of, Container, is_guaranteed, Pod, PodScale}
use kosmos_v.ResourceUpdater.{
  SyncError, not_guaranteed, cpu_not_positive, memory_not_positive, resized, resize_first, sync_pod,
}

module _ {Q : Type 0} where
  -- Either no container has the name and nothing changes, or only the first that has it does.
  abbrev pub IsResized : String → ResourceList Q → List (Container Q) → List (Container Q) → Type 0
  IsResized name actual old new =
      (any (λ c. str_eq c.name name) old ≡ false) × (new ≡ old)
      ⊎ ((before : List (Container Q)) × (c : Container Q) × (after : List (Container Q)) × (any
              (λ d. str_eq d.name name) before
            ≡ false)
          × (str_eq c.name name ≡ true)
          × (old ≡ before ++ (c ∷ after))
          × (new ≡ before ++ (resized actual c ∷ after)))

  IsResized-cons :
      (name : String) (actual : ResourceList Q) (c : Container Q) (old new : List (Container Q))
      → str_eq c.name name ≡ false
      → IsResized name actual old new
      → IsResized name actual (c ∷ old) (c ∷ new)
  IsResized-cons name actual c old new other (inl (absent, same)) = inl (rw other absent, rw same)
  IsResized-cons name actual c old new other (inr (before, d, after, absent, here, e, f)) =
      inr (c ∷ before, d, after, rw other absent, here, rw e, rw f)

  resize_first-IsResized :
      (name : String) (actual : ResourceList Q) (cs : List (Container Q))
      → IsResized name actual cs (resize_first name actual cs)
  unfolding resize_first
  resize_first-IsResized name actual [] = inl (refl, refl)
  resize_first-IsResized name actual (c ∷ cs) = elim (Bool-cases (str_eq c.name name)) [
    | inl here ↦ rw here (inr ([], c, cs, refl, here, refl, refl))
    | inr other ↦
        let rest = resize_first name actual cs in
        let same : resize_first name actual (c ∷ cs) ≡ c ∷ rest = rw other in
        subst (IsResized name actual (c ∷ cs)) (sym same)
          (IsResized-cons name actual c cs rest other (resize_first-IsResized name actual cs))
  ]

  -- Requests and limits coincide, as the guaranteed class asks of every container.
  abbrev pub IsBalanced : Container Q → Type 0
  IsBalanced c = c.resources.requests ≡ c.resources.limits

  resize_first-IsBalanced :
      (name : String) (actual : ResourceList Q) (cs : List (Container Q))
      → All IsBalanced cs
      → All IsBalanced (resize_first name actual cs)
  unfolding resize_first
  resize_first-IsBalanced name actual [] h = tt
  resize_first-IsBalanced name actual (c ∷ cs) (h, hs) =
      ground (arith, resize_first-IsBalanced name actual cs hs)

module _ {Q : Type 0} ⦃q : Quantities Q⦄ where
  -- What an answer of `syncPod` says of its arguments.
  abbrev pub Synced : Pod Q → PodScale Q → Result SyncError (Pod Q) → Type 0
  Synced pod scale (err not_guaranteed) = is_guaranteed pod.qos_class ≡ false
  Synced pod scale (err cpu_not_positive) =
      (is_guaranteed pod.qos_class ≡ true)
      × (q.milli_value (cpu_of scale.status.actual_resources) ≤ℤ pos 0)
  Synced pod scale (err memory_not_positive) =
      (is_guaranteed pod.qos_class ≡ true)
      × (pos 0 <ℤ q.milli_value (cpu_of scale.status.actual_resources))
      × (q.milli_value (memory_of scale.status.actual_resources) ≤ℤ pos 0)
  Synced pod scale (ok new) =
      (is_guaranteed pod.qos_class ≡ true)
      × (pos 0 <ℤ q.milli_value (cpu_of scale.status.actual_resources))
      × (pos 0 <ℤ q.milli_value (memory_of scale.status.actual_resources))
      × (new ≡ record pod { containers = new.containers })
      × IsResized scale.spec.container scale.status.actual_resources pod.containers new.containers

  -- `syncPod` refuses a pod outside the guaranteed class, then a CPU value that is not positive,
  -- then such a memory value, and nothing else. Otherwise it returns the pod with the requests and
  -- limits of the first container of the pod scale's name set to the actual resources, and all else
  -- as it was.
  pub sync_pod-Synced : (pod : Pod Q) (scale : PodScale Q) → Synced pod scale (sync_pod pod scale)
  unfolding sync_pod
  sync_pod-Synced pod scale =
      let actual = scale.status.actual_resources in
      elim (Bool-cases (is_guaranteed pod.qos_class)) [
        | inr g ↦ rw g g
        | inl g ↦ rw g (elim (Bool-cases (leb_ℤ (q.milli_value (cpu_of actual)) (pos 0))) [
          | inl c ↦ rw c (g, ground arith)
          | inr c ↦ rw c (elim (Bool-cases (leb_ℤ (q.milli_value (memory_of actual)) (pos 0))) [
            | inl m ↦ rw m (g, ground arith, ground arith)
            | inr m ↦ rw m (
              g,
              ground arith,
              ground arith,
              refl,
              resize_first-IsResized scale.spec.container actual pod.containers,
            )
          ])
        ])
      ]

  containers-sync_pod :
      (pod : Pod Q) (scale : PodScale Q) (new : Pod Q)
      → sync_pod pod scale ≡ ok new
      → resize_first scale.spec.container scale.status.actual_resources pod.containers
        ≡ new.containers
  unfolding sync_pod
  containers-sync_pod pod scale new e = ground arith

  -- A pod whose containers all have equal requests and limits keeps that where `syncPod` returns it
  -- resized.
  pub sync_pod-IsBalanced :
      (pod : Pod Q) (scale : PodScale Q) {new : Pod Q}
      → All IsBalanced pod.containers
      → sync_pod pod scale ≡ ok new
      → All IsBalanced new.containers
  sync_pod-IsBalanced pod scale {new} h e =
      subst (All IsBalanced) (containers-sync_pod pod scale new e) (
        resize_first-IsBalanced scale.spec.container scale.status.actual_resources pod.containers h)
