-- ===== src/Metrics/Provider/Grouping.antt =====
-- How the metrics of the pods are grouped by their services.
use mathlib.Core.List.{append_assoc, append-nil}
use kosmos_v.Prelude.{
  String, ◌≡◌, refl, sym, subst, ◌∙◌, ◌⊎◌, inl, inr, true, false, Option, none, some, List, [], ◌∷◌,
  ◌++◌, arith, str_eq_iff, ◌↔◌,
}
use kosmos_v.Prelude.Tests.{if◌then◌else◌, Bool-cases, Option-cases}
use kosmos_v.Prelude.Lists.{All}
use kosmos_v.Prelude.Results.{Result}
use kosmos_v.Quantity.{Quantities}
use kosmos_v.Float.{Machine}
use kosmos_v.Api.{Pod, PodScale}
use kosmos_v.Metrics.Client.{MetricMap}
use kosmos_v.Metrics.Provider.{MetricInfo, Cache, NamespacedName}
use kosmos_v.Metrics.Provider.Update.{
  Metrics, Polled, failed, panicked, polled, ServiceKey, same_service, Groups, add_to_group,
  update_metric, update_three, pod_metrics, update_pods,
}

pub same_service_iff : (a b : ServiceKey) → (same_service a b ≡ true) ↔ (a ≡ b)
same_service_iff a b = ground (arith, str_eq_iff a.namespace b.namespace, str_eq_iff a.name b.name)

pub Polled-cases :
    {A : Type 0} (o : Polled A) → (o ≡ failed) ⊎ (o ≡ panicked) ⊎ ((a : A) × (o ≡ polled a))
Polled-cases failed = inl refl
Polled-cases panicked = inr (inl refl)
Polled-cases (polled a) = inr (inr (a, refl))

module _ {Q : Type 0} where
  -- The metrics that are grouped under a service.
  abbrev pub members : ServiceKey → Groups Q → List (Metrics Q)
  members k [] = []
  members k ((k', xs) ∷ groups) = if same_service k' k then xs else members k groups

  -- No group is of this service, and no two groups are of the same service.
  abbrev pub IsAbsent : ServiceKey → Groups Q → Type 0
  IsAbsent k groups = All (λ g. same_service k g.0 ≡ false) groups

  abbrev pub AreKeys : Groups Q → Type 0
  AreKeys [] = Unit
  AreKeys ((k, xs) ∷ groups) = IsAbsent k groups × AreKeys groups

  members-add_to_group :
      (k k' : ServiceKey) (x : Metrics Q) (groups : Groups Q)
      → members k (add_to_group k' x groups)
        ≡ (if same_service k' k then members k groups ++ (x ∷ []) else members k groups)
  unfolding add_to_group
  members-add_to_group k k' x [] = ground arith
  members-add_to_group k k' x ((k'', xs) ∷ groups) = ground (
    arith,
    same_service_iff k'' k',
    same_service_iff k'' k,
    same_service_iff k' k,
    members-add_to_group k k' x groups,
  )

  IsAbsent-add_to_group :
      (k k' : ServiceKey) (x : Metrics Q) (groups : Groups Q)
      → same_service k k' ≡ false
      → IsAbsent k groups
      → IsAbsent k (add_to_group k' x groups)
  unfolding add_to_group
  IsAbsent-add_to_group k k' x [] apart h = (apart, tt)
  IsAbsent-add_to_group k k' x ((k'', xs) ∷ groups) apart (h, hs) =
      elim (Bool-cases (same_service k'' k')) [
        | inl same ↦ rw same (h, hs)
        | inr other ↦ rw other (h, IsAbsent-add_to_group k k' x groups apart hs)
      ]

  AreKeys-add_to_group :
      (k : ServiceKey) (x : Metrics Q) (groups : Groups Q)
      → AreKeys groups
      → AreKeys (add_to_group k x groups)
  unfolding add_to_group
  AreKeys-add_to_group k x [] h = (tt, tt)
  AreKeys-add_to_group k x ((k', xs) ∷ groups) (h, hs) = elim (Bool-cases (same_service k' k)) [
    | inl same ↦ rw same (h, hs)
    | inr other ↦
        rw other (IsAbsent-add_to_group k' k x groups other h, AreKeys-add_to_group k x groups hs)
  ]

  -- What a service's pods answered, among all answers.
  abbrev pub those : ServiceKey → List (ServiceKey × Metrics Q) → List (Metrics Q)
  those k [] = []
  those k ((k', x) ∷ readings) =
      if same_service k' k then x ∷ those k readings else those k readings

  -- The groups are of different services, and grew by these answers.
  abbrev pub Grouped :
      Groups Q → List (ServiceKey × Metrics Q) → Option (Cache Q × Groups Q) → Type 0
  Grouped groups readings none = Unit
  Grouped groups readings (some (a, groups')) =
      AreKeys groups'
      × ((k : ServiceKey) → members k groups' ≡ members k groups ++ those k readings)

  Grouped-along :
      (groups : Groups Q) {readings readings' : List (ServiceKey × Metrics Q)}
      {o o' : Option (Cache Q × Groups Q)}
      → readings' ≡ readings
      → o' ≡ o
      → Grouped groups readings o
      → Grouped groups readings' o'
  Grouped-along groups {readings'} {o} e f h =
      subst (Grouped groups readings') (sym f) (subst (λ r. Grouped groups r o) (sym e) h)

  Grouped-step :
      (groups : Groups Q) (k : ServiceKey) (x : Metrics Q)
      (readings : List (ServiceKey × Metrics Q)) (o : Option (Cache Q × Groups Q))
      → Grouped (add_to_group k x groups) readings o
      → Grouped groups ((k, x) ∷ readings) o
  Grouped-step groups k x readings none h = tt
  Grouped-step groups k x readings (some (cache, groups')) (keys, grown) =
      (keys, λ k'. grown k' ∙ joined k' (Bool-cases (same_service k k')))
    where
      joined :
          (k' : ServiceKey)
          → (same_service k k' ≡ true) ⊎ (same_service k k' ≡ false)
          → members k' (add_to_group k x groups) ++ those k' readings
            ≡ members k' groups ++ those k' ((k, x) ∷ readings)
      joined k' (inl e) =
          rw (members-add_to_group k' k x groups, e)
            (append_assoc (members k' groups) (x ∷ []) (those k' readings))
      joined k' (inr e) = rw (members-add_to_group k' k x groups, e) refl

module _ {E Q : Type 0} ⦃q : Quantities Q⦄ (m : Machine)
    (normalized : MetricInfo → Result E MetricInfo) (find_pod : String → String → Option (Pod Q))
    (poll : Pod Q → Option MetricMap) where
  -- The service that a pod scale names.
  abbrev pub service_of : PodScale Q → ServiceKey
  service_of scale = record { namespace = scale.spec.namespace; name = scale.spec.service }

  -- What the pods answer that are found, with their services.
  abbrev pub readings : List (PodScale Q) → List (ServiceKey × Metrics Q)
  readings [] = []
  readings (scale ∷ scales) = elim (find_pod scale.spec.namespace scale.spec.pod) [
    | none ↦ readings scales
    | some pod ↦ elim (pod_metrics m (poll pod)) [
      | failed ↦ readings scales
      | panicked ↦ readings scales
      | polled x ↦ (service_of scale, x) ∷ readings scales
    ]
  ]

  -- The three updates of a pod succeed.
  abbrev pub UpdatesPods : Type 0
  UpdatesPods =
      (object : NamespacedName) (x : Metrics Q) (cache : Cache Q)
      → (update_three normalized (update_metric normalized "pod" object) x cache).0 ≡ true

  module _ (updates : UpdatesPods) where
    pub update_pods-Grouped :
        (scales : List (PodScale Q)) (cache : Cache Q) (groups : Groups Q)
        → AreKeys groups
        → Grouped groups
            (readings scales)
            (update_pods m normalized find_pod poll scales cache groups)
    unfolding update_pods
    update_pods-Grouped [] cache groups h = (h, λ k. sym (append-nil _))
    update_pods-Grouped (scale ∷ scales) cache groups h =
        elim (Option-cases (find_pod scale.spec.namespace scale.spec.pod)) [
          | inl absent ↦
              Grouped-along groups (rw (absent, readings) refl) (rw (absent, update_pods) refl)
                (update_pods-Grouped scales cache groups h)
          | inr (pod, found) ↦ elim (Polled-cases (pod_metrics {Q = Q} m (poll pod))) [
            | inl e ↦
                Grouped-along groups (rw (found, e, readings) refl)
                  (rw (found, e, update_pods) refl) (update_pods-Grouped scales cache groups h)
            | inr (inl e) ↦
                Grouped-along groups {readings = readings scales} {o = none}
                  (rw (found, e, readings) refl) (rw (found, e, update_pods) refl) tt
            | inr (inr (x, e)) ↦
                let object : NamespacedName = record {
                  name = scale.spec.pod;
                  namespace = scale.spec.namespace;
                } in
                Grouped-along groups {readings = (service_of scale, x) ∷ readings scales}
                  (rw (found, e, readings) refl)
                  (rw (found, e, updates object x cache, update_pods) refl)
                  (Grouped-step groups (service_of scale) x (readings scales) _ (
                    update_pods-Grouped scales
                      (update_three normalized (update_metric normalized "pod" object) x cache).1
                      (add_to_group (service_of scale) x groups)
                      (AreKeys-add_to_group (service_of scale) x groups h)))
          ]
        ]
