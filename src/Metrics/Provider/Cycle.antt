-- ===== src/Metrics/Provider/Cycle.antt =====
-- A whole call of `updateMetrics`: from the answers of the pods to the metrics of the services.
use kosmos_v.Prelude.{
  String, ◌≡◌, refl, sym, ap, subst, ◌∙◌, ◌≢◌, inl, inr, Option, some, List, [], ◌∷◌, ◌++◌, arith,
}
use mathlib.Core.Bool.{false≢true}
use kosmos_v.Prelude.Tests.{Bool-cases, Option-cases}
use kosmos_v.Prelude.Branches.{some_branch}
use kosmos_v.Prelude.Results.{Result}
use kosmos_v.Quantity.{Quantities}
use kosmos_v.Float.{Machine}
use kosmos_v.Api.{Pod, PodScale}
use kosmos_v.Metrics.Client.{MetricMap}
use kosmos_v.Metrics.Provider.{MetricInfo, Cache, NamespacedName}
use kosmos_v.Metrics.Provider.Update.{
  panicked, ServiceKey, same_service, Groups, add_to_group, update_metric, update_three,
  pod_metrics, update_pods, update_services, update_metrics, average,
}
use kosmos_v.Metrics.Provider.Services.{HasNames, Holds, Elsewhere, update_services-Holds}
use kosmos_v.Metrics.Provider.Grouping.{
  same_service_iff, Polled-cases, members, IsAbsent, AreKeys, those, Grouped, readings, UpdatesPods,
  update_pods-Grouped,
}

abbrev pub service_object : ServiceKey → NamespacedName
service_object k = record { name = k.name; namespace = k.namespace }

abbrev key_of : NamespacedName → ServiceKey
key_of o = record { namespace = o.namespace; name = o.name }

module _ {Q : Type 0} where
  -- Go walks over every entry of a map once, in an order that it does not specify.
  pub record IsWalk (walk : Groups Q → Groups Q) : Type 0 where
    pub keys : (groups : Groups Q) → AreKeys groups → AreKeys (walk groups)
    pub same : (groups : Groups Q) (k : ServiceKey) → members k (walk groups) ≡ members k groups

  -- Where the group of a service stands.
  record IsGroup (k : ServiceKey) (groups : Groups Q) : Type 0 where
    pub before : Groups Q
    pub after : Groups Q
    pub is_split : groups ≡ before ++ ((k, members k groups) ∷ after)
    pub absent : IsAbsent k after

  find-IsGroup :
      (k : ServiceKey) (groups : Groups Q)
      → AreKeys groups
      → members k groups ≢ []
      → IsGroup k groups
  find-IsGroup k [] h filled = absurd (filled refl)
  find-IsGroup k ((k', xs) ∷ groups) (h, hs) filled = elim (Bool-cases (same_service k' k)) [
    | inl same ↦
        let e : k' ≡ k = (same_service_iff k' k).0 same in
        record {
          before = [];
          after = groups;
          is_split = rw same (ap (λ x. (x, xs) ∷ groups) e);
          absent = subst (λ x. IsAbsent x groups) e h;
        }
    | inr other ↦
        let rest = find-IsGroup k groups hs (λ e. filled (rw other e)) in
        record {
          before = (k', xs) ∷ rest.before;
          after = rest.after;
          is_split = rw other (ap (λ gs. (k', xs) ∷ gs) rest.is_split);
          absent = rest.absent;
        }
  ]

module _ {E Q : Type 0} (normalized : MetricInfo → Result E MetricInfo) where
  IsAbsent-Elsewhere :
      (k : ServiceKey) (groups : Groups Q)
      → IsAbsent k groups
      → Elsewhere normalized (service_object k) groups
  IsAbsent-Elsewhere k [] h = tt
  IsAbsent-Elsewhere k (g ∷ groups) (h, hs) = (
    (λ e. false≢true (sym h ∙ (same_service_iff k g.0).1 (ap key_of e))),
    IsAbsent-Elsewhere k groups hs,
  )

  -- With a name for each of the three metrics the updates of a pod succeed.
  HasNames-UpdatesPods :
      ⦃q : Quantities Q⦄ (m : Machine) (find_pod : String → String → Option (Pod Q))
      (poll : Pod Q → Option MetricMap) (time count rate : MetricInfo)
      → HasNames normalized "pod" time count rate
      → UpdatesPods m normalized find_pod poll
  unfolding update_three update_metric
  HasNames-UpdatesPods m find_pod poll time count rate names =
      λ object x cache. ground (arith, names.time_named, names.count_named, names.rate_named)

module _ {E Q : Type 0} ⦃q : Quantities Q⦄ (m : Machine)
    (normalized : MetricInfo → Result E MetricInfo) (find_pod : String → String → Option (Pod Q))
    (poll : Pod Q → Option MetricMap) where
  -- No answer of a pod makes `PodMetrics` panic.
  abbrev pub NeverPanics : Type 0
  NeverPanics = (pod : Pod Q) → pod_metrics {Q = Q} m (poll pod) ≢ panicked

  abbrev IsDone : {A : Type 0} → Option A → Type 0
  IsDone {A} o = (a : A) × (o ≡ some a)

  update_pods_total :
      (scales : List (PodScale Q)) (cache : Cache Q) (groups : Groups Q)
      → NeverPanics
      → UpdatesPods m normalized find_pod poll
      → IsDone (update_pods m normalized find_pod poll scales cache groups)
  unfolding update_pods
  update_pods_total [] cache groups calm updates = ((cache, groups), refl)
  update_pods_total (scale ∷ scales) cache groups calm updates =
      elim (Option-cases (find_pod scale.spec.namespace scale.spec.pod)) [
        | inl absent ↦ rw (absent, update_pods) (update_pods_total scales cache groups calm updates)
        | inr (pod, found) ↦ elim (Polled-cases (pod_metrics {Q = Q} m (poll pod))) [
          | inl e ↦ rw (found, e, update_pods) (update_pods_total scales cache groups calm updates)
          | inr (inl e) ↦ absurd (calm pod e)
          | inr (inr (x, e)) ↦
              let object : NamespacedName = record {
                name = scale.spec.pod;
                namespace = scale.spec.namespace;
              } in
              rw (found, e, updates object x cache, update_pods)
                (update_pods_total scales
                  (update_three normalized (update_metric normalized "pod" object) x cache).1
                  (add_to_group
                    (record { namespace = scale.spec.namespace; name = scale.spec.service }) x
                    groups)
                  calm updates)
        ]
      ]

  -- If the mapper has three names for the metrics of pods and three different ones for those of
  -- services, no pod's answer makes `PodMetrics` panic, the pod scales are listed and Go walks over
  -- each group once: then a call of `updateMetrics` comes to its end, and afterwards the cache holds,
  -- for every service of which a pod answered, the averages over the answers of exactly its pods.
  pub update_metrics-Holds :
      (walk : Groups Q → Groups Q) (scales : List (PodScale Q)) (cache : Cache Q)
      (pod_time pod_count pod_rate time count rate : MetricInfo)
      → IsWalk walk
      → NeverPanics
      → HasNames normalized "pod" pod_time pod_count pod_rate
      → (names : HasNames normalized "service" time count rate)
      → (cache' : Cache Q) × (update_metrics m normalized find_pod poll walk (some scales) cache
          ≡ some cache')
        × ((k : ServiceKey)
            → those k (readings m normalized find_pod poll scales) ≢ []
            → Holds normalized "service" time count rate names
                (service_object k)
                (average (those k (readings m normalized find_pod poll scales)))
                cache')
  unfolding update_metrics
  update_metrics-Holds walk scales cache pod_time pod_count pod_rate time count rate walks calm
        pod_names names =
      let updates =
        HasNames-UpdatesPods normalized m find_pod poll pod_time pod_count pod_rate pod_names in
      let ((cache', groups), done) = update_pods_total scales cache [] calm updates in
      let (keys, grown) =
        subst (Grouped [] (readings m normalized find_pod poll scales)) done
          (update_pods-Grouped m normalized find_pod poll updates scales cache [] tt) in
      let end = update_services normalized (walk groups) cache' in
      (
        end,
        some_branch (λ o. o ≡ some end) _ _ (cache', groups) done refl,
        λ k filled.
            let is_members = walks.same groups k ∙ grown k in
            let group =
              find-IsGroup k (walk groups) (walks.keys groups keys)
                (λ e. filled (sym is_members ∙ e)) in
            let held =
              update_services-Holds normalized time count rate group.before group.after k
                (members k (walk groups)) cache' names
                (IsAbsent-Elsewhere normalized k group.after group.absent) in
            subst
              (λ xs.
                Holds normalized "service" time count rate names (service_object k) (average xs)
                  end)
              is_members
              (subst
                (λ gs.
                  Holds normalized "service" time count rate names (service_object k)
                    (average (members k (walk groups))) (update_services normalized gs cache'))
                (sym group.is_split) held),
      )
