-- ===== src/Metrics/Provider/Services.antt =====
-- What the cache holds after the metrics of the services are stored, in whatever order.
use kosmos_v.Prelude.{
  String, ◌≡◌, refl, ◌≢◌, inl, inr, Bool, true, some, List, [], ◌∷◌, ◌++◌, ap, ◌∙◌, arith,
}
use kosmos_v.Prelude.Branches.{result_branch}
use kosmos_v.Prelude.Lists.{All}
use kosmos_v.Prelude.Results.{Result, ok, Result-cases}
use kosmos_v.Quantity.{Quantities}
use kosmos_v.Metrics.{MetricType, response_time, request_count, throughput, text_of}
use kosmos_v.Metrics.Provider.{
  MetricInfo, NamespacedName, MetricResource, Cache, lookup, set_metrics,
}
use kosmos_v.Metrics.Provider.Cached.{same_resource_iff, lookup-set_metrics}
use kosmos_v.Metrics.Provider.Update.{
  Metrics, ServiceKey, Groups, update_metric, update_three, update_services, average,
}

-- The names that the mapper gives to the three metrics of a kind of objects; they differ.
pub record HasNames {E : Type 0} (normalized : MetricInfo → Result E MetricInfo) (resource : String)
    (time count rate : MetricInfo) : Type 0 where
  pub time_named :
      normalized
        (record { group_resource = resource; metric = text_of response_time; namespaced = true })
      ≡ ok time
  pub count_named :
      normalized
        (record { group_resource = resource; metric = text_of request_count; namespaced = true })
      ≡ ok count
  pub rate_named :
      normalized
        (record { group_resource = resource; metric = text_of throughput; namespaced = true })
      ≡ ok rate
  pub time_count : time ≢ count
  pub time_rate : time ≢ rate
  pub count_rate : count ≢ rate

module _ {Q : Type 0} where
  lookup-set_self :
      (k : MetricResource) (v : Q) (cache : Cache Q) → lookup k (set_metrics k v cache) ≡ some v
  lookup-set_self k v cache = ground (arith, lookup-set_metrics k k v cache, same_resource_iff k k)

  lookup-set_apart :
      (r k : MetricResource) (v : Q) (cache : Cache Q)
      → r ≢ k
      → lookup r (set_metrics k v cache) ≡ lookup r cache
  lookup-set_apart r k v cache apart =
      ground (arith, lookup-set_metrics r k v cache, same_resource_iff k r)

module _ {E Q : Type 0} (normalized : MetricInfo → Result E MetricInfo) where
  update_metric_kept :
      (resource : String) (object : NamespacedName) (t : MetricType) (v : Q) (r : MetricResource)
      (cache cache' : Cache Q)
      → r.object ≢ object
      → update_metric normalized resource object t v cache ≡ ok cache'
      → lookup r cache' ≡ lookup r cache
  unfolding update_metric
  update_metric_kept resource object t v r cache cache' apart e =
      elim (Result-cases (
        normalized (record { group_resource = resource; metric = text_of t; namespaced = true }))) [
          | inl (info, n) ↦
              let k : MetricResource = record { info = info; object = object } in
              let is_set : cache' ≡ set_metrics k v cache = ground (arith, e, n) in
              ap (lookup r) is_set
              ∙ lookup-set_apart r k v cache (λ x. apart (ap (λ (y : MetricResource). y.object) x))
          | inr (x, n) ↦ ground (arith, e, n)
        ]

  update_three_kept :
      (resource : String) (object : NamespacedName) (x : Metrics Q) (r : MetricResource)
      (cache : Cache Q)
      → r.object ≢ object
      → lookup r (update_three normalized (update_metric normalized resource object) x cache).1
        ≡ lookup r cache
  unfolding update_three
  update_three_kept resource object x r cache apart =
      let update = update_metric normalized resource object in
      let P : Bool × Cache Q → Type 0 = λ o. lookup r o.1 ≡ lookup r cache in
      result_branch P (update response_time x.response_time cache)
        (λ first e.
          let here =
            update_metric_kept resource object response_time x.response_time r cache first apart
              e in
          result_branch P (update request_count x.request_count first)
            (λ second f.
              let there =
                update_metric_kept resource object request_count x.request_count r first second
                  apart f
                ∙ here in
              result_branch P (update throughput x.throughput second)
                (λ third g.
                  update_metric_kept resource object throughput x.throughput r second third apart g
                  ∙ there)
                (λ _ _. there))
            (λ _ _. here))
        (λ _ _. refl)

  module _ (resource : String) (time count rate : MetricInfo)
      (names : HasNames normalized resource time count rate) where
    -- The cache holds these metrics of the object.
    abbrev pub Holds : NamespacedName → Metrics Q → Cache Q → Type 0
    Holds object x cache =
        (lookup (record { info = time; object = object }) cache ≡ some x.response_time)
        × (lookup (record { info = count; object = object }) cache ≡ some x.request_count)
        × (lookup (record { info = rate; object = object }) cache ≡ some x.throughput)

    pub update_three-Holds :
        (object : NamespacedName) (x : Metrics Q) (cache : Cache Q)
        → Holds object x
            (update_three normalized (update_metric normalized resource object) x cache).1
    unfolding update_three update_metric
    update_three-Holds object x cache =
        let k1 : MetricResource = record { info = time; object = object } in
        let k2 : MetricResource = record { info = count; object = object } in
        let k3 : MetricResource = record { info = rate; object = object } in
        let c1 = set_metrics k1 x.response_time cache in
        let c2 = set_metrics k2 x.request_count c1 in
        let same : (update_three normalized (update_metric normalized resource object) x cache).1
            ≡ set_metrics k3 x.throughput c2 =
          ground (arith, names.time_named, names.count_named, names.rate_named) in
        let read = λ (r : MetricResource). ap (lookup r) same in
        let info_of = λ (r : MetricResource). r.info in
        (
          read k1
              ∙ lookup-set_apart k1 k3 x.throughput c2 (λ e. names.time_rate (ap info_of e))
              ∙ lookup-set_apart k1 k2 x.request_count c1 (λ e. names.time_count (ap info_of e))
              ∙ lookup-set_self k1 x.response_time cache,
          read k2
              ∙ lookup-set_apart k2 k3 x.throughput c2 (λ e. names.count_rate (ap info_of e))
              ∙ lookup-set_self k2 x.request_count c1,
          read k3 ∙ lookup-set_self k3 x.throughput c2,
        )

  -- No service of the list is this object.
  abbrev pub Elsewhere : NamespacedName → Groups Q → Type 0
  Elsewhere object = All (λ g. object ≢ record { name = g.0.name; namespace = g.0.namespace })

module _ {E Q : Type 0} ⦃q : Quantities Q⦄ (normalized : MetricInfo → Result E MetricInfo) where
  update_services_kept :
      (r : MetricResource) (groups : Groups Q) (cache : Cache Q)
      → Elsewhere normalized r.object groups
      → lookup r (update_services normalized groups cache) ≡ lookup r cache
  unfolding update_services
  update_services_kept r [] cache h = refl
  update_services_kept r ((k, xs) ∷ groups) cache (h, hs) =
      update_services_kept r groups _ hs
      ∙ update_three_kept normalized "service" (record { name = k.name; namespace = k.namespace })
          (average xs) r cache h

  -- Where the mapper has three different names for the metrics of services: wherever a service
  -- stands among the groups, as long as no group behind it is of the same service, the cache holds
  -- the averages over its pods in the end. So the order in which Go walks over the groups does not
  -- matter.
  pub update_services-Holds :
      (time count rate : MetricInfo) (before after : Groups Q) (k : ServiceKey)
      (xs : List (Metrics Q)) (cache : Cache Q)
      (names : HasNames normalized "service" time count rate)
      → Elsewhere normalized (record { name = k.name; namespace = k.namespace }) after
      → Holds normalized "service" time count rate names
          (record { name = k.name; namespace = k.namespace })
          (average xs)
          (update_services normalized (before ++ ((k, xs) ∷ after)) cache)
  unfolding update_services
  update_services-Holds time count rate [] after k xs cache names h =
      let object : NamespacedName = record { name = k.name; namespace = k.namespace } in
      let first =
        (update_three normalized (update_metric normalized "service" object) (average xs)
          cache).1 in
      let held =
        update_three-Holds normalized "service" time count rate names object (average xs) cache in
      let kept = λ (info : MetricInfo).
        update_services_kept (record { info = info; object = object }) after first h in
      (kept time ∙ held.0, kept count ∙ held.1, kept rate ∙ held.2)
  update_services-Holds time count rate (g ∷ before) after k xs cache names h =
      update_services-Holds time count rate before after k xs _ names h
