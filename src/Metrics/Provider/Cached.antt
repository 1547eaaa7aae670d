-- ===== src/Metrics/Provider/Cached.antt =====
-- The cache of metrics as a map: what is stored is read back, and nothing else changes.
use kosmos_v.Prelude.{
  String, ◌≡◌, refl, ◌≢◌, ◌↔◌, Bool, true, false, some, List, [], ◌∷◌, ◌++◌, arith, str_eq_iff,
}
use kosmos_v.Prelude.Tests.{if◌then◌else◌}
use kosmos_v.Prelude.Branches.{result_branch}
use kosmos_v.Prelude.Results.{Result, ok, err}
use kosmos_v.Metrics.{MetricType, text_of}
use kosmos_v.Metrics.Provider.{
  MetricInfo, NamespacedName, MetricResource, same_info, same_object, same_resource, Cache, lookup,
  set_metrics, MetricError, not_cached, Mapper, value_for, metrics_of, metric_for, is_skipped,
}
use kosmos_v.Metrics.Provider.Update.{update_metric}

same_info_iff : (a b : MetricInfo) → (same_info a b ≡ true) ↔ (a ≡ b)
same_info_iff a b =
    ground (arith, str_eq_iff a.group_resource b.group_resource, str_eq_iff a.metric b.metric)

same_object_iff : (a b : NamespacedName) → (same_object a b ≡ true) ↔ (a ≡ b)
same_object_iff a b = ground (arith, str_eq_iff a.name b.name, str_eq_iff a.namespace b.namespace)

pub same_resource_iff : (a b : MetricResource) → (same_resource a b ≡ true) ↔ (a ≡ b)
unfolding same_resource
same_resource_iff a b = ground (
  arith,
  str_eq_iff a.info.group_resource b.info.group_resource,
  str_eq_iff a.info.metric b.info.metric,
  str_eq_iff a.object.name b.object.name,
  str_eq_iff a.object.namespace b.object.namespace,
)

module _ {Q : Type 0} where
  pub lookup-set_metrics :
      (r k : MetricResource) (v : Q) (cache : Cache Q)
      → lookup r (set_metrics k v cache) ≡ (if same_resource k r then some v else lookup r cache)
  unfolding lookup set_metrics
  lookup-set_metrics r k v [] = refl
  lookup-set_metrics r k v ((k', v') ∷ cache) = ground (
    arith,
    same_resource_iff k' k,
    same_resource_iff k r,
    same_resource_iff k' r,
    lookup-set_metrics r k v cache,
  )

module _ {Selector Ref Parsed E Q : Type 0} (mapper : Mapper Selector Ref Parsed E) where
  open mapper use {normalized}

  -- An update of a metric of an object that succeeds stores the value for every name of the metric
  -- that the mapper normalises alike, so that the metrics API reads this value, and the cache keeps
  -- the value of every other resource.
  pub update_metric-stored :
      (resource : String) (object : NamespacedName) (metric_type : MetricType) (v : Q)
      (cache cache' : Cache Q) (info stored : MetricInfo) (other : MetricResource)
      → update_metric normalized resource object metric_type v cache ≡ ok cache'
      → normalized
          (record { group_resource = resource; metric = text_of metric_type; namespaced = true })
        ≡ ok stored
      → normalized info ≡ ok stored
      → other ≢ record { info = stored; object = object }
      → (value_for mapper info object cache' ≡ ok v) × (lookup other cache' ≡ lookup other cache)
  unfolding update_metric value_for
  update_metric-stored resource object metric_type v cache cache' info stored other e f g apart =
      let r : MetricResource = record { info = stored; object = object } in
      let is_cache : cache' ≡ set_metrics r v cache = ground (arith, e, f) in
      (
        ground (arith, is_cache, g, same_resource_iff r r, lookup-set_metrics r r v cache),
        ground (arith, is_cache, same_resource_iff r other, lookup-set_metrics other r v cache),
      )

module _ {Selector Ref Parsed E : Type 0} (mapper : Mapper Selector Ref Parsed E) where
  abbrev pub Fails : {A : Type 0} → Result (MetricError E) A → Type 0
  Fails r = (e : MetricError E) × (r ≡ err e)

  Fails-if :
      {A : Type 0} (b : Bool) (r : Result (MetricError E) A) (e : MetricError E)
      → Fails r
      → Fails (if b then r else err e)
  Fails-if true r e h = h
  Fails-if false r e h = (e, refl)

module _ {Selector Ref Parsed E Q : Type 0} (mapper : Mapper Selector Ref Parsed E) where
  -- The listing of a metric fails as a whole where one of the objects has no value in the cache: the
  -- error for a missing value is not one that is skipped.
  pub metrics_of-Fails :
      (namespace name : String) (info : MetricInfo) (selector : Selector) (cache : Cache Q)
      (before after : List String)
      → value_for mapper info (record { name = name; namespace = namespace }) cache ≡ err not_cached
      → Fails mapper (metrics_of mapper namespace info selector cache (before ++ (name ∷ after)))
  unfolding metrics_of
  metrics_of-Fails namespace name info selector cache [] after missing =
      (not_cached, ground (arith, missing))
  metrics_of-Fails namespace name info selector cache (x ∷ before) after missing =
      let object : NamespacedName = record { name = x; namespace = namespace } in
      let ih = metrics_of-Fails namespace name info selector cache before after missing in
      result_branch (Fails mapper) (value_for mapper info object cache)
        (λ v _.
          result_branch (Fails mapper) (metric_for mapper v object info selector)
            (λ answer _. (ih.0, rw ih.1)) (λ e _. (e, refl)))
        (λ e _. Fails-if mapper (is_skipped mapper e) _ e ih)
