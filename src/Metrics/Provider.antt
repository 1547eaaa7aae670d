-- ===== src/Metrics/Provider.antt =====
-- pkg/metrics-exposer/pkg/provider/provider.go: the cache of metrics, and the metrics API that reads
-- it. The mapper that normalises a metric's name, the listing of objects, the reference to an object
-- and the text and the parser of selectors belong to libraries and are arguments. The cache is an association list; the labels of a
-- value, which are always empty and which nothing reads, are left out, as are the time of an answer and
-- the lock: an operation runs as a whole.
pub mod Update
pub mod Cached
pub mod Average
pub mod Services
pub mod Grouping
pub mod Cycle
use kosmos_v.Prelude.{
  String, Bool, true, false, ◌&&◌, Option, none, some, List, [], ◌∷◌, map, str_eq,
}
use kosmos_v.Prelude.Tests.{if◌then◌else◌}
use kosmos_v.Prelude.Lists.{any}
use kosmos_v.Prelude.Results.{Result, ok, err}

-- `provider.CustomMetricInfo`; the resource is kept as the text that it is parsed from.
pub record MetricInfo : Type 0 where
  pub group_resource : String
  pub metric : String
  pub namespaced : Bool

pub record NamespacedName : Type 0 where
  pub name : String
  pub namespace : String

-- `CustomMetricResource`
pub record MetricResource : Type 0 where
  pub info : MetricInfo
  pub object : NamespacedName

abbrev pub same_flag : Bool → Bool → Bool
same_flag true b = b
same_flag false true = false
same_flag false false = true

abbrev pub same_info : MetricInfo → MetricInfo → Bool
same_info a b =
    str_eq a.group_resource b.group_resource
    && str_eq a.metric b.metric
    && same_flag a.namespaced b.namespaced

abbrev pub same_object : NamespacedName → NamespacedName → Bool
same_object a b = str_eq a.name b.name && str_eq a.namespace b.namespace

unfoldable pub same_resource : MetricResource → MetricResource → Bool
same_resource a b = same_info a.info b.info && same_object a.object b.object

abbrev pub Cache : Type 0 → Type 0
Cache Q = List (MetricResource × Q)

module _ {Q : Type 0} where
  unfoldable pub lookup : MetricResource → Cache Q → Option Q
  lookup r [] = none
  lookup r ((r', v) ∷ cache) = if same_resource r' r then some v else lookup r cache

  -- `setMetrics`
  unfoldable pub set_metrics : MetricResource → Q → Cache Q → Cache Q
  set_metrics r v [] = (r, v) ∷ []
  set_metrics r v ((r', v') ∷ cache) =
      if same_resource r' r then (r, v) ∷ cache else (r', v') ∷ set_metrics r v cache

-- `custom_metrics.MetricValue`, with the name and the selector of its `MetricIdentifier`; a nil
-- selector is `none`.
pub record MetricValue (Ref Parsed Q : Type 0) : Type 0 where
  pub described_object : Ref
  pub metric_name : String
  pub metric_selector : Option Parsed
  pub value : Q

-- What `valueFor` and its callers fail with: an error of a library, or a value that is not there.
pub data MetricError (E : Type 0) : Type 0 where
  library : E → MetricError E
  not_cached : MetricError E

-- The libraries: `Normalized`, `ListObjectNames`, `ReferenceFor`, the text of a selector,
-- `ParseToLabelSelector` and `IsNotFound`. `Selector` is the type of selectors, `Parsed` that of those
-- that are parsed and `Ref` that of the references to objects.
pub record Mapper (Selector Ref Parsed E : Type 0) : Type 0 where
  pub normalized : MetricInfo → Result E MetricInfo
  pub list_object_names : String → Selector → MetricInfo → Result E (List String)
  pub reference_for : NamespacedName → MetricInfo → Result E Ref
  pub selector_text : Selector → String
  pub parse_selector : String → Result E Parsed
  pub is_not_found : E → Bool

-- An answer of the metrics API, or an error.
abbrev pub Answer : Type 0 → Type 0 → Type 0 → Type 0 → Type 0
Answer Ref Parsed E Q = Result (MetricError E) (MetricValue Ref Parsed Q)

abbrev pub Answers : Type 0 → Type 0 → Type 0 → Type 0 → Type 0
Answers Ref Parsed E Q = Result (MetricError E) (List (MetricValue Ref Parsed Q))

-- `apierr.IsNotFound`, which does not know the error for a value that is not there.
abbrev pub is_skipped :
    {Selector Ref Parsed E : Type 0} → Mapper Selector Ref Parsed E → MetricError E → Bool
is_skipped mapper (library e) = mapper.is_not_found e
is_skipped mapper not_cached = false

module _ {Selector Ref Parsed E Q : Type 0} (mapper : Mapper Selector Ref Parsed E) where
  open mapper use {normalized, list_object_names, reference_for, selector_text, parse_selector}

  unfoldable pub value_for : MetricInfo → NamespacedName → Cache Q → Result (MetricError E) Q
  value_for info object cache = elim (normalized info) [
    | err e ↦ err (library e)
    | ok info' ↦ elim (lookup (record { info = info'; object = object }) cache) [
      | none ↦ err not_cached
      | some v ↦ ok v
    ]
  ]

  -- The selector of the objects, which the body does not use, is left out.
  unfoldable pub metric_for : Q → NamespacedName → MetricInfo → Selector → Answer Ref Parsed E Q
  metric_for v object info selector = elim (reference_for object info) [
    | err e ↦ err (library e)
    | ok object_ref ↦
        let metric : MetricValue Ref Parsed Q = record {
          described_object = object_ref;
          metric_name = info.metric;
          metric_selector = none;
          value = v;
        } in
        elim (str_eq (selector_text selector) "") [
          | true ↦ ok metric
          | false ↦ elim (parse_selector (selector_text selector)) [
            | err e ↦ err (library e)
            | ok parsed ↦ ok (record metric { metric_selector = some parsed })
          ]
        ]
  ]

  unfoldable pub get_metric_by_name :
      NamespacedName → MetricInfo → Selector → Cache Q → Answer Ref Parsed E Q
  get_metric_by_name object info selector cache = elim (value_for info object cache) [
    | err e ↦ err e
    | ok v ↦ metric_for v object info selector
  ]

  -- The loop of `metricsFor`.
  unfoldable pub metrics_of :
      String → MetricInfo → Selector → Cache Q → List String → Answers Ref Parsed E Q
  metrics_of namespace info selector cache [] = ok []
  metrics_of namespace info selector cache (name ∷ names) =
      let object : NamespacedName = record { name = name; namespace = namespace } in
      let rest = metrics_of namespace info selector cache names in
      elim (value_for info object cache) [
        | err e ↦ if is_skipped mapper e then rest else err e
        | ok v ↦ elim (metric_for v object info selector) [
          | err e ↦ err e
          | ok answer ↦ elim rest [ err e ↦ err e | ok answers ↦ ok (answer ∷ answers) ]
        ]
      ]

  unfoldable pub metrics_for :
      String → Selector → MetricInfo → Selector → Cache Q → Answers Ref Parsed E Q
  metrics_for namespace objects info selector cache =
      elim (list_object_names namespace objects info) [
        | err e ↦ err (library e)
        | ok names ↦ metrics_of namespace info selector cache names
      ]

  unfoldable pub get_metric_by_selector :
      String → Selector → MetricInfo → Selector → Cache Q → Answers Ref Parsed E Q
  get_metric_by_selector namespace objects info selector cache =
      metrics_for namespace objects info selector cache

-- The keys of the Go map `infos`, each once.
unfoldable pub distinct_infos : List MetricInfo → List MetricInfo
distinct_infos [] = []
distinct_infos (info ∷ infos) =
    let rest = distinct_infos infos in if any (same_info info) rest then rest else info ∷ rest

unfoldable pub list_all_metrics : {Q : Type 0} → Cache Q → List MetricInfo
list_all_metrics cache = distinct_infos (map (λ entry. entry.0.info) cache)
