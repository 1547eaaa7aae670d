-- ===== src/Metrics/Getter.antt =====
-- pkg/pod-autoscaler/pkg/metrics/metrics.go: the two getters through which the recommender and the
-- replicas updater read metrics. The client of the custom metrics API is an argument; `IsServed` states
-- what the API server promises: a request for a metric of an object is answered by the provider's
-- `GetMetricByName` on its cache. Of an answer of the fake getter the model has the value.
use kosmos_v.Prelude.{String, ◌≡◌, true, none, some, arith, str_eq_iff}
use kosmos_v.Prelude.Int.{ℤ}
use kosmos_v.Prelude.Results.{Result, ok}
use kosmos_v.Quantity.{Quantities}
use kosmos_v.Api.{Pod, KubeService}
use kosmos_v.Metrics.{MetricType, response_time, request_count, throughput, text_of}
use kosmos_v.Metrics.Provider.{
  MetricInfo, NamespacedName, Cache, lookup, Mapper, MetricError, MetricValue, value_for,
  metric_for, get_metric_by_name,
}
use kosmos_v.Metrics.Provider.Update.{Metrics, update_three, update_pod_metric}
use kosmos_v.Metrics.Provider.Services.{HasNames, update_three-Holds}

-- The answer to a request for a namespace, a kind of objects, a name and a metric.
pub record CustomMetricsClient (E M : Type 0) : Type 0 where
  pub get_for_object : String → String → String → String → Result E M

module _ {E M Q : Type 0} (client : CustomMetricsClient E M) where
  unfoldable pub default_pod_metrics : Pod Q → MetricType → Result E M
  default_pod_metrics p metric_type =
      client.get_for_object p.meta.namespace "Pod" p.meta.name (text_of metric_type)

module _ {E M : Type 0} (client : CustomMetricsClient E M) where
  unfoldable pub default_service_metrics : KubeService → MetricType → Result E M
  default_service_metrics s metric_type =
      client.get_for_object s.meta.namespace "Service" s.meta.name (text_of metric_type)

module _ {Q : Type 0} ⦃q : Quantities Q⦄ (fixed_time : ℤ) where
  unfoldable pub fake_pod_metrics : Pod Q → MetricType → Q
  fake_pod_metrics p metric_type = q.new_quantity fixed_time

  unfoldable pub fake_service_metrics : KubeService → MetricType → Q
  fake_service_metrics s metric_type = q.new_quantity fixed_time

abbrev pub object_of : String → String → NamespacedName
object_of name namespace = record { name = name; namespace = namespace }

-- What is asked for, with the resource of a kind of objects as an argument.
abbrev pub asked : (String → String) → String → String → MetricInfo
asked resource_of kind metric = record {
  group_resource = resource_of kind;
  metric = metric;
  namespaced = true;
}

-- The value of a metric of an object, under the name that was asked for and without a selector.
abbrev pub valued : {Ref Parsed Q : Type 0} → Ref → String → Q → MetricValue Ref Parsed Q
valued object metric v = record {
  described_object = object;
  metric_name = metric;
  metric_selector = none;
  value = v;
}

module _ {Selector Ref Parsed E Q : Type 0} (mapper : Mapper Selector Ref Parsed E)
    (selector : Selector) (resource_of : String → String) where
  open mapper use {normalized, reference_for, selector_text}

  pub record IsServed (client : CustomMetricsClient (MetricError E) (MetricValue Ref Parsed Q))
      (cache : Cache Q) : Type 0 where
    pub served :
        (namespace kind name metric : String) (answer : MetricValue Ref Parsed Q)
        → get_metric_by_name mapper
            (object_of name namespace)
            (asked resource_of kind metric)
            selector
            cache
          ≡ ok answer
        → client.get_for_object namespace kind name metric ≡ ok answer

  read_cached :
      (info stored : MetricInfo) (object : NamespacedName) (v : Q) (ref : Ref) (cache : Cache Q)
      → selector_text selector ≡ ""
      → normalized info ≡ ok stored
      → lookup (record { info = stored; object = object }) cache ≡ some v
      → reference_for object info ≡ ok ref
      → get_metric_by_name mapper object info selector cache ≡ ok (valued ref info.metric v)
  unfolding get_metric_by_name value_for metric_for
  read_cached info stored object v ref cache everything e f g =
      ground (arith, e, f, g, everything, str_eq_iff (selector_text selector) "")

  module _ (everything : selector_text selector ≡ "") (time count rate : MetricInfo)
      (stored : HasNames normalized "pod" time count rate)
      (named : HasNames normalized (resource_of "Pod") time count rate) where
    -- If the mapper gives the same name to a metric of a pod where it is stored and where it is asked
    -- for, without a selector of metrics, it refers to the pod, and the API server answers from the
    -- provider's cache: after an update of the three metrics of a pod, `PodMetrics` of the default getter
    -- answers each of them with the value that was stored, the name of the metric that was asked for and
    -- the mapper's reference to the pod.
    pub default_pod_metrics-update_three :
        (client : CustomMetricsClient (MetricError E) (MetricValue Ref Parsed Q)) (p : Pod Q)
        (x : Metrics Q) (cache : Cache Q) (t n r : Ref)
        → IsServed client
            (update_three normalized
              (update_pod_metric normalized p.meta.name p.meta.namespace)
              x
              cache).1
        → reference_for
            (object_of p.meta.name p.meta.namespace)
            (asked resource_of "Pod" (text_of response_time))
          ≡ ok t
        → reference_for
            (object_of p.meta.name p.meta.namespace)
            (asked resource_of "Pod" (text_of request_count))
          ≡ ok n
        → reference_for
            (object_of p.meta.name p.meta.namespace)
            (asked resource_of "Pod" (text_of throughput))
          ≡ ok r
        → (default_pod_metrics client p response_time
            ≡ ok (valued t (text_of response_time) x.response_time))
          × (default_pod_metrics client p request_count
              ≡ ok (valued n (text_of request_count) x.request_count))
          × (default_pod_metrics client p throughput
              ≡ ok (valued r (text_of throughput) x.throughput))
    unfolding default_pod_metrics
    default_pod_metrics-update_three client p x cache t n r api is_time is_count is_rate =
        let object = object_of p.meta.name p.meta.namespace in
        let (holds_time, holds_count, holds_rate) =
          update_three-Holds normalized "pod" time count rate stored object x cache in
        let serve = api.served p.meta.namespace "Pod" p.meta.name in
        (
          serve (text_of response_time) _
              (read_cached _ time object _ t _ everything named.time_named holds_time is_time),
          serve (text_of request_count) _
              (read_cached _ count object _ n _ everything named.count_named holds_count is_count),
          serve (text_of throughput) _
              (read_cached _ rate object _ r _ everything named.rate_named holds_rate is_rate),
        )
