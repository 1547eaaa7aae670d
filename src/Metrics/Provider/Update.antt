-- ===== src/Metrics/Provider/Update.antt =====
-- pkg/metrics-exposer/pkg/provider/sync.go: the update of the cache from all pods that have a pod
-- scale, and the averages over the pods of a service. Go's map of groups is an association list; the
-- order in which Go walks over it is an argument.
use kosmos_v.Prelude.{
  String, Bool, true, false, ◌&&◌, Option, none, some, List, [], ◌∷◌, ◌++◌, str_eq,
}
use kosmos_v.Prelude.Tests.{if◌then◌else◌}
use kosmos_v.Prelude.Int.{ℤ, pos, ◌+ℤ◌, ◌*ℤ◌, leb_ℤ, wrap_int64, quotient}
use kosmos_v.Prelude.Results.{Result, ok, err}
use kosmos_v.Quantity.{Quantities}
use kosmos_v.Float.{Machine, Float64, to_int, half_int64}
use kosmos_v.Api.{Pod, PodScale}
use kosmos_v.Metrics.{MetricType, response_time, request_count, throughput, text_of}
use kosmos_v.Metrics.Client.{Json, number, no_number, MetricMap}
use kosmos_v.Metrics.Provider.{MetricInfo, NamespacedName, Cache, set_metrics}

-- `Metrics`
pub record Metrics (Q : Type 0) : Type 0 where
  pub response_time : Q
  pub request_count : Q
  pub throughput : Q

-- The answer of a client: an error, a panic at a type assertion, or metrics.
pub data Polled (A : Type 0) : Type 0 where
  failed panicked : Polled A
  polled : A → Polled A

-- `value[name].(float64)`; `none` for the panic.
abbrev pub float_in : Option Json → Option Float64
float_in (some (number x)) = some x
float_in (some no_number) = none
float_in none = none

-- One service's name in its namespace.
pub record ServiceKey : Type 0 where
  pub namespace : String
  pub name : String

abbrev pub same_service : ServiceKey → ServiceKey → Bool
same_service a b = str_eq a.namespace b.namespace && str_eq a.name b.name

-- `serviceMetricsMap`
abbrev pub Groups : Type 0 → Type 0
Groups Q = List (ServiceKey × List (Metrics Q))

unfoldable pub add_to_group : {Q : Type 0} → ServiceKey → Metrics Q → Groups Q → Groups Q
add_to_group k x [] = (k, x ∷ []) ∷ []
add_to_group k x ((k', xs) ∷ groups) =
    if same_service k' k then (k', xs ++ (x ∷ [])) ∷ groups else (k', xs) ∷ add_to_group k x groups

-- The three sums of the loop over a service's metrics, in Go's `int`.
pub record Sums : Type 0 where
  pub response_times : ℤ
  pub request_counts : ℤ
  pub throughputs : ℤ

abbrev pub no_sums : Sums
no_sums = record { response_times = pos 0; request_counts = pos 0; throughputs = pos 0 }

module _ {E Q : Type 0} (normalized : MetricInfo → Result E MetricInfo) where
  -- The common body of the two functions that follow.
  unfoldable pub update_metric :
      String → NamespacedName → MetricType → Q → Cache Q → Result E (Cache Q)
  update_metric resource object metric_type v cache =
      elim (normalized
        (record { group_resource = resource; metric = text_of metric_type; namespaced = true })) [
          | err e ↦ err e
          | ok info ↦ ok (set_metrics (record { info = info; object = object }) v cache)
        ]

  abbrev pub update_pod_metric : String → String → MetricType → Q → Cache Q → Result E (Cache Q)
  update_pod_metric pod namespace =
      update_metric "pod" (record { name = pod; namespace = namespace })

  abbrev pub update_service_metric : String → String → MetricType → Q → Cache Q → Result E (Cache Q)
  update_service_metric service namespace =
      update_metric "service" (record { name = service; namespace = namespace })

  -- The three updates of an object, which stop at the first error; the answer is whether they
  -- came to their end.
  unfoldable pub update_three :
      (MetricType → Q → Cache Q → Result E (Cache Q)) → Metrics Q → Cache Q → Bool × Cache Q
  update_three update x cache = elim (update response_time x.response_time cache) [
    | err e ↦ (false, cache)
    | ok first ↦ elim (update request_count x.request_count first) [
      | err e ↦ (false, first)
      | ok second ↦ elim (update throughput x.throughput second) [
        | err e ↦ (false, second)
        | ok third ↦ (true, third)
      ]
    ]
  ]

module _ {Q : Type 0} ⦃q : Quantities Q⦄ where
  unfoldable pub add_to_sums : Sums → Metrics Q → Sums
  add_to_sums s x =
      let requests = q.value x.request_count in
      record {
        response_times =
            wrap_int64 (s.response_times +ℤ wrap_int64 (q.milli_value x.response_time *ℤ requests));
        request_counts = wrap_int64 (s.request_counts +ℤ requests);
        throughputs =
            wrap_int64 (s.throughputs +ℤ wrap_int64 (q.milli_value x.throughput *ℤ requests));
      }

  unfoldable pub sum_metrics : Sums → List (Metrics Q) → Sums
  sum_metrics s [] = s
  sum_metrics s (x ∷ xs) = sum_metrics (add_to_sums s x) xs

  -- The metrics of a service, of its sums.
  unfoldable pub mean_of : Sums → Metrics Q
  mean_of s =
      if leb_ℤ s.request_counts (pos 0) && leb_ℤ (pos 0) s.request_counts
      then record {
        response_time = q.new_quantity (pos 0);
        request_count = q.new_quantity (pos 0);
        throughput = q.new_quantity (pos 0);
      }
      else record {
        response_time =
            q.new_milli_quantity (wrap_int64 (quotient s.response_times s.request_counts));
        request_count = q.new_quantity s.request_counts;
        throughput = q.new_milli_quantity (wrap_int64 (quotient s.throughputs s.request_counts));
      }

  unfoldable pub average : List (Metrics Q) → Metrics Q
  average xs = mean_of (sum_metrics no_sums xs)

  -- The second loop of `updateMetrics`; after an error it goes on with the next service.
  unfoldable pub update_services :
      {E : Type 0} → (MetricInfo → Result E MetricInfo) → Groups Q → Cache Q → Cache Q
  update_services normalized [] cache = cache
  update_services normalized ((k, xs) ∷ groups) cache =
      update_services normalized groups
        (update_three normalized (update_service_metric normalized k.name k.namespace) (average xs)
          cache).1

  -- `PodMetrics`, of the client's answer.
  unfoldable pub pod_metrics : Machine → Option MetricMap → Polled (Metrics Q)
  pod_metrics m none = failed
  pod_metrics m (some value) = elim (float_in (value (text_of response_time))) [
    | none ↦ panicked
    | some a ↦ elim (float_in (value (text_of request_count))) [
      | none ↦ panicked
      | some b ↦ elim (float_in (value (text_of throughput))) [
        | none ↦ panicked
        | some c ↦ polled (record {
          response_time = q.new_milli_quantity (to_int m half_int64 a);
          request_count = q.new_quantity (to_int m half_int64 b);
          throughput = q.new_milli_quantity (to_int m half_int64 c);
        })
      ]
    ]
  ]

  module _ {E : Type 0} (m : Machine) (normalized : MetricInfo → Result E MetricInfo)
      (find_pod : String → String → Option (Pod Q)) (poll : Pod Q → Option MetricMap) where
    -- The first loop of `updateMetrics`; `none` is a panic.
    unfoldable pub update_pods :
        List (PodScale Q) → Cache Q → Groups Q → Option (Cache Q × Groups Q)
    update_pods [] cache groups = some (cache, groups)
    update_pods (scale ∷ scales) cache groups =
        elim (find_pod scale.spec.namespace scale.spec.pod) [
          | none ↦ update_pods scales cache groups
          | some pod ↦ elim (pod_metrics m (poll pod)) [
            | failed ↦ update_pods scales cache groups
            | panicked ↦ none
            | polled x ↦
                let updated =
                  update_three normalized
                    (update_pod_metric normalized scale.spec.pod scale.spec.namespace) x cache in
                elim (updated.0) [
                  | false ↦ update_pods scales updated.1 groups
                  | true ↦ update_pods scales updated.1 (
                      add_to_group
                        (record { namespace = scale.spec.namespace; name = scale.spec.service }) x
                        groups)
                ]
          ]
        ]

    -- `walk` is the order in which Go walks over the groups.
    unfoldable pub update_metrics :
        (Groups Q → Groups Q) → Option (List (PodScale Q)) → Cache Q → Option (Cache Q)
    update_metrics walk none cache = some cache
    update_metrics walk (some scales) cache = elim (update_pods scales cache []) [
      | none ↦ none
      | some (cache', groups) ↦ some (update_services normalized (walk groups) cache')
    ]
