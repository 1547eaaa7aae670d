-- ===== src/Examples/Measuring.antt =====
-- The theorems on the metrics at concrete inputs.
use kosmos_v.Prelude.{
  ℕ, String, ◌≡◌, refl, ◌≢◌, ◌≤◌, ◌*◌, ◌/◌, str_eq_iff, sym, ap, ◌∙◌, true, false, List, [], ◌∷◌,
  arith, str_eq,
}
use mathlib.Core.Bool.{false≢true}
use kosmos_v.Prelude.Int.{pos}
use kosmos_v.Prelude.Results.{ok}
use kosmos_v.Quantity.Thousandths.{
  Thousandths, thousandths, thousandths_quantities, Thousandths-IsDecimal,
}
use kosmos_v.Metrics.{MetricType, response_time, request_count, throughput, text_of}
use kosmos_v.Prelude.Tests.{if◌then◌else◌}
use kosmos_v.Examples.Data.{pod_of}
use kosmos_v.Metrics.Getter.{
  CustomMetricsClient, default_pod_metrics, object_of, asked, valued,
  default_pod_metrics-update_three,
}
use kosmos_v.Metrics.Provider.{
  MetricError, MetricValue, get_metric_by_name, same_resource, MetricInfo, NamespacedName,
  MetricResource, lookup, Cache, Mapper, value_for, metrics_of,
}
use kosmos_v.Metrics.Provider.Update.{Metrics, ServiceKey, update_three, update_pod_metric, average}
use kosmos_v.Metrics.Provider.Cached.{Fails, metrics_of-Fails}
use kosmos_v.Metrics.Provider.Average.{millis, rate, all_requests, weighted, average-IsMean}
use kosmos_v.Metrics.Provider.Services.{HasNames}

-- A mapper that keeps every name, and two objects.
abbrev pub plain : Mapper String String String String
plain = record {
  normalized = λ info. ok info;
  list_object_names = λ namespace selector info. ok ("a" ∷ "b" ∷ []);
  reference_for = λ object info. ok object.name;
  selector_text = λ selector. selector;
  parse_selector = λ text. ok text;
  is_not_found = λ e. str_eq e "not found";
}

abbrev pod_a : NamespacedName
pod_a = record { name = "a"; namespace = "default" }

abbrev pub info_of : String → MetricType → MetricInfo
info_of resource t = record { group_resource = resource; metric = text_of t; namespaced = true }

abbrev resource_of : MetricType → MetricResource
resource_of t = record { info = info_of "pod" t; object = pod_a }

abbrev cached : Cache Thousandths
cached = (resource_of response_time, thousandths (pos 250)) ∷ []

metrics_of-Fails_example :
    Fails plain
      (metrics_of plain "default" (info_of "pod" response_time) "" cached ("a" ∷ "b" ∷ []))
unfolding value_for lookup same_resource
metrics_of-Fails_example =
    metrics_of-Fails plain "default" "b" (info_of "pod" response_time) "" cached ("a" ∷ []) [] refl

abbrev measured : ℕ → ℕ → ℕ → Metrics Thousandths
measured t n r = record {
  response_time = thousandths (pos t);
  request_count = thousandths (pos (1000 * n));
  throughput = thousandths (pos r);
}

abbrev two_pods : List (Metrics Thousandths)
two_pods = measured 200 3 100 ∷ measured 600 1 50 ∷ []

average-IsMean_example :
    (thousandths_quantities.milli_value (average two_pods).response_time
      ≡ pos (weighted millis two_pods / all_requests two_pods))
    × (thousandths_quantities.milli_value (average two_pods).throughput
        ≡ pos (weighted rate two_pods / all_requests two_pods))
    × (200 ≤ weighted millis two_pods / all_requests two_pods)
    × (weighted millis two_pods / all_requests two_pods ≤ 600)
average-IsMean_example =
    average-IsMean Thousandths-IsDecimal two_pods 200 600
      (record {
        counted = ((refl, refl, refl), ((refl, refl, refl), tt));
        response_times_small = omega arith;
        requests_small = omega arith;
        throughputs_small = omega arith;
      })
      (omega arith) ((omega arith, omega arith), ((omega arith, omega arith), tt))

abbrev service : String → ServiceKey
service name = record { namespace = "default"; name = name }

infos_differ :
    (resource : String) (a b : MetricType)
    → str_eq (text_of a) (text_of b) ≡ false
    → info_of resource a ≢ info_of resource b
infos_differ resource a b differ e =
    false≢true
      (sym differ ∙ (str_eq_iff (text_of a) (text_of b)).1 (ap (λ (i : MetricInfo). i.metric) e))

pub names_of :
    (resource : String)
    → HasNames
        (plain.normalized)
        resource
        (info_of resource response_time)
        (info_of resource request_count)
        (info_of resource throughput)
names_of resource = record {
  time_named = refl;
  count_named = refl;
  rate_named = refl;
  time_count = infos_differ resource response_time request_count refl;
  time_rate = infos_differ resource response_time throughput refl;
  count_rate = infos_differ resource request_count throughput refl;
}

-- The metrics API asks for pods, the provider stores under pod.
abbrev plural : Mapper String String String String
plural = record plain {
  normalized = λ info.
      ok (
        if str_eq info.group_resource "pods" then record info { group_resource = "pod" } else info);
}

abbrev plural_of : String → String
plural_of kind = if str_eq kind "Pod" then "pods" else "services"

pub plural_names :
    (resource : String)
    → plural.normalized (info_of resource response_time) ≡ ok (info_of "pod" response_time)
    → plural.normalized (info_of resource request_count) ≡ ok (info_of "pod" request_count)
    → plural.normalized (info_of resource throughput) ≡ ok (info_of "pod" throughput)
    → HasNames
        (plural.normalized)
        resource
        (info_of "pod" response_time)
        (info_of "pod" request_count)
        (info_of "pod" throughput)
plural_names resource time count rate = record {
  time_named = time;
  count_named = count;
  rate_named = rate;
  time_count = infos_differ "pod" response_time request_count refl;
  time_rate = infos_differ "pod" response_time throughput refl;
  count_rate = infos_differ "pod" request_count throughput refl;
}

-- A client of an API server that answers from this cache.
abbrev client_of :
    Cache Thousandths
    → CustomMetricsClient (MetricError String) (MetricValue String String Thousandths)
client_of cache = record {
  get_for_object = λ namespace kind name metric.
      get_metric_by_name plural (object_of name namespace) (asked plural_of kind metric) "" cache;
}

abbrev polled : Cache Thousandths
polled =
    (update_three plural.normalized (update_pod_metric plural.normalized "a" "default")
      (measured 250 3 7) cached).1

default_pod_metrics-update_three_example :
    (default_pod_metrics (client_of polled) (pod_of "a") response_time
      ≡ ok (valued "a" (text_of response_time) (thousandths (pos 250))))
    × (default_pod_metrics (client_of polled) (pod_of "a") request_count
        ≡ ok (valued "a" (text_of request_count) (thousandths (pos 3000))))
    × (default_pod_metrics (client_of polled) (pod_of "a") throughput
        ≡ ok (valued "a" (text_of throughput) (thousandths (pos 7))))
default_pod_metrics-update_three_example =
    default_pod_metrics-update_three plural "" plural_of refl (info_of "pod" response_time)
      (info_of "pod" request_count) (info_of "pod" throughput) (plural_names "pod" refl refl refl)
      (plural_names "pods" refl refl refl) (client_of polled) (pod_of "a") (measured 250 3 7) cached
      "a" "a" "a" (record { served = λ namespace kind name metric answer e. e }) refl refl refl
