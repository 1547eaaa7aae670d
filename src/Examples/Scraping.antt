-- ===== src/Examples/Scraping.antt =====
-- The theorems on whole updates of the metrics at concrete inputs.
use kosmos_v.Prelude.{Option, ℕ, String, ◌≡◌, refl, ◌≢◌, none, some, List, [], ◌∷◌, str_eq}
use kosmos_v.Prelude.Tests.{if◌then◌else◌}
use kosmos_v.Quantity.Thousandths.{Thousandths, thousandths_quantities}
use kosmos_v.Float.{Fraction}
use kosmos_v.Metrics.{response_time, request_count, throughput}
use kosmos_v.Metrics.Client.{number, MetricMap}
use kosmos_v.Metrics.Proxy.{Answer}
use kosmos_v.Metrics.Scrape.{three}
use kosmos_v.Metrics.Provider.{Cache}
use kosmos_v.Metrics.Provider.Update.{pod_metrics, ServiceKey, update_metrics, average}
use kosmos_v.Metrics.Provider.Services.{Holds}
use kosmos_v.Metrics.Provider.Grouping.{those, readings}
use kosmos_v.Metrics.Provider.Cycle.{IsWalk, NeverPanics, service_object, update_metrics-Holds}
use kosmos_v.Api.{Pod, PodScale}
use kosmos_v.Examples.Data.{exact_machine, pod_of, scale_of}
use kosmos_v.Examples.Measuring.{plain, info_of, names_of}

-- What is decoded of an answer.
abbrev object_of : Answer → MetricMap
object_of [] name = none
object_of ((name', x) ∷ answer) name =
    if str_eq name' name then some (number x) else object_of answer name

abbrev whole : ℕ → Fraction
whole n = record { plus = n; minus = 0; den_pred = 0 }

-- Every pod answers the same, and Go walks over the groups as they stand.
abbrev answered : Pod Thousandths → Option MetricMap
answered pod = some (object_of (three (whole 250) (whole 4) (whole 2)))

abbrev found : String → String → Option (Pod Thousandths)
found namespace name = if str_eq name "c" then none else some (pod_of name)

abbrev three_scales : List (PodScale Thousandths)
three_scales = scale_of "a" 100 100 ∷ scale_of "b" 100 100 ∷ scale_of "c" 100 100 ∷ []

as_they_stand : IsWalk {Q = Thousandths} (λ groups. groups)
as_they_stand = record { keys = λ groups h. h; same = λ groups k. refl }

never_panics : NeverPanics exact_machine plain.normalized found answered
unfolding pod_metrics
never_panics pod e = cc

update_metrics-Holds_example :
    (cache' : Cache Thousandths) × (update_metrics exact_machine plain.normalized found answered
        (λ groups. groups)
        (some three_scales)
        []
      ≡ some cache')
    × ((k : ServiceKey)
        → those k (readings exact_machine plain.normalized found answered three_scales) ≢ []
        → Holds
            (plain.normalized)
            "service"
            (info_of "service" response_time)
            (info_of "service" request_count)
            (info_of "service" throughput)
            (names_of "service")
            (service_object k)
            (average
              (those k (readings exact_machine plain.normalized found answered three_scales)))
            cache')
update_metrics-Holds_example =
    update_metrics-Holds exact_machine plain.normalized found answered (λ groups. groups)
      three_scales [] (info_of "pod" response_time) (info_of "pod" request_count)
      (info_of "pod" throughput) (info_of "service" response_time) (info_of "service" request_count)
      (info_of "service" throughput) as_they_stand never_panics (names_of "pod")
      (names_of "service")
