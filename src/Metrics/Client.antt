-- ===== src/Metrics/Client.antt =====
-- pkg/metrics-exposer/pkg/metrics/client.go: the client that polls a pod. `strings.Replace`, the
-- HTTP client and the JSON decoder are arguments, `none` for an error.
use kosmos_v.Prelude.{String, Option, none, some}
use kosmos_v.Float.{Float64}
use kosmos_v.Metrics.{MetricType, response_time, request_count, throughput, all, text_of}
use Prim.Native.String.{◌++◌}

-- A value in the JSON object of an answer: a number, which the decoder turns into a `float64`, or
-- something else.
pub data Json : Type 0 where
  number : Float64 → Json
  no_number : Json

-- `map[string]interface{}`
abbrev pub MetricMap : Type 0
MetricMap = String → Option Json

-- `Client`, without the HTTP client.
pub record Client : Type 0 where
  pub host : String

abbrev pub new_client : Client
new_client = record { host = "{pod_address}:{pod_port}" }

-- The libraries: replace a text in a text, send a request to a host and a path, decode an answer.
pub record Transport (Body : Type 0) : Type 0 where
  pub replace : String → String → String → String
  pub send : String → String → Option Body
  pub decode : Body → Option MetricMap

module _ {Body : Type 0} (net : Transport Body) where
  open net use {replace, send, decode}

  unfoldable pub get_metric : Client → String → MetricType → Option MetricMap
  get_metric client pod_ip metric_type =
      let host = replace (replace client.host "{pod_address}" pod_ip) "{pod_port}" "8000" in
      elim (send host ("metrics/" ++ text_of metric_type)) [ none ↦ none | some body ↦ decode body ]

  unfoldable pub get_response_time : Client → String → Option MetricMap
  get_response_time client pod_ip = get_metric client pod_ip response_time

  unfoldable pub get_request_count : Client → String → Option MetricMap
  get_request_count client pod_ip = get_metric client pod_ip request_count

  unfoldable pub get_throughput : Client → String → Option MetricMap
  get_throughput client pod_ip = get_metric client pod_ip throughput

  unfoldable pub all_metrics : Client → String → Option MetricMap
  all_metrics client pod_ip = get_metric client pod_ip all
