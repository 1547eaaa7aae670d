-- ===== src/Metrics.antt =====
-- The way of a measurement: pkg/http-metrics/main.go measures requests beside a pod and answers with
-- averages (Proxy), the client of pkg/metrics-exposer/pkg/metrics/client.go reads such an answer
-- (Client), and pkg/metrics-exposer/pkg/provider keeps the values of pods and services in a cache
-- that the metrics API reads (Provider).
pub mod Client
pub mod Proxy
pub mod Scrape
pub mod Provider
pub mod Getter
use kosmos_v.Prelude.{String}

pub data MetricType : Type 0 where
  response_time request_count throughput all : MetricType

-- `MetricType.String`
abbrev pub text_of : MetricType → String
text_of response_time = "response_time"
text_of request_count = "request_count"
text_of throughput = "throughput"
text_of all = ""
