-- ===== src/Metrics/Proxy.antt =====
-- pkg/http-metrics/main.go: the proxy beside a pod, which measures the requests that it forwards and
-- answers with the averages of a sliding window. The window of the library `rolling` is a state with
-- its operations as arguments; a request's duration is an argument too. An answer is the object that
-- its format writes: names and values.
use kosmos_v.Prelude.{ℕ, String, List, [], ◌∷◌}
use kosmos_v.Prelude.Int.{pos}
use kosmos_v.Float.{Machine, Float64, finite, pos_inf, neg_inf, nan, constant, of_int, div}
use kosmos_v.Metrics.{response_time, request_count, throughput, text_of}

abbrev pub Answer : Type 0
Answer = List (String × Float64)

-- `TimePolicy.Append`, and `Reduce` by `Avg` and by `Count`.
pub record Rolling (W : Type 0) : Type 0 where
  pub append : Float64 → W → W
  pub average : W → Float64
  pub count : W → Float64

-- The replacement of NaN by 0.
abbrev pub or_zero : Float64 → Float64
or_zero nan = constant 0 1
or_zero (finite x) = finite x
or_zero pos_inf = pos_inf
or_zero neg_inf = neg_inf

module _ {W : Type 0} (m : Machine) (rolling : Rolling W) (window_seconds : Float64) where
  open rolling use {append, average, count}

  -- Of `ForwardRequest`, what it does to the window, for the milliseconds that the pod took.
  unfoldable pub forward_request : ℕ → W → W
  forward_request millis window = append (of_int m (pos millis)) window

  unfoldable pub answer_response_time : W → Answer
  answer_response_time window = (text_of response_time, or_zero (average window)) ∷ []

  unfoldable pub answer_request_count : W → Answer
  answer_request_count window = (text_of request_count, or_zero (count window)) ∷ []

  unfoldable pub answer_throughput : W → Answer
  answer_throughput window = (text_of throughput, div m (count window) window_seconds) ∷ []

  unfoldable pub answer_all_metrics : W → Answer
  answer_all_metrics window =
      (text_of response_time, or_zero (average window))
      ∷ (text_of request_count, or_zero (count window))
      ∷ (text_of throughput, div m (count window) window_seconds)
      ∷ []
