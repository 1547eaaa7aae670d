-- ===== src/Metrics/Scrape.antt =====
-- The proxy, the client and `PodMetrics` together: an answer of the proxy is read as metrics.
use kosmos_v.Prelude.{String, ◌≡◌, refl, some, [], ◌∷◌, arith, ap, ◌∙◌, ◌<◌}
use kosmos_v.Prelude.Branches.{some_branch}
use kosmos_v.Quantity.{Quantities}
use kosmos_v.Float.{Fraction, Machine, finite, div, to_int, half_int64}
use kosmos_v.Float.Clamp.{div_finite}
use kosmos_v.Metrics.{response_time, request_count, throughput, text_of}
use kosmos_v.Metrics.Client.{number, MetricMap, Client, Transport, get_metric, all_metrics}
use kosmos_v.Metrics.Proxy.{Answer, Rolling, or_zero, answer_all_metrics}
use kosmos_v.Metrics.Provider.Update.{polled, Metrics, pod_metrics}

-- The members of an answer to a request of all metrics, finite numbers.
abbrev pub three : Fraction → Fraction → Fraction → Answer
three a b c =
    (text_of response_time, finite a)
    ∷ (text_of request_count, finite b)
    ∷ (text_of throughput, finite c)
    ∷ []

-- What the libraries promise: the format `%f` writes a finite number, rounded to six decimals, so
-- that the JSON decoder reads it, and the decoded object has a value for each member.
pub record IsTransport {Body : Type 0} (net : Transport Body) (write : Answer → Body) : Type 0 where
  pub rounded : Fraction → Fraction
  pub read : Fraction → Fraction → Fraction → MetricMap
  pub decodes : (a b c : Fraction) → net.decode (write (three a b c)) ≡ some (read a b c)
  pub time_read :
      (a b c : Fraction) → read a b c (text_of response_time) ≡ some (number (finite (rounded a)))
  pub count_read :
      (a b c : Fraction) → read a b c (text_of request_count) ≡ some (number (finite (rounded b)))
  pub rate_read :
      (a b c : Fraction) → read a b c (text_of throughput) ≡ some (number (finite (rounded c)))

module _ {Body W Q : Type 0} ⦃q : Quantities Q⦄ (m : Machine) (net : Transport Body)
    (write : Answer → Body) (laws : IsTransport net write) (rolling : Rolling W) where
  open laws use {rounded}

  -- The metrics that `PodMetrics` makes of the numbers of an answer: whole thousandths of the response
  -- time and of the throughput, so that a rate of 4 requests per second is kept as 0.004.
  abbrev pub metrics_from : Fraction → Fraction → Fraction → Metrics Q
  metrics_from a b c = record {
    response_time = q.new_milli_quantity (to_int m half_int64 (finite (rounded a)));
    request_count = q.new_quantity (to_int m half_int64 (finite (rounded b)));
    throughput = q.new_milli_quantity (to_int m half_int64 (finite (rounded c)));
  }

  pod_metrics-read :
      (a b c : Fraction) → pod_metrics m (some (laws.read a b c)) ≡ polled (metrics_from a b c)
  unfolding pod_metrics
  pod_metrics-read a b c =
      ground (arith, laws.time_read a b c, laws.count_read a b c, laws.rate_read a b c)

  -- If a pod's proxy is reached, the length of its window is positive and the numbers that it
  -- measures are finite or, for the average of an empty window, NaN, then what it answers to the
  -- client does not make `PodMetrics` panic: it reads the average, 0 for NaN, the count and the count
  -- over the length, as the format rounds them.
  pub scrape_polled :
      (client : Client) (pod_ip : String) (window : W) (a n seconds : Fraction)
      → seconds.minus < seconds.plus
      → or_zero (rolling.average window) ≡ finite a
      → rolling.count window ≡ finite n
      → net.send
          (net.replace (net.replace client.host "{pod_address}" pod_ip) "{pod_port}" "8000")
          "metrics/"
        ≡ some (write (answer_all_metrics m rolling (finite seconds) window))
      → (rate : Fraction) × (div m (finite n) (finite seconds) ≡ finite rate)
        × (pod_metrics m (all_metrics net client pod_ip) ≡ polled (metrics_from a n rate))
  unfolding all_metrics get_metric answer_all_metrics
  scrape_polled client pod_ip window a n seconds positive average counted sent =
      let (rate, is_rate) = div_finite m n seconds positive in
      let answered : answer_all_metrics m rolling (finite seconds) window ≡ three a n rate =
        rw (average, counted, is_rate) refl in
      let decoded : all_metrics net client pod_ip ≡ some (laws.read a n rate) =
        some_branch (λ o. o ≡ some (laws.read a n rate)) _ _ _
          (sent ∙ ap (λ x. some (write x)) answered) (laws.decodes a n rate) in
      (rate, is_rate, ap (pod_metrics m) decoded ∙ pod_metrics-read a n rate)
