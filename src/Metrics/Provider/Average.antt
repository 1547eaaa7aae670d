-- ===== src/Metrics/Provider/Average.antt =====
-- The averages over the pods of a service.
use kosmos_v.Prelude.{
  ℕ, ◌+◌, ◌*◌, ◌/◌, ◌^◌, ◌≤◌, ◌<◌, ◌≡◌, false, ◌&&◌, List, [], ◌∷◌, ap, ◌∙◌, arith,
}
use kosmos_v.Prelude.Lists.{All}
use kosmos_v.Prelude.Int.{
  ℤ, leb_ℤ, pos, pos_part, neg_part, ◌+ℤ◌, ◌*ℤ◌, wrap_int64, wrap_int64-pos, *ℤ-pos, +ℤ-pos,
  quotient-pos, pos-pos_part,
}
use kosmos_v.Quantity.{Quantities, IsDecimal}
use kosmos_v.Quantity.Milli.{milli_value-new_milli_quantity}
use kosmos_v.Float.Order.{scale}
use kosmos_v.Metrics.Provider.Update.{
  Metrics, Sums, add_to_sums, sum_metrics, no_sums, mean_of, average,
}

abbrev sums : ℕ → ℕ → ℕ → Sums
sums a b c = record { response_times = pos a; request_counts = pos b; throughputs = pos c }

-- One step of a sum that does not overflow.
wrapped_step :
    (a v r : ℕ) (z w : ℤ)
    → z ≡ pos v
    → w ≡ pos r
    → a + v * r < 2 ^ 63
    → wrap_int64 (pos a +ℤ wrap_int64 (z *ℤ w)) ≡ pos (a + v * r)
wrapped_step a v r z w e f h =
    rw (e, f, *ℤ-pos v r, wrap_int64-pos (v * r) (omega arith), +ℤ-pos a (v * r))
      (wrap_int64-pos (a + v * r) h)

wrapped_count :
    (a r : ℕ) (w : ℤ) → w ≡ pos r → a + r < 2 ^ 63 → wrap_int64 (pos a +ℤ w) ≡ pos (a + r)
wrapped_count a r w f h = rw (f, +ℤ-pos a r) (wrap_int64-pos (a + r) h)

-- A quotient by a positive number of a number between two multiples lies between the factors.
quotient_bounds : (lo hi w r : ℕ) → 0 < r → lo * r ≤ w → w ≤ hi * r → (lo ≤ w / r) × (w / r ≤ hi)
quotient_bounds lo hi w r h low high = (grind arith, grind arith)

quotient-le : (w r : ℕ) → w / r ≤ w
quotient-le w r = grind arith

module _ {Q : Type 0} ⦃q : Quantities Q⦄ where
  abbrev pub requests : Metrics Q → ℕ
  requests x = pos_part (q.value x.request_count)

  abbrev pub millis : Metrics Q → ℕ
  millis x = pos_part (q.milli_value x.response_time)

  abbrev pub rate : Metrics Q → ℕ
  rate x = pos_part (q.milli_value x.throughput)

  -- No value is negative.
  abbrev pub IsCounted : Metrics Q → Type 0
  IsCounted x =
      (neg_part (q.value x.request_count) ≡ 0)
      × (neg_part (q.milli_value x.response_time) ≡ 0)
      × (neg_part (q.milli_value x.throughput) ≡ 0)

  abbrev pub all_requests : List (Metrics Q) → ℕ
  all_requests [] = 0
  all_requests (x ∷ xs) = requests x + all_requests xs

  -- The sum of a value, weighted by the requests.
  abbrev pub weighted : (Metrics Q → ℕ) → List (Metrics Q) → ℕ
  weighted f [] = 0
  weighted f (x ∷ xs) = f x * requests x + weighted f xs

  add_to_sums-pos :
      (a b c : ℕ) (x : Metrics Q)
      → IsCounted x
      → a + millis x * requests x < 2 ^ 63
      → b + requests x < 2 ^ 63
      → c + rate x * requests x < 2 ^ 63
      → add_to_sums (sums a b c) x
        ≡ sums (a + millis x * requests x) (b + requests x) (c + rate x * requests x)
  unfolding add_to_sums
  add_to_sums-pos a b c x (h, k, l) p r t =
      let requests_are = pos-pos_part (q.value x.request_count) h in
      let millis_are = pos-pos_part (q.milli_value x.response_time) k in
      let rate_is = pos-pos_part (q.milli_value x.throughput) l in
      cc (
        wrapped_step a (millis x) (requests x) _ _ millis_are requests_are p,
        wrapped_count b (requests x) _ requests_are r,
        wrapped_step c (rate x) (requests x) _ _ rate_is requests_are t,
      )

  sum_metrics-pos :
      (a b c : ℕ) (xs : List (Metrics Q))
      → All IsCounted xs
      → a + weighted millis xs < 2 ^ 63
      → b + all_requests xs < 2 ^ 63
      → c + weighted rate xs < 2 ^ 63
      → sum_metrics (sums a b c) xs
        ≡ sums (a + weighted millis xs) (b + all_requests xs) (c + weighted rate xs)
  unfolding sum_metrics
  sum_metrics-pos a b c [] h p r t = ground arith
  sum_metrics-pos a b c (x ∷ xs) (h, hs) p r t =
      let here = add_to_sums-pos a b c x h (omega arith) (omega arith) (omega arith) in
      let rest =
        sum_metrics-pos (a + millis x * requests x) (b + requests x) (c + rate x * requests x) xs hs
          (omega arith) (omega arith) (omega arith) in
      rw here (ground (arith, rest))

  -- The sums of a service's metrics stay below 2 ^ 63.
  pub record IsSmall (xs : List (Metrics Q)) : Type 0 where
    pub counted : All IsCounted xs
    pub response_times_small : weighted millis xs < 2 ^ 63
    pub requests_small : all_requests xs < 2 ^ 63
    pub throughputs_small : weighted rate xs < 2 ^ 63

  weighted_bounds :
      (f : Metrics Q → ℕ) (lo hi : ℕ) (xs : List (Metrics Q))
      → All (λ x. (lo ≤ f x) × (f x ≤ hi)) xs
      → (lo * all_requests xs ≤ weighted f xs) × (weighted f xs ≤ hi * all_requests xs)
  weighted_bounds f lo hi [] h = (omega arith, omega arith)
  weighted_bounds f lo hi (x ∷ xs) ((low, high), hs) =
      let (below, above) = weighted_bounds f lo hi xs hs in
      (
        omega (arith, scale lo (f x) (requests x) low),
        omega (arith, scale (f x) hi (requests x) high),
      )

  module _ (laws : IsDecimal Q) where
    mean_of-pos :
        (a b c : ℕ)
        → 0 < b
        → a < 2 ^ 63
        → c < 2 ^ 63
        → (q.milli_value (mean_of (sums a b c)).response_time ≡ pos (a / b))
          × (q.milli_value (mean_of (sums a b c)).throughput ≡ pos (c / b))
    unfolding mean_of
    mean_of-pos a b c some_requests small_a small_c =
        let counted : (leb_ℤ (pos b) (pos 0) && leb_ℤ (pos 0) (pos b)) ≡ false = ground arith in
        rw counted (
          milli_value-new_milli_quantity laws _
              ∙ (ap wrap_int64 (quotient-pos a b)
                  ∙ wrap_int64-pos (a / b) (omega (arith, quotient-le a b))),
          milli_value-new_milli_quantity laws _
              ∙ (ap wrap_int64 (quotient-pos c b)
                  ∙ wrap_int64-pos (c / b) (omega (arith, quotient-le c b))),
        )

    -- For values that are not negative and sums below 2 ^ 63, with at least one request: the service's
    -- response time in thousandths is the mean of its pods' response times, weighted by their
    -- requests and rounded down, and so is its throughput; and every bound from below and from above
    -- on the response times of the pods is one on the response time of the service.
    pub average-IsMean :
        (xs : List (Metrics Q)) (lo hi : ℕ)
        → IsSmall xs
        → 0 < all_requests xs
        → All (λ x. (lo ≤ millis x) × (millis x ≤ hi)) xs
        → (q.milli_value (average xs).response_time ≡ pos (weighted millis xs / all_requests xs))
          × (q.milli_value (average xs).throughput ≡ pos (weighted rate xs / all_requests xs))
          × (lo ≤ weighted millis xs / all_requests xs)
          × (weighted millis xs / all_requests xs ≤ hi)
    unfolding average
    average-IsMean xs lo hi small some_requests within =
        let is_sum : sum_metrics no_sums xs
            ≡ sums (weighted millis xs) (all_requests xs) (weighted rate xs) =
          ground (
            arith,
            sum_metrics-pos 0 0 0 xs small.counted (omega (arith, small.response_times_small))
                (omega (arith, small.requests_small)) (omega (arith, small.throughputs_small)),
          ) in
        let (time, throughput) =
          mean_of-pos (weighted millis xs) (all_requests xs) (weighted rate xs) some_requests
            small.response_times_small small.throughputs_small in
        let (below, above) = weighted_bounds millis lo hi xs within in
        let (low, high) =
          quotient_bounds lo hi (weighted millis xs) (all_requests xs) some_requests below above in
        (rw is_sum time, rw is_sum throughput, low, high)
