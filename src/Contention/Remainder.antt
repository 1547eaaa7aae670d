-- ===== src/Contention/Remainder.antt =====
-- What the pods that are counted leave of the CPU of a node.
use native.Mathlib.Decide.{dec_lt}
use kosmos_v.Prelude.{
  ◌+◌, ◌<◌, ◌≡◌, refl, sym, subst, ap, inl, inr, false, some, List, [], ◌∷◌, arith,
}
use kosmos_v.Prelude.Tests.{Option-cases}
use kosmos_v.Prelude.Lists.{All}
use kosmos_v.Prelude.Int.{
  pos, ℤ, ◌≤ℤ◌, pos_part, neg_part, ltb_ℤ→lt, not-ltb_ℤ→le, ◌-ℤ◌, ◌<ℤ◌, int_laws,
}
use kosmos_v.Quantity.{Quantities, IsDecimal}
use kosmos_v.Quantity.Milli.{IsMilli, IsMillis, milli_value-IsMillis}
use kosmos_v.Api.{Pod}
use kosmos_v.NodeScales.{NodeScales, contains}
use kosmos_v.Contention.{capped_cpu, Untracked, visit_pods, visit_pod}
use kosmos_v.Contention.Fits.{count, IsCount}
use kosmos_v.Contention.Tracking.{IsNegative, IsNotNegative}
use kosmos_v.Contention.Counting.{
  shares, same_pod, AreDistinct, HasCounts, AreFewer, visit_pod-IsStep, same-AreFewer,
}

pub neg_part-zero : (z : ℤ) → pos 0 ≤ℤ z → neg_part z ≡ 0
neg_part-zero z h = ground arith

module _ {Q : Type 0} ⦃q : Quantities Q⦄ where
  -- What does not change which pods are tracked does not change their shares.
  shares_same :
      (pod : Pod Q) (s s' : NodeScales Q) (pods : List (Pod Q))
      → All (λ x. same_pod pod x ≡ false) pods
      → ((x : Pod Q)
          → same_pod pod x ≡ false
          → contains s' x.meta.name x.meta.namespace ≡ contains s x.meta.name x.meta.namespace)
      → shares s' pods ≡ shares s pods
  shares_same pod s s' [] apart others = refl
  shares_same pod s s' (x ∷ pods) (h, hs) others =
      let rest = shares_same pod s s' pods hs others in rw (others x h, rest) refl

  module _ (laws : IsDecimal Q) where
    difference-IsMillis :
        (a b : Q)
        → IsMilli laws a
        → IsMilli laws b
        → IsMillis laws (q.add a (q.neg b)) (q.milli_value a -ℤ q.milli_value b)
    difference-IsMillis a b h k =
        let sum = laws.amount-add a (q.neg b) in
        let opposite = laws.amount-neg b in
        omega
          (int_laws, ap pos_part sum, ap neg_part sum, ap pos_part opposite, ap neg_part opposite)

    milli_value-difference :
        (a b : Q)
        → IsMilli laws a
        → IsMilli laws b
        → q.milli_value (q.add a (q.neg b)) ≡ q.milli_value a -ℤ q.milli_value b
    milli_value-difference a b h k = milli_value-IsMillis laws _ _ (difference-IsMillis a b h k)

    -- The sign of a whole number of thousandths is that of its value.
    IsNegative-iff :
        (d : Q)
        → IsMilli laws d
        → (IsNegative d → q.milli_value d <ℤ pos 0)
          × (IsNotNegative d → neg_part (q.milli_value d) ≡ 0)
    IsNegative-iff d h = (
      λ negative.
          let less = (laws.sign_iff d).0 (ltb_ℤ→lt (q.sign d) (pos 0) negative) in omega (arith, h),
      λ left. elim (dec_lt (pos_part (q.milli_value d)) (neg_part (q.milli_value d))) [
        | no above ↦ neg_part-zero (q.milli_value d) (omega arith)
        | yes below ↦
            let less = (laws.sign_iff d).1 (omega (arith, h)) in
            omega (arith, less, not-ltb_ℤ→le (q.sign d) (pos 0) left)
      ],
    )

    -- What is left of a capacity, where it is not negative.
    pub left-IsCount :
        (a b : Q)
        → IsCount laws a
        → IsCount laws b
        → IsNotNegative (q.add a (q.neg b))
        → IsCount laws (q.add a (q.neg b)) × (count (q.add a (q.neg b)) + count b ≡ count a)
    left-IsCount a b (h, pos_a) (k, pos_b) left =
        let e = milli_value-difference a b h k in
        let whole : IsMilli laws (q.add a (q.neg b)) =
          subst (IsMillis laws (q.add a (q.neg b))) (sym e) (difference-IsMillis a b h k) in
        let sign = (IsNegative-iff _ whole).1 left in
        ((whole, sign), omega (int_laws, ap pos_part e, ap neg_part e, sign))

    pub overdrawn :
        (a b : Q)
        → IsCount laws a
        → IsCount laws b
        → IsNegative (q.add a (q.neg b))
        → count a < count b
    overdrawn a b (h, pos_a) (k, pos_b) negative =
        let e = milli_value-difference a b h k in
        let whole : IsMilli laws (q.add a (q.neg b)) =
          subst (IsMillis laws (q.add a (q.neg b))) (sym e) (difference-IsMillis a b h k) in
        let less = (IsNegative-iff _ whole).0 negative in
        omega (int_laws, ap pos_part e, ap neg_part e, less)

    pub visit_pods-IsCount :
        (pods : List (Pod Q)) (u end : Untracked Q)
        → visit_pods u pods ≡ some end
        → IsCount laws u.cpu
        → All (HasCounts laws capped_cpu) pods
        → AreDistinct pods
        → IsCount laws end.cpu
          × (count end.cpu ≡ count u.cpu + shares u.scales pods)
          × AreFewer laws capped_cpu u.scales.pod_scales end.scales.pod_scales
    unfolding visit_pods
    visit_pods-IsCount [] u end e h hs distinct =
        let same : u ≡ end = ground (arith, e) in
        subst
          (λ (x : Untracked Q).
            IsCount laws x.cpu
            × (count x.cpu ≡ count u.cpu + 0)
            × AreFewer laws capped_cpu u.scales.pod_scales x.scales.pod_scales)
          same (h, omega arith, same-AreFewer laws capped_cpu u.scales.pod_scales)
    visit_pods-IsCount (pod ∷ pods) u end e h (hp, hs) (apart, distinct) =
        elim (Option-cases (visit_pod u pod)) [
          | inl failed ↦ ground (arith, e, failed)
          | inr (u', is_u') ↦
              let step = visit_pod-IsStep laws capped_cpu u u' pod is_u' h hp in
              let (cpu, sum, fewer) =
                visit_pods-IsCount pods u' end (ground (arith, e, is_u')) step.cpu_count hs
                  distinct in
              let same = shares_same pod u.scales u'.scales pods apart step.others in
              (
                cpu,
                omega (arith, sum, step.cpu_sum, same),
                record {
                  less = omega (arith, fewer.less, step.fewer.less);
                  kept = λ x. fewer.kept (step.fewer.kept x);
                },
              )
        ]
