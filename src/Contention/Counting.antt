-- ===== src/Contention/Counting.antt =====
-- What `NewContentionManager` counts against the node.
use mathlib.Core.Bool.{false≢true}
use kosmos_v.Prelude.{
  ℕ, ◌+◌, ◌≤◌, String, ◌≡◌, refl, sym, subst, ◌∙◌, inl, inr, Bool, true, false, ◌&&◌, some, List,
  [], ◌∷◌, ◌++◌, arith, str_eq, str_eq_iff,
}
use kosmos_v.Prelude.Tests.{if◌then◌else◌, Bool-cases, Option-cases}
use kosmos_v.Prelude.Lists.{any, All}
use kosmos_v.Quantity.{Quantities, IsDecimal}
use kosmos_v.Api.{cpu_of, Container, is_guaranteed, Pod, PodScale}
use kosmos_v.NodeScales.{NodeScales, belongs, contains, remove}
use kosmos_v.NodeScales.Removal.{IsFirst, Removed, remove-Removed}
use kosmos_v.Contention.{Untracked, add_requests, visit_pod}
use kosmos_v.Contention.Fits.{count, total, IsCount, add-IsCount}

module _ {Q : Type 0} ⦃q : Quantities Q⦄ where
  -- The CPU that a container, and all containers of a pod request.
  abbrev pub request : Container Q → Q
  request c = cpu_of c.resources.requests

  abbrev pub requested : Pod Q → ℕ
  requested pod = total request pod.containers

  -- A pod is counted unless it is tracked and guaranteed.
  abbrev pub share : NodeScales Q → Pod Q → ℕ
  share ns pod =
      if contains ns pod.meta.name pod.meta.namespace && is_guaranteed pod.qos_class
      then 0
      else requested pod

  abbrev pub shares : NodeScales Q → List (Pod Q) → ℕ
  shares ns [] = 0
  shares ns (pod ∷ pods) = share ns pod + shares ns pods

  -- No two pods have the same name and namespace.
  abbrev pub same_pod : Pod Q → Pod Q → Bool
  same_pod a b = str_eq a.meta.namespace b.meta.namespace && str_eq a.meta.name b.meta.name

  abbrev pub AreDistinct : List (Pod Q) → Type 0
  AreDistinct [] = Unit
  AreDistinct (pod ∷ pods) = All (λ x. same_pod pod x ≡ false) pods × AreDistinct pods

  total-without :
      (f : PodScale Q → Q) (before : List (PodScale Q)) (p : PodScale Q) (after : List (PodScale Q))
      → total f (before ++ after) ≤ total f (before ++ (p ∷ after))
  total-without f [] p after = omega arith
  total-without f (x ∷ before) p after = omega (arith, total-without f before p after)

  All-without :
      (P : PodScale Q → Type 0) (before : List (PodScale Q)) (p : PodScale Q)
      (after : List (PodScale Q))
      → All P (before ++ (p ∷ after))
      → All P (before ++ after)
  All-without P [] p after (h, hs) = hs
  All-without P (x ∷ before) p after (h, hs) = (h, All-without P before p after hs)

  any-without :
      (b : PodScale Q → Bool) (before : List (PodScale Q)) (p : PodScale Q)
      (after : List (PodScale Q))
      → b p ≡ false
      → any b (before ++ after) ≡ any b (before ++ (p ∷ after))
  any-without b [] p after h = ground (arith, h)
  any-without b (x ∷ before) p after h = ground (arith, any-without b before p after h)

  belongs-apart :
      (a b : Pod Q) (p : PodScale Q)
      → same_pod a b ≡ false
      → belongs a.meta.name a.meta.namespace p ≡ true
      → belongs b.meta.name b.meta.namespace p ≡ false
  belongs-apart a b p apart here = ground (
    arith,
    apart,
    here,
    str_eq_iff p.spec.namespace a.meta.namespace,
    str_eq_iff p.spec.pod a.meta.name,
    str_eq_iff p.spec.namespace b.meta.namespace,
    str_eq_iff p.spec.pod b.meta.name,
    str_eq_iff a.meta.namespace b.meta.namespace,
    str_eq_iff a.meta.name b.meta.name,
  )

  module _ (laws : IsDecimal Q) (capped : PodScale Q → Q) where
    -- All requests are whole thousandths that are not negative.
    abbrev pub HasCounts : Pod Q → Type 0
    HasCounts pod = All (λ c. IsCount laws (request c)) pod.containers

    -- The pod scales that are left are some of those before.
    pub record AreFewer (ps rest : List (PodScale Q)) : Type 0 where
      pub less : total capped rest ≤ total capped ps
      pub kept : All (λ p. IsCount laws (capped p)) ps → All (λ p. IsCount laws (capped p)) rest

    pub record IsStep (u : Untracked Q) (pod : Pod Q) (u' : Untracked Q) : Type 0 where
      pub cpu_count : IsCount laws u'.cpu
      pub cpu_sum : count u'.cpu ≡ count u.cpu + share u.scales pod
      pub fewer : AreFewer u.scales.pod_scales u'.scales.pod_scales
      pub others :
          (x : Pod Q)
          → same_pod pod x ≡ false
          → contains u'.scales x.meta.name x.meta.namespace
            ≡ contains u.scales x.meta.name x.meta.namespace

    add_requests-IsCount :
        (cs : List (Container Q)) (u : Untracked Q)
        → IsCount laws u.cpu
        → All (λ c. IsCount laws (request c)) cs
        → IsCount laws (add_requests u cs).cpu
          × (count (add_requests u cs).cpu ≡ count u.cpu + total request cs)
          × ((add_requests u cs).scales ≡ u.scales)
    unfolding add_requests
    add_requests-IsCount [] u h hs = (h, omega arith, refl)
    add_requests-IsCount (c ∷ cs) u h (hc, hs) =
        let (here, sum) = add-IsCount laws u.cpu (request c) h hc in
        let (rest, sums, same) = add_requests-IsCount cs _ here hs in
        (rest, omega (arith, sum, sums), same)

    -- A step that changes no pod scale, or takes out one of the pod.
    requests-IsStep :
        (u : Untracked Q) (pod : Pod Q) (scales : NodeScales Q)
        → share u.scales pod ≡ requested pod
        → IsCount laws u.cpu
        → HasCounts pod
        → AreFewer u.scales.pod_scales scales.pod_scales
        → ((x : Pod Q)
            → same_pod pod x ≡ false
            → contains scales x.meta.name x.meta.namespace
              ≡ contains u.scales x.meta.name x.meta.namespace)
        → IsStep u pod (add_requests (record u { scales = scales }) pod.containers)
    requests-IsStep u pod scales counted h hs fewer others =
        let (cpu, sum, same) =
          add_requests-IsCount pod.containers (record u { scales = scales }) h hs in
        record {
          cpu_count = cpu;
          cpu_sum = omega (arith, sum, counted);
          fewer = subst (λ s. AreFewer u.scales.pod_scales s.pod_scales) (sym same) fewer;
          others = λ x apart.
              subst
                (λ (s : NodeScales Q).
                  contains s x.meta.name x.meta.namespace
                  ≡ contains u.scales x.meta.name x.meta.namespace)
                (sym same) (others x apart);
        }

    pub same-AreFewer : (ps : List (PodScale Q)) → AreFewer ps ps
    same-AreFewer ps = record { less = omega arith; kept = λ h. h }

    removed-AreFewer :
        (name namespace : String) (p : PodScale Q) (all rest : List (PodScale Q))
        → IsFirst name namespace p all rest
        → AreFewer all rest
    removed-AreFewer name namespace p all rest (before, after, e, f, here, absent) = record {
      less = rw (e, f) (total-without capped before p after);
      kept = λ h. rw f (All-without _ before p after (subst (All _) e h));
    }

    removed-others :
        (pod : Pod Q) (p : PodScale Q) (s s' : NodeScales Q)
        → IsFirst pod.meta.name pod.meta.namespace p s.pod_scales s'.pod_scales
        → (x : Pod Q) → same_pod pod x ≡ false
        → contains s' x.meta.name x.meta.namespace ≡ contains s x.meta.name x.meta.namespace
    unfolding contains
    removed-others pod p s s' (before, after, e, f, here, absent) x apart =
        rw (e, f)
          (any-without (belongs x.meta.name x.meta.namespace) before p after
            (belongs-apart pod x p apart here))

    pub visit_pod-IsStep :
        (u u' : Untracked Q) (pod : Pod Q)
        → visit_pod u pod ≡ some u'
        → IsCount laws u.cpu
        → HasCounts pod
        → IsStep u pod u'
    unfolding visit_pod
    visit_pod-IsStep u u' pod e h hs =
        elim (Bool-cases (contains u.scales pod.meta.name pod.meta.namespace)) [
          | inr absent ↦
              let is_u' : add_requests u pod.containers ≡ u' = ground (arith, e, absent) in
              subst (IsStep u pod) is_u' (
                requests-IsStep u pod u.scales (rw absent refl) h hs (same-AreFewer _)
                  (λ x apart. refl))
          | inl here ↦ elim (Bool-cases (is_guaranteed pod.qos_class)) [
            | inl guaranteed ↦
                let is_u' : u ≡ u' = ground (arith, e, here, guaranteed) in
                subst (IsStep u pod) is_u' (record {
                  cpu_count = h;
                  cpu_sum = rw (here, guaranteed) (omega arith);
                  fewer = same-AreFewer _;
                  others = λ x apart. refl;
                })
            | inr burstable ↦
                let removal = remove-Removed pod.meta.name pod.meta.namespace u.scales in
                elim (Option-cases (remove u.scales pod.meta.name pod.meta.namespace)) [
                  | inl failed ↦ absurd (
                      false≢true (
                        sym
                          (subst (Removed pod.meta.name pod.meta.namespace u.scales) failed removal)
                        ∙ here))
                  | inr ((p, scales), is_removed) ↦
                      let (_, _, first) =
                        subst (Removed pod.meta.name pod.meta.namespace u.scales) is_removed
                          removal in
                      let is_u' : add_requests (record u { scales = scales }) pod.containers ≡ u' =
                        ground (arith, e, here, burstable, is_removed) in
                      subst (IsStep u pod) is_u' (
                        requests-IsStep u pod scales (rw (here, burstable) refl) h hs
                          (removed-AreFewer _ _ p _ _ first)
                          (removed-others pod p u.scales scales first))
                ]
          ]
        ]
