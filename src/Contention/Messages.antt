-- ===== src/Contention/Messages.antt =====
-- What `processNextNode` makes of a message whose pod scales keep to limits: the pod scales that it
-- sends on are some of these, with actual resources that are no more than the capped ones.
use kosmos_v.Prelude.{
  ℕ, ◌-◌, ◌*◌, ◌^◌, ◌≤◌, String, ◌≡◌, refl, sym, subst, ap, inl, inr, Option, none, some, List, [],
  ◌∷◌, ◌++◌, map, arith,
}
use kosmos_v.Prelude.Tests.{if◌then◌else◌, Bool-cases, Option-cases}
use kosmos_v.Prelude.Branches.{option_branch}
use kosmos_v.Prelude.Lists.{length, All}
use kosmos_v.Quantity.{Quantities, IsDecimal}
use kosmos_v.Float.{Machine}
use kosmos_v.Float.Order.{IsIeee, scale}
use kosmos_v.Api.{ResourceList, Container, is_guaranteed, Pod, PodScale, Node}
use kosmos_v.NodeScales.{NodeScales, contains}
use kosmos_v.NodeScales.Removal.{Removed, remove-Removed}
use kosmos_v.Contention.{
  ContentionManager, SolverFn, NodeOutcome, returned, panicked, sent, all_present, proportional,
  settle, solve, capped_cpu, capped_memory, Untracked, add_requests, visit_pod, visit_pods,
  new_contention_manager, process_node,
}
use kosmos_v.Contention.Fits.{count, total, IsCount}
use kosmos_v.Contention.Tracking.{Managed, new_contention_manager-Managed}
use kosmos_v.Contention.Grants.{IsGrant, IsSmall, solve-IsGrant}

module _ {Q : Type 0} ⦃q : Quantities Q⦄ where
  -- A pod scale with other actual resources.
  abbrev pub given : PodScale Q → ResourceList Q → PodScale Q
  given p actual = record p { status = record (p.status) { actual_resources = actual } }

  module _ (P : PodScale Q → Type 0) (n : ℕ) where
    -- A property of every pod scale, and a bound on their number.
    abbrev pub AreFew : List (PodScale Q) → Type 0
    AreFew ps = All P ps × (length ps ≤ n)

    All-left :
        (before : List (PodScale Q)) (p : PodScale Q) (after : List (PodScale Q))
        → All P (before ++ (p ∷ after))
        → All P (before ++ after) × (length (before ++ after) ≤ length (before ++ (p ∷ after)))
    All-left [] p after (h, hs) = (hs, omega arith)
    All-left (x ∷ before) p after (h, hs) =
        let (rest, less) = All-left before p after hs in ((h, rest), omega (arith, less))

    scales-add_requests :
        (cs : List (Container Q)) (u : Untracked Q) → (add_requests u cs).scales ≡ u.scales
    unfolding add_requests
    scales-add_requests [] u = refl
    scales-add_requests (c ∷ cs) u = scales-add_requests cs _

    -- The loop over the pods takes out pod scales only.
    abbrev StillFew : Option (Untracked Q) → Type 0
    StillFew none = Unit
    StillFew (some u) = AreFew u.scales.pod_scales

    add_requests-StillFew :
        (u : Untracked Q) (cs : List (Container Q))
        → AreFew u.scales.pod_scales
        → AreFew (add_requests u cs).scales.pod_scales
    add_requests-StillFew u cs h =
        subst (λ (s : NodeScales Q). AreFew s.pod_scales) (sym (scales-add_requests cs u)) h

    Removed-AreFew :
        (name namespace : String) (ns : NodeScales Q) (o : Option (PodScale Q × NodeScales Q))
        (u : Untracked Q) (cs : List (Container Q))
        → AreFew ns.pod_scales
        → Removed name namespace ns o
        → StillFew (elim o as (λ x. Option (Untracked Q)) [
          | none ↦ none
          | some (removed, scales) ↦ some (add_requests (record u { scales = scales }) cs)
        ])
    Removed-AreFew name namespace ns none u cs few r = tt
    Removed-AreFew name namespace ns (some (p, ns')) u cs (all, few) (_, _, first) =
        let (before, after, e, f, here, absent) = first in
        let (rest, less) = All-left before p after (subst (All P) e all) in
        let short = ap length e in
        let kept : AreFew ns'.pod_scales = rw f (rest, omega (arith, less, short, few)) in
        add_requests-StillFew (record u { scales = ns' }) cs kept

    visit_pod-StillFew :
        (u : Untracked Q) (pod : Pod Q) → AreFew u.scales.pod_scales → StillFew (visit_pod u pod)
    unfolding visit_pod
    visit_pod-StillFew u pod h =
        let tracked = contains u.scales pod.meta.name pod.meta.namespace in
        elim (Bool-cases tracked) [
          | inr absent ↦ rw absent (add_requests-StillFew u pod.containers h)
          | inl here ↦ elim (Bool-cases (is_guaranteed pod.qos_class)) [
            | inl guaranteed ↦ rw (here, guaranteed) h
            | inr burstable ↦
                rw (here, burstable)
                  (Removed-AreFew pod.meta.name pod.meta.namespace u.scales _
                    (if tracked then u else add_requests u pod.containers) pod.containers h
                    (remove-Removed pod.meta.name pod.meta.namespace u.scales))
          ]
        ]

    visit_pods-StillFew :
        (u : Untracked Q) (pods : List (Pod Q))
        → AreFew u.scales.pod_scales
        → StillFew (visit_pods u pods)
    unfolding visit_pods
    visit_pods-StillFew u [] h = h
    visit_pods-StillFew u (pod ∷ pods) h =
        let step = visit_pod-StillFew u pod h in
        option_branch StillFew (visit_pod u pod) (λ _. tt)
          (λ u' e. visit_pods-StillFew u' pods (subst StillFew e step))

    -- What becomes of the pod scales of a message without a nil.
    abbrev pub IfAny : Option (PodScale Q) → Type 0
    IfAny none = Unit
    IfAny (some p) = P p

    present-AreFew :
        (scales : List (Option (PodScale Q))) (k : ℕ)
        → All IfAny scales
        → length scales ≤ k
        → (present : List (PodScale Q)) → all_present scales ≡ some present
        → All P present × (length present ≤ k)
    unfolding all_present
    present-AreFew [] k h few present e =
        let same : [] ≡ present = cc in subst (λ l. All P l × (length l ≤ k)) same (tt, omega arith)
    present-AreFew (none ∷ scales) k (h, hs) few present e = cc
    present-AreFew (some p ∷ scales) k (h, hs) few present e =
        elim (Option-cases (all_present scales)) [
          | inl failed ↦ ground (arith, e, failed)
          | inr (ps, is_ps) ↦
              let (rest, less) = present-AreFew scales (k - 1) hs (omega arith) ps is_ps in
              let same : p ∷ ps ≡ present = ground (arith, e, is_ps) in
              subst (λ l. All P l × (length l ≤ k)) same ((h, rest), omega arith)
        ]

  module _ (laws : IsDecimal Q) (P : PodScale Q → Type 0) (most n : ℕ) where
    -- A property that does not read the actual resources and bounds the capped ones.
    pub record IsLimit : Type 0 where
      pub ignores : (p : PodScale Q) (actual : ResourceList Q) → P p → P (given p actual)
      pub cpu_count : (p : PodScale Q) → P p → IsCount laws (capped_cpu p)
      pub memory_count : (p : PodScale Q) → P p → IsCount laws (capped_memory p)
      pub cpu_most : (p : PodScale Q) → P p → count (capped_cpu p) ≤ most
      pub memory_most : (p : PodScale Q) → P p → count (capped_memory p) ≤ most

    total-le :
        (capped : PodScale Q → Q) (ps : List (PodScale Q))
        → ((p : PodScale Q) → P p → count (capped p) ≤ most)
        → All P ps
        → total capped ps ≤ length ps * most
    total-le capped [] h ps = omega arith
    total-le capped (p ∷ ps) h (hp, hs) = omega (arith, h p hp, total-le capped ps h hs)

    All-implies :
        (R : PodScale Q → Type 0) (ps : List (PodScale Q))
        → ((p : PodScale Q) → P p → R p)
        → All P ps
        → All R ps
    All-implies R [] h ps = tt
    All-implies R (p ∷ ps) h (hp, hs) = (h p hp, All-implies R ps h hs)

    few-IsSmall :
        (capped : PodScale Q → Q) (ps : List (PodScale Q))
        → n * most ≤ 2 ^ 51
        → ((p : PodScale Q) → P p → IsCount laws (capped p))
        → ((p : PodScale Q) → P p → count (capped p) ≤ most)
        → AreFew P n ps
        → IsSmall laws capped ps
    few-IsSmall capped ps small counts bounds (all, few) = record {
      counts = All-implies (λ p. IsCount laws (capped p)) ps counts all;
      total_small =
          omega (arith, small, total-le capped ps bounds all, scale (length ps) n most few);
    }

    All-both :
        (R : PodScale Q → Type 0) (ps : List (PodScale Q))
        → All P ps
        → All R ps
        → All (λ p. P p × R p) ps
    All-both R [] h k = tt
    All-both R (p ∷ ps) (h, hs) (k, ks) = ((h, k), All-both R ps hs ks)

    module _ (m : Machine) (ieee : IsIeee m) (limit : IsLimit) (small : n * most ≤ 2 ^ 51) where
      settle_all-ignores :
          (solver : SolverFn) (cpu memory : Q) (cm : ContentionManager Q) (ps : List (PodScale Q))
          → All P ps
          → All P (map (settle solver cpu memory cm) ps)
      unfolding settle
      settle_all-ignores solver cpu memory cm [] h = tt
      settle_all-ignores solver cpu memory cm (p ∷ ps) (h, hs) =
          (limit.ignores p _ h, settle_all-ignores solver cpu memory cm ps hs)

      solve-ignores :
          (solver : SolverFn) (cm : ContentionManager Q)
          → All P cm.pod_scales
          → All P (solve solver cm)
      unfolding solve
      solve-ignores solver cm h = settle_all-ignores solver _ _ cm cm.pod_scales h

      -- What goes out keeps the property, and its actual resources are at most the capped ones.
      abbrev pub IsGiven : NodeOutcome Q → Type 0
      IsGiven returned = Unit
      IsGiven panicked = Unit
      IsGiven (sent ns) = All (λ p. P p × IsGrant p) ns.pod_scales

      Managed-IsGiven :
          (nd : Node Q) (node : String) (u : Untracked Q) (o : Option (ContentionManager Q))
          → AreFew P n u.scales.pod_scales
          → Managed nd u o
          → IsGiven (elim o as (λ x. NodeOutcome Q) [
            | none ↦ panicked
            | some cm ↦ sent (record { node = node; pod_scales = solve (proportional m) cm })
          ])
      Managed-IsGiven nd node u none few managed = tt
      Managed-IsGiven nd node u (some cm) few (_, _, cpu_left, memory_left, same) =
          let kept : AreFew P n cm.pod_scales = rw same few in
          All-both IsGrant (solve (proportional m) cm) (solve-ignores (proportional m) cm kept.0) (
            solve-IsGrant laws m cm ieee
              (few-IsSmall capped_cpu cm.pod_scales small limit.cpu_count limit.cpu_most kept)
              (few-IsSmall capped_memory cm.pod_scales small limit.memory_count limit.memory_most
                kept)
              cpu_left memory_left)

      -- Of a message of at most `n` pod scales with the property.
      pub process_node-IsGiven :
          (find_node : String → Option (Node Q)) (pods_on : String → Option (List (Pod Q)))
          (node : String) (scales : List (Option (PodScale Q)))
          → All (IfAny P n) scales
          → length scales ≤ n
          → IsGiven (process_node m find_node pods_on node scales)
      unfolding process_node
      process_node-IsGiven find_node pods_on node scales all few =
          option_branch IsGiven (find_node node) (λ _. tt)
            (λ nd _.
              option_branch IsGiven (pods_on nd.meta.name) (λ _. tt)
                (λ pods _.
                  option_branch IsGiven (all_present scales) (λ _. tt)
                    (λ present e.
                      let ns : NodeScales Q = record { node = node; pod_scales = present } in
                      let (u, is_u, managed) = new_contention_manager-Managed nd ns pods in
                      let start = present-AreFew P n scales n all few present e in
                      let still =
                        visit_pods-StillFew P n
                          (record { cpu = q.empty; memory = q.empty; scales = ns }) pods start in
                      Managed-IsGiven nd node u (new_contention_manager nd ns pods)
                        (subst (StillFew P n) is_u still) managed)))
