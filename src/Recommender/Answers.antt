-- ===== src/Recommender/Answers.antt =====
-- The message of `recommendNode`: which pod scales it holds, and what they say.
use kosmos_v.Prelude.{String, ◌≡◌, refl, subst, ◌⊎◌, inl, inr, Option, none, some, List, [], ◌∷◌}
use kosmos_v.Prelude.Branches.{option_branch}
use kosmos_v.Quantity.{Quantities}
use kosmos_v.Float.{Machine}
use kosmos_v.Api.{cpu_of, memory_of, Pod, PodScale, ServiceLevelAgreement}
use kosmos_v.Recommender.{Logic, compute_pod_scale}
use kosmos_v.Recommender.Bounds.{IsOrdered, Recommended, compute_pod_scale-Recommended}
use kosmos_v.Recommender.Loop.{
  Key, LogicMap, logic_for, recommend_container, recommend_all, recommend_node,
}

module _ {Q : Type 0} ⦃q : Quantities Q⦄ (m : Machine) (find_pod : String → String → Option (Pod Q))
    (find_sla : String → String → Option (ServiceLevelAgreement Q))
    (pod_metrics : Pod Q → Option Q) where
  -- A pod scale whose pod, agreement or metrics are not found.
  abbrev pub IsSkipped : PodScale Q → Type 0
  IsSkipped scale =
      (find_pod scale.spec.namespace scale.spec.pod ≡ none)
      ⊎ (find_sla scale.spec.namespace scale.spec.sla ≡ none)
      ⊎ ((pod : Pod Q) × (find_pod scale.spec.namespace scale.spec.pod ≡ some pod)
          × (pod_metrics pod ≡ none))

  -- What is computed of a pod scale, its pod, its agreement and what was measured, by some logic.
  abbrev pub IsAnswer : PodScale Q → Option (PodScale Q) → Type 0
  IsAnswer scale new =
      (pod : Pod Q) × (sla : ServiceLevelAgreement Q) × (measured : Q) × (l : Logic) × (find_pod
          scale.spec.namespace scale.spec.pod
        ≡ some pod)
      × (find_sla scale.spec.namespace scale.spec.sla ≡ some sla)
      × (pod_metrics pod ≡ some measured)
      × (new ≡ (compute_pod_scale m l pod scale sla measured).0)
      × Recommended pod scale sla new

  -- The answers for these pod scales in their order, without those that are skipped.
  abbrev pub AreAnswers : List (PodScale Q) → List (Option (PodScale Q)) → Type 0
  AreAnswers [] answers = answers ≡ []
  AreAnswers (scale ∷ scales) answers =
      IsSkipped scale × AreAnswers scales answers
      ⊎ ((new : Option (PodScale Q)) × (rest : List (Option (PodScale Q))) × (answers ≡ new ∷ rest)
          × IsAnswer scale new
          × AreAnswers scales rest)

  -- No message where no pod scales are found; else one of their answers, for this node.
  abbrev pub IsMessage :
      String → Option (List (PodScale Q)) → Option (String × List (Option (PodScale Q))) → Type 0
  IsMessage node none message = message ≡ none
  IsMessage node (some []) message = message ≡ none
  IsMessage node (some (scale ∷ scales)) message =
      (answers : List (Option (PodScale Q))) × (message ≡ some (node, answers))
      × AreAnswers (scale ∷ scales) answers

  -- The limits of the agreement are in order.
  abbrev pub AreOrdered : ServiceLevelAgreement Q → Type 0
  AreOrdered sla =
      IsOrdered cpu_of sla.spec.min_resources sla.spec.max_resources
      × IsOrdered memory_of sla.spec.min_resources sla.spec.max_resources

  module _
      (ordered : (namespace name : String) (sla : ServiceLevelAgreement Q)
        → find_sla namespace name ≡ some sla
        → AreOrdered sla) where
    -- What one call answers.
    abbrev One : PodScale Q → Option (Option (PodScale Q)) × LogicMap → Type 0
    One scale (none, logics) = IsSkipped scale
    One scale (some new, logics) = IsAnswer scale new

    recommend_container-One :
        (scale : PodScale Q) (logics : LogicMap)
        → One scale (recommend_container m find_pod find_sla pod_metrics scale logics)
    unfolding recommend_container
    recommend_container-One scale logics =
        let P = One scale in
        option_branch P (find_pod scale.spec.namespace scale.spec.pod) (λ e. inl e)
          (λ pod is_pod.
            option_branch P (find_sla scale.spec.namespace scale.spec.sla) (λ e. inr (inl e))
              (λ sla is_sla.
                let (cpu, memory) = ordered scale.spec.namespace scale.spec.sla sla is_sla in
                let key : Key = (scale.meta.namespace, scale.meta.name) in
                let l = logic_for m (logics key) sla.spec.recommender_logic scale in
                option_branch P (pod_metrics pod) (λ e. inr (inr (pod, is_pod, e)))
                  (λ measured is_measured. (
                    pod,
                    sla,
                    measured,
                    l,
                    is_pod,
                    is_sla,
                    is_measured,
                    refl,
                    compute_pod_scale-Recommended m l pod scale sla measured cpu memory,
                  ))))

    recommend_all-AreAnswers :
        (scales : List (PodScale Q)) (logics : LogicMap)
        → AreAnswers scales (recommend_all m find_pod find_sla pod_metrics scales logics).0
    unfolding recommend_all
    recommend_all-AreAnswers [] logics = refl
    recommend_all-AreAnswers (scale ∷ scales) logics =
        let (answer, logics') = recommend_container m find_pod find_sla pod_metrics scale logics in
        let one = recommend_container-One scale logics in
        let rest = recommend_all-AreAnswers scales logics' in
        let P : List (Option (PodScale Q)) × LogicMap → Type 0 =
          λ r. AreAnswers (scale ∷ scales) r.0 in
        option_branch P answer (λ e. inl (subst (λ o. One scale (o, logics')) e one, rest))
          (λ new e. inr (new, _, refl, subst (λ o. One scale (o, logics')) e one, rest))

    listed-IsMessage :
        (listed : Option (List (PodScale Q))) (node : String) (logics : LogicMap)
        → IsMessage node listed
            (recommend_node m find_pod find_sla pod_metrics (λ _. listed) node logics).0
    unfolding recommend_node
    listed-IsMessage none node logics = refl
    listed-IsMessage (some []) node logics = refl
    listed-IsMessage (some (scale ∷ scales)) node logics =
        (_, refl, recommend_all-AreAnswers (scale ∷ scales) logics)

    -- If the limits of all agreements are in order: `recommendNode` sends a message exactly if pod
    -- scales are found for the node. Its pod scales are the recommendations for these, in their order:
    -- for each, its pod, its agreement and its metrics are found, and the recommendation is what
    -- `computePodScale` makes of them by some logic, within the limits of the agreement, or nil for a
    -- pod without the agreement's container. Left out are those whose pod, agreement or metrics are not
    -- found.
    pub recommend_node-IsMessage :
        (scales_on : String → Option (List (PodScale Q))) (node : String) (logics : LogicMap)
        → IsMessage node
            (scales_on node)
            (recommend_node m find_pod find_sla pod_metrics scales_on node logics).0
    unfolding recommend_node
    recommend_node-IsMessage scales_on node logics = listed-IsMessage (scales_on node) node logics
