-- ===== src/Pipeline/Panic.antt =====
-- From a pod without the agreement's container to the end of the process.
use kosmos_v.Prelude.{String, ◌≡◌, refl, sym, subst, ap, Option, none, some, List, [], ◌∷◌, ◌++◌}
use kosmos_v.Prelude.Branches.{option_branch, some_branch}
use kosmos_v.Quantity.{Quantities}
use kosmos_v.Float.{Machine}
use kosmos_v.Api.{Pod, PodScale, Node, ServiceLevelAgreement}
use kosmos_v.Recommender.{Logic, container_to_scale, compute_pod_scale}
use kosmos_v.Recommender.Loop.{LogicMap, recommend_container, recommend_all, recommend_node}
use kosmos_v.Contention.{NodeOutcome, panicked, all_present, process_node}
use kosmos_v.Pipeline.{Views}

module _ {Q : Type 0} ⦃q : Quantities Q⦄ (m : Machine) (v : Views Q) where
  open v use {find_pod, find_sla, pod_metrics}

  -- The pod, the agreement and the metrics are found, and the pod lacks the container.
  pub record LacksContainer (scale : PodScale Q) : Type 0 where
    pub pod : Pod Q
    pub sla : ServiceLevelAgreement Q
    pub measured : Q
    pub pod_found : find_pod scale.spec.namespace scale.spec.pod ≡ some pod
    pub sla_found : find_sla scale.spec.namespace scale.spec.sla ≡ some sla
    pub metrics_found : pod_metrics pod ≡ some measured
    pub lacks : container_to_scale pod.containers sla.spec.service.container ≡ none

  -- A nil pod scale, without an error.
  abbrev IsNil : Option (Option (PodScale Q)) × LogicMap → Type 0
  IsNil (answer, logics) = answer ≡ some none

  compute_pod_scale-nil :
      (l : Logic) (pod : Pod Q) (scale : PodScale Q) (sla : ServiceLevelAgreement Q) (measured : Q)
      → container_to_scale pod.containers sla.spec.service.container ≡ none
      → (compute_pod_scale m l pod scale sla measured).0 ≡ none
  unfolding compute_pod_scale
  compute_pod_scale-nil l pod scale sla measured h =
      let P : Option (PodScale Q) × Logic → Type 0 = λ r. r.0 ≡ none in
      option_branch P (container_to_scale pod.containers sla.spec.service.container) (λ _. refl)
        (λ c e. cc)

  recommend_container-IsNil :
      (scale : PodScale Q) (logics : LogicMap)
      → LacksContainer scale
      → IsNil (recommend_container m find_pod find_sla pod_metrics scale logics)
  unfolding recommend_container
  recommend_container-IsNil scale logics h = some_branch IsNil _ _ h.pod h.pod_found (
      some_branch IsNil _ _ h.sla h.sla_found (
        some_branch IsNil _ _ h.measured h.metrics_found
          (ap some (compute_pod_scale-nil _ h.pod scale h.sla h.measured h.lacks))))

  cons_absent :
      (new : Option (PodScale Q)) (rest : List (Option (PodScale Q)))
      → all_present rest ≡ none
      → all_present (new ∷ rest) ≡ none
  unfolding all_present
  cons_absent none rest h = refl
  cons_absent (some p) rest h = rw h refl

  nil_absent : (rest : List (Option (PodScale Q))) → all_present (none ∷ rest) ≡ none
  unfolding all_present
  nil_absent rest = refl

  recommend_all-absent :
      (before after : List (PodScale Q)) (scale : PodScale Q) (logics : LogicMap)
      → LacksContainer scale
      → all_present
          (recommend_all m find_pod find_sla pod_metrics (before ++ (scale ∷ after)) logics).0
        ≡ none
  unfolding recommend_all
  recommend_all-absent [] after scale logics h =
      let P : List (Option (PodScale Q)) × LogicMap → Type 0 = λ r. all_present r.0 ≡ none in
      some_branch P _ _ none (recommend_container-IsNil scale logics h) (nil_absent _)
  recommend_all-absent (x ∷ before) after scale logics h =
      let (answer, logics') = recommend_container m find_pod find_sla pod_metrics x logics in
      let rest = recommend_all-absent before after scale logics' h in
      let P : List (Option (PodScale Q)) × LogicMap → Type 0 = λ r. all_present r.0 ≡ none in
      option_branch P answer (λ _. rest) (λ new _. cons_absent new _ rest)

  listed-absent :
      (before after : List (PodScale Q)) (scale : PodScale Q) (node : String) (logics : LogicMap)
      → LacksContainer scale
      → (scales : List (Option (PodScale Q))) × ((recommend_node m find_pod find_sla pod_metrics
            (λ _. some (before ++ (scale ∷ after)))
            node
            logics).0
          ≡ some (node, scales))
        × (all_present scales ≡ none)
  unfolding recommend_node
  listed-absent [] after scale node logics h =
      (_, refl, recommend_all-absent [] after scale logics h)
  listed-absent (x ∷ before) after scale node logics h =
      (_, refl, recommend_all-absent (x ∷ before) after scale logics h)

  panics :
      (find_node : String → Option (Node Q)) (pods_on : String → Option (List (Pod Q)))
      (node : String) (scales : List (Option (PodScale Q))) (n : Node Q) (pods : List (Pod Q))
      → find_node node ≡ some n
      → pods_on n.meta.name ≡ some pods
      → all_present scales ≡ none
      → process_node m find_node pods_on node scales ≡ panicked
  unfolding process_node
  panics find_node pods_on node scales n pods is_node are_pods absent =
      let P : NodeOutcome Q → Type 0 = λ o. o ≡ panicked in
      some_branch P _ _ n is_node (some_branch P _ _ pods are_pods (rw absent refl))

  -- If among the pod scales of a node there is one whose pod, agreement and metrics are found and whose
  -- pod lacks the agreement's container, then `recommendNode` sends a message for the node, and the
  -- contention manager panics on this message wherever it finds the node and its pods.
  pub missing_container_panics :
      (before after : List (PodScale Q)) (scale : PodScale Q) (node : String) (logics : LogicMap)
      (find_node : String → Option (Node Q)) (pods_on : String → Option (List (Pod Q))) (n : Node Q)
      (pods : List (Pod Q))
      → LacksContainer scale
      → v.scales_on node ≡ some (before ++ (scale ∷ after))
      → find_node node ≡ some n
      → pods_on n.meta.name ≡ some pods
      → (scales : List (Option (PodScale Q))) × ((recommend_node m find_pod find_sla pod_metrics
            v.scales_on node logics).0
          ≡ some (node, scales))
        × (process_node m find_node pods_on node scales ≡ panicked)
  unfolding recommend_node
  missing_container_panics before after scale node logics find_node pods_on n pods h listed is_node
        are_pods =
      let (scales, e, absent) = listed-absent before after scale node logics h in
      let P : Option (List (PodScale Q)) → Type 0 = λ o.
        (recommend_node m find_pod find_sla pod_metrics (λ _. o) node logics).0
        ≡ some (node, scales) in
      (
        scales,
        subst P (sym listed) e,
        panics find_node pods_on node scales n pods is_node are_pods absent,
      )
