-- ===== src/Recommender/Loop.antt =====
-- pkg/pod-autoscaler/pkg/recommender/controller.go: `recommendContainer` and `recommendNode`. The
-- listers and the metrics client are arguments, `none` for an error. The map of logics is an
-- association list; a logic that a call changes is stored under its key.
use kosmos_v.Prelude.{String, Option, none, some, List, [], ◌∷◌, str_eq}
use kosmos_v.Prelude.Tests.{if◌then◌else◌}
use kosmos_v.Quantity.{Quantities}
use kosmos_v.Float.{Machine}
use kosmos_v.Api.{
  Node, RecommendLogic, fixed_gain_control, adaptive_gain_control, other_logic, Pod, PodScale,
  ServiceLevelAgreement,
}
use kosmos_v.Queue.{Workqueue, enqueue_all}
use kosmos_v.Recommender.{
  Logic, fixed, adaptive, new_fixed_gain_logic, new_adaptive_gain_logic, compute_pod_scale,
}

-- A key is a namespace and a name.
abbrev pub Key : Type 0
Key = String × String

abbrev pub LogicMap : Type 0
LogicMap = Key → Option Logic

abbrev pub store : LogicMap → Key → Logic → LogicMap
store logics (namespace, name) l (namespace', name') =
    if str_eq namespace' namespace
    then (if str_eq name' name then some l else logics (namespace', name'))
    else logics (namespace', name')

module _ {Q : Type 0} ⦃q : Quantities Q⦄ (m : Machine) where
  abbrev pub new_logic : RecommendLogic → PodScale Q → Logic
  new_logic fixed_gain_control scale = fixed (new_fixed_gain_logic m scale)
  new_logic adaptive_gain_control scale = adaptive (new_adaptive_gain_logic m scale)
  new_logic (other_logic name) scale = fixed (new_fixed_gain_logic m scale)

  -- `logicMap.Load`, and a new logic where there is none.
  abbrev pub logic_for : Option Logic → RecommendLogic → PodScale Q → Logic
  logic_for none kind scale = new_logic kind scale
  logic_for (some l) kind scale = l

  module _ (find_pod : String → String → Option (Pod Q))
      (find_sla : String → String → Option (ServiceLevelAgreement Q))
      (pod_metrics : Pod Q → Option Q) where
    -- `none` is an error, and `some none` a nil pod scale without an error: the error of
    -- `computePodScale` is dropped.
    unfoldable pub recommend_container :
        PodScale Q → LogicMap → Option (Option (PodScale Q)) × LogicMap
    recommend_container scale logics =
        let key : Key = (scale.meta.namespace, scale.meta.name) in
        elim (find_pod scale.spec.namespace scale.spec.pod) [
          | none ↦ (none, logics)
          | some pod ↦ elim (find_sla scale.spec.namespace scale.spec.sla) [
            | none ↦ (none, logics)
            | some sla ↦
                let l = logic_for (logics key) sla.spec.recommender_logic scale in
                elim (pod_metrics pod) [
                  | none ↦ (none, store logics key l)
                  | some measured ↦
                      let (new_scale, l') = compute_pod_scale m l pod scale sla measured in
                      (some new_scale, store logics key l')
                ]
          ]
        ]

    -- The loop over the pod scales: those with an error are left out.
    unfoldable pub recommend_all :
        List (PodScale Q) → LogicMap → List (Option (PodScale Q)) × LogicMap
    recommend_all [] logics = ([], logics)
    recommend_all (scale ∷ scales) logics =
        let (answer, logics') = recommend_container scale logics in
        let (rest, last) = recommend_all scales logics' in
        elim answer [ none ↦ (rest, last) | some new_scale ↦ (new_scale ∷ rest, last) ]

    -- The message for the contention manager, if one is sent.
    unfoldable pub recommend_node :
        (String → Option (List (PodScale Q)))
        → String
        → LogicMap
        → Option (String × List (Option (PodScale Q))) × LogicMap
    recommend_node scales_on node logics = elim (scales_on node) [
      | none ↦ (none, logics)
      | some [] ↦ (none, logics)
      | some (scale ∷ scales) ↦
          let (new_scales, logics') = recommend_all (scale ∷ scales) logics in
          (some (node, new_scales), logics')
    ]

-- `runRecommenderWorker`, of the answer of the lister of nodes: all nodes wait to be recommended to.
unfoldable pub run_recommender_worker :
    {Q W : Type 0}
    → ⦃queue : Workqueue W⦄ → (Node Q → Option String)
    → Option (List (Node Q))
    → W
    → W
run_recommender_worker key_of none w = w
run_recommender_worker key_of (some nodes) w = enqueue_all key_of nodes w
