-- ===== src/Replicas/Custom.antt =====
-- pkg/pod-replicas-updater/pkg/logic.go: `CustomLogic`, which adds a replica for a saturated node
-- and removes replicas for a short response time. The nodes and the pods of a node, which the API
-- server answers, are arguments, `none` for an error.
pub mod Bounds
pub mod Growth
use kosmos_v.Prelude.{ℕ, String, Bool, true, false, Option, none, some, List, [], ◌∷◌, ◌-◌}
use kosmos_v.Prelude.Tests.{if◌then◌else◌}
use kosmos_v.Prelude.Int.{ℤ, pos, negsuc, ◌+ℤ◌, ltb_ℤ, leb_ℤ}
use kosmos_v.Quantity.{Quantities}
use kosmos_v.Float.{Machine, Float64, constant, of_int, add, div, gt, to_int, half_int32}
use kosmos_v.Replicas.{new_hpa_logic, LogicState, steady, HpaLogic, Clock, is_stabilizing, advance}
use kosmos_v.Replicas.Hpa.{rounded, between, proposed}
use kosmos_v.Api.{cpu_of, Container, Pod, Node, PodScale, ServiceLevelAgreement}
use kosmos_v.ResourceUpdater.{label}

-- The fields of `HPALogic` once more, and `earlyStop`. The client is not part of the state.
pub record CustomLogic : Type 0 where
  pub timers : HpaLogic
  pub early_stop : Bool

-- `newCustomLogic`, with its three readings of the clock.
abbrev pub new_custom_logic : Bool → ℕ → ℕ → ℕ → CustomLogic
new_custom_logic early_stop up down stabilize = record {
  timers = new_hpa_logic up down stabilize;
  early_stop = early_stop;
}

-- `n + 1` on 32 bits.
abbrev pub next_int32 : ℤ → ℤ
next_int32 n = if leb_ℤ (pos (half_int32 - 1)) n then negsuc (half_int32 - 1) else n +ℤ pos 1

module _ {Q : Type 0} ⦃q : Quantities Q⦄ (m : Machine) where
  -- The inner and the outer loop of `getNodeSaturationLevel`.
  add_containers : Float64 → List (Container Q) → Float64
  add_containers total [] = total
  add_containers total (c ∷ cs) =
      add_containers (add m total (of_int m (q.milli_value (cpu_of c.resources.requests)))) cs

  add_pods : Float64 → List (Pod Q) → Float64
  unfolding add_containers
  add_pods total [] = total
  add_pods total (p ∷ ps) = add_pods (add_containers total p.containers) ps

  module _ (find_node : String → Option (Node Q)) (pods_of : String → Option (List (Pod Q))) where
    unfoldable pub get_node_saturation_level : String → Option Float64
    unfolding add_pods
    get_node_saturation_level name = elim (find_node name) [
      | none ↦ none
      | some node ↦ elim (pods_of name) [
        | none ↦ none
        | some pods ↦ some (
            div m (add_pods (constant 0 1) pods)
              (of_int m (q.milli_value (cpu_of node.allocatable))))
      ]
    ]

    -- The test in the loop; a node that cannot be read is passed over.
    is_saturated : PodScale Q → Bool
    unfolding get_node_saturation_level
    is_saturated scale =
        elim (get_node_saturation_level (label scale.meta.labels "system.autoscaler/node")) [
          | none ↦ false
          | some level ↦ gt level (rounded m (constant 8 10))
        ]

    -- The loop over the pod scales, which may stop at the first saturated node.
    unfoldable pub count_saturated : Bool → ℤ → List (PodScale Q) → ℤ
    unfolding is_saturated
    count_saturated early n [] = n
    count_saturated early n (scale ∷ scales) = elim (is_saturated scale) [
      | false ↦ count_saturated early n scales
      | true ↦ elim early [
        | true ↦ next_int32 n
        | false ↦ count_saturated early (next_int32 n) scales
      ]
    ]

    -- "Check for downscaling": `none` where the metric cannot be read.
    unfoldable pub propose_fewer : ServiceLevelAgreement Q → Option Q → ℤ → ℤ → Option ℤ
    propose_fewer sla answer cur n =
        if ltb_ℤ cur n
        then some n
        else (if ltb_ℤ n cur then some n else elim answer [
          | none ↦ none
          | some response_time ↦
              let desired = of_int m (q.milli_value sla.spec.metric.response_time) in
              let actual = of_int m (q.milli_value response_time) in
              let fewer =
                proposed m sla.spec.min_replicas sla.spec.max_replicas actual desired cur in
              some (if ltb_ℤ fewer n then fewer else n)
        ])

    unfoldable pub compute_replica :
        ServiceLevelAgreement Q
        → List (PodScale Q)
        → Option Q
        → Clock
        → ℤ
        → CustomLogic
        → ℤ × CustomLogic
    compute_replica sla scales answer clock cur l =
        if is_stabilizing clock l.timers
        then (cur, record l { timers = record (l.timers) { state = steady } })
        else elim (propose_fewer sla answer cur (count_saturated l.early_stop cur scales)) [
          | none ↦ (cur, l)
          | some n ↦
              let limited =
                to_int m half_int32
                  (between m sla.spec.min_replicas sla.spec.max_replicas (of_int m n)) in
              let (result, timers) = advance clock l.timers cur limited in
              (result, record l { timers = timers })
        ]
