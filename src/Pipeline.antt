-- ===== src/Pipeline.antt =====
-- pkg/pod-autoscaler/main.go: the two channels that join the recommender, the contention manager and
-- the resource updater, and the workers that `Run` of the three controllers starts. A state holds what
-- waits in the channels and what the workers hold; a move is what one worker does next, and the moves
-- of all workers are interleaved in any order. What a worker reads of the caches is an argument of its
-- move. A worker handles one pod scale, with its requests, in one move. After a panic nothing moves.
pub mod Moves
pub mod Steps
pub mod Bounds
pub mod Permits
pub mod Proposals
pub mod Writes
pub mod Stuck
pub mod Panic
pub mod Progress
use kosmos_v.Prelude.{
  ℕ, zero, suc, ◌+◌, String, Bool, true, false, Option, none, some, List, [], ◌∷◌, ◌++◌,
}
use kosmos_v.Prelude.Tests.{if◌then◌else◌, ltb}
use kosmos_v.Prelude.Lists.{length}
use kosmos_v.Quantity.{Quantities}
use kosmos_v.Float.{Machine}
use kosmos_v.Api.{Pod, PodScale, Node, ServiceLevelAgreement}
use kosmos_v.NodeScales.{NodeScales}
use kosmos_v.Recommender.Loop.{LogicMap, recommend_node}
use kosmos_v.Contention.{NodeOutcome, returned, panicked, sent, process_node}
use kosmos_v.ResourceUpdater.{ApiServer, Worker, update_one}

-- The answers of the listers and of the metrics API at one time.
pub record Views (Q : Type 0) : Type 0 where
  pub find_pod : String → String → Option (Pod Q)
  pub find_sla : String → String → Option (ServiceLevelAgreement Q)
  pub pod_metrics : Pod Q → Option Q
  pub scales_on : String → Option (List (PodScale Q))
  pub find_node : String → Option (Node Q)
  pub pods_on : String → Option (List (Pod Q))

-- A message of the recommender; a nil pod scale is `none`.
abbrev pub Proposal : Type 0 → Type 0
Proposal Q = String × List (Option (PodScale Q))

-- A message that a worker of the updater goes through, with the pod scales still to come.
abbrev pub Pending : Type 0 → Type 0
Pending Q = NodeScales Q × List (PodScale Q)

pub record Pipeline (S Q : Type 0) : Type 0 where
  pub alive : Bool
  pub logics : LogicMap
  -- Messages that a worker of the recommender is about to send, and `recommenderOut`.
  pub recommending : List (Proposal Q)
  pub proposals : List (Proposal Q)
  -- Messages that a worker of the contention manager is about to send, and `contentionManagerOut`.
  pub solving : List (NodeScales Q)
  pub grants : List (NodeScales Q)
  -- Messages that the workers of the updater go through, or are about to put back.
  pub updating : List (Pending Q)
  pub requeuing : List (NodeScales Q)
  pub server : S
  pub logged : List (PodScale Q)

abbrev pub channel_capacity : ℕ
channel_capacity = 10_000

abbrev pub workers : ℕ
workers = 4

abbrev pub initial : {S Q : Type 0} → S → Pipeline S Q
initial s = record {
  alive = true;
  logics = λ key. none;
  recommending = [];
  proposals = [];
  solving = [];
  grants = [];
  updating = [];
  requeuing = [];
  server = s;
  logged = [];
}

pub data Move (S Q : Type 0) : Type 0 where
  recommend : Views Q → String → Move S Q
  propose : ℕ → Move S Q
  solve_node : Views Q → Move S Q
  grant : ℕ → Move S Q
  take : Move S Q
  update : Views Q → ℕ → Move S Q
  requeue : ℕ → Move S Q
  -- Somebody else changes the server.
  elsewhere : S → Move S Q

-- The element at an index, and the others.
unfoldable pub pick {ℓ} : {A : Type ℓ} → ℕ → List A → Option (A × List A)
pick i [] = none
pick zero (x ∷ xs) = some (x, xs)
pick (suc i) (x ∷ xs) = elim (pick i xs) [ none ↦ none | some (y, ys) ↦ some (y, x ∷ ys) ]

-- A send blocks while the channel is full.
unfoldable pub send {ℓ} : {A : Type ℓ} → A → List A → Option (List A)
send x channel = if ltb (length channel) channel_capacity then some (channel ++ x ∷ []) else none

module _ {S E Q : Type 0} ⦃q : Quantities Q⦄ (m : Machine) (api : ApiServer S E Q) where
  unfoldable pub move_recommend : Views Q → String → Pipeline S Q → Option (Pipeline S Q)
  move_recommend v node p =
      if ltb (length p.recommending) workers
      then (let (message, logics) =
            recommend_node m v.find_pod v.find_sla v.pod_metrics v.scales_on node p.logics in
          elim message [
            | none ↦ some (record p { logics = logics })
            | some x ↦ some (record p { logics = logics; recommending = x ∷ p.recommending })
          ])
      else none

  unfoldable pub move_propose : ℕ → Pipeline S Q → Option (Pipeline S Q)
  move_propose i p = elim (pick i p.recommending) [
    | none ↦ none
    | some (x, rest) ↦ elim (send x p.proposals) [
      | none ↦ none
      | some channel ↦ some (record p { recommending = rest; proposals = channel })
    ]
  ]

  -- `processNextNode` with the message that it takes.
  abbrev pub after_node : NodeOutcome Q → List (Proposal Q) → Pipeline S Q → Pipeline S Q
  after_node returned rest p = record p { proposals = rest }
  after_node panicked rest p = record p { proposals = rest; alive = false }
  after_node (sent ns) rest p = record p { proposals = rest; solving = ns ∷ p.solving }

  unfoldable pub move_solve : Views Q → Pipeline S Q → Option (Pipeline S Q)
  move_solve v p =
      if ltb (length p.solving) workers
      then elim p.proposals [
        | [] ↦ none
        | (node, scales) ∷ rest ↦
            some (after_node (process_node m v.find_node v.pods_on node scales) rest p)
      ]
      else none

  unfoldable pub move_grant : ℕ → Pipeline S Q → Option (Pipeline S Q)
  move_grant i p = elim (pick i p.solving) [
    | none ↦ none
    | some (x, rest) ↦ elim (send x p.grants) [
      | none ↦ none
      | some channel ↦ some (record p { solving = rest; grants = channel })
    ]
  ]

  unfoldable pub move_take : Pipeline S Q → Option (Pipeline S Q)
  move_take p =
      if ltb (length p.updating + length p.requeuing) workers
      then elim p.grants [
        | [] ↦ none
        | ns ∷ rest ↦ some (record p { grants = rest; updating = (ns, ns.pod_scales) ∷ p.updating })
      ]
      else none

  -- The worker's next pod scale, or the end of its message.
  abbrev pub after_scale :
      NodeScales Q
      → List (PodScale Q)
      → List (Pending Q)
      → Pipeline S Q
      → Worker S Q × Bool
      → Pipeline S Q
  after_scale ns scales rest p (w, goes_on) = record p {
    server = w.server;
    logged = w.logged;
    requeuing = w.input ++ p.requeuing;
    updating = if goes_on then (ns, scales) ∷ rest else rest;
  }

  abbrev pub next_scale : Views Q → Pending Q → List (Pending Q) → Pipeline S Q → Pipeline S Q
  next_scale v (ns, []) rest p = record p { updating = rest }
  next_scale v (ns, scale ∷ scales) rest p = after_scale ns scales rest p (
      update_one api v.find_pod ns scale
        (record { server = p.server; input = []; logged = p.logged }))

  unfoldable pub move_update : Views Q → ℕ → Pipeline S Q → Option (Pipeline S Q)
  move_update v i p = elim (pick i p.updating) [
    | none ↦ none
    | some (pending, rest) ↦ some (next_scale v pending rest p)
  ]

  unfoldable pub move_requeue : ℕ → Pipeline S Q → Option (Pipeline S Q)
  move_requeue i p = elim (pick i p.requeuing) [
    | none ↦ none
    | some (x, rest) ↦ elim (send x p.grants) [
      | none ↦ none
      | some channel ↦ some (record p { requeuing = rest; grants = channel })
    ]
  ]

  -- What a move leads to; `none` where the worker has to wait.
  unfoldable pub move : Move S Q → Pipeline S Q → Option (Pipeline S Q)
  move (recommend v node) p = move_recommend v node p
  move (propose i) p = move_propose i p
  move (solve_node v) p = move_solve v p
  move (grant i) p = move_grant i p
  move take p = move_take p
  move (update v i) p = move_update v i p
  move (requeue i) p = move_requeue i p
  move (elsewhere s) p = some (record p { server = s })

  unfoldable pub step : Move S Q → Pipeline S Q → Option (Pipeline S Q)
  step x p = if p.alive then move x p else none
