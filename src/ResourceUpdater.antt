-- ===== src/ResourceUpdater.antt =====
-- pkg/pod-autoscaler/pkg/pod-resource-updater: `syncPod` of utils.go, and of controller.go the two
-- updates of a pod and its pod scale and the worker that takes node scales off a channel.
-- The API server is a parameter: a state, and an update of each kind that may fail and that is told
-- whether it is a dry run. So is the lister's cache of pods. What goes to the log is a list.
pub mod Sync
pub mod Atomic
use kosmos_v.Prelude.{String, Bool, true, false, Option, none, some, List, [], ◌∷◌, ◌++◌, str_eq}
use kosmos_v.Prelude.Tests.{if◌then◌else◌}
use kosmos_v.Prelude.Int.{pos, leb_ℤ}
use kosmos_v.Prelude.Results.{Result, ok, err, Action, pure, fail, and_then, ◌>>=◌, ◌>>◌}
use kosmos_v.Quantity.{Quantities}
use kosmos_v.Api.{
  LabelSet, ResourceList, cpu_of, memory_of, Container, is_guaranteed, Pod, PodScale,
}
use kosmos_v.NodeScales.{NodeScales}

pub data SyncError : Type 0 where
  not_guaranteed cpu_not_positive memory_not_positive : SyncError

-- A lookup in a map with string values; a missing key reads as the empty string.
abbrev pub label : LabelSet → String → String
label [] key = ""
label ((k, v) ∷ rest) key = if str_eq k key then v else label rest key

module _ {Q : Type 0} where
  -- The body of the `if` in the loop of `syncPod`.
  abbrev pub resized : ResourceList Q → Container Q → Container Q
  resized actual c = record c { resources = record { requests = actual; limits = actual } }

  -- The loop, which stops at the first container of the name.
  unfoldable pub resize_first : String → ResourceList Q → List (Container Q) → List (Container Q)
  resize_first name actual [] = []
  resize_first name actual (c ∷ cs) =
      if str_eq c.name name then resized actual c ∷ cs else c ∷ resize_first name actual cs

module _ {Q : Type 0} ⦃q : Quantities Q⦄ where
  unfoldable pub sync_pod : Pod Q → PodScale Q → Result SyncError (Pod Q)
  sync_pod pod scale =
      let actual = scale.status.actual_resources in
      if is_guaranteed pod.qos_class
      then (if leb_ℤ (q.milli_value (cpu_of actual)) (pos 0)
          then err cpu_not_positive
          else (if leb_ℤ (q.milli_value (memory_of actual)) (pos 0)
              then err memory_not_positive
              else ok (record pod {
                containers = resize_first scale.spec.container actual pod.containers;
              })))
      else err not_guaranteed

-- The clients of the API server: `true` asks for a dry run, and the string is the namespace.
pub record ApiServer (S E Q : Type 0) : Type 0 where
  pub update_pod : Bool → String → Pod Q → Action S E (Pod Q)
  pub update_pod_scale : Bool → String → PodScale Q → Action S E (PodScale Q)

module _ {S E Q : Type 0} (api : ApiServer S E Q) where
  open api use {update_pod, update_pod_scale}

  unfoldable pub update_resources : Pod Q → PodScale Q → Bool → Action S E (Pod Q × PodScale Q)
  update_resources pod scale dry_run = do
    new_pod ← update_pod dry_run scale.spec.namespace pod
    new_scale ← update_pod_scale dry_run scale.meta.namespace scale
    pure (new_pod, new_scale)

  unfoldable pub atomic_resource_update : Pod Q → PodScale Q → Action S E (Pod Q × PodScale Q)
  atomic_resource_update pod scale = do
    update_resources pod scale true
    update_resources pod scale false

-- The worker's surroundings: the server, the input channel, oldest message first, and the log.
pub record Worker (S Q : Type 0) : Type 0 where
  pub server : S
  pub input : List (NodeScales Q)
  pub logged : List (PodScale Q)

module _ {S E Q : Type 0} ⦃q : Quantities Q⦄ (api : ApiServer S E Q)
    (find_pod : String → String → Option (Pod Q)) where
  -- One pod scale of a message: the new surroundings, and whether the worker goes on.
  unfoldable pub update_one : NodeScales Q → PodScale Q → Worker S Q → Worker S Q × Bool
  update_one message scale w = elim (find_pod scale.spec.namespace scale.spec.pod) [
    | none ↦ (w, false)
    | some pod ↦ elim (sync_pod pod scale) [
      | err e ↦ (w, false)
      | ok new_pod ↦
          if str_eq (label new_pod.meta.labels "autoscaling") "Kosmos"
          then (let (result, server) = atomic_resource_update api new_pod scale w.server in
              elim result [
                | err e ↦ (record w { server = server; input = w.input ++ message ∷ [] }, false)
                | ok (updated_pod, updated_scale) ↦
                    (record w { server = server; logged = w.logged ++ updated_scale ∷ [] }, true)
              ])
          else (w, true)
    ]
  ]

  -- The inner loop.
  unfoldable pub update_all : NodeScales Q → List (PodScale Q) → Worker S Q → Worker S Q × Bool
  update_all message [] w = (w, true)
  update_all message (scale ∷ scales) w =
      let (w', goes_on) = update_one message scale w in
      let rest = update_all message scales w' in if goes_on then rest else (w', false)

  -- One round of the outer loop: the oldest message of the channel; with none the worker waits.
  unfoldable pub take_message : Worker S Q → Worker S Q × Bool
  take_message w = elim w.input [
    | [] ↦ (w, true)
    | message ∷ input ↦ update_all message message.pod_scales (record w { input = input })
  ]
