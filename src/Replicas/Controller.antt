-- ===== src/Replicas/Controller.antt =====
-- pkg/pod-replicas-updater/pkg/controller.go and utils.go: the controller that sets the replicas of
-- the deployment behind an agreement. The listers, the metrics API and the reads of replica sets are
-- arguments, `none` for an error; deployments are read from and written to a state of the API server.
-- The API server sets the number of replicas of a deployment that leaves it out, so it is no pointer.
pub mod Updates
pub mod Matching
pub mod Retry
use kosmos_v.Prelude.{
  String, Bool, true, false, not, ◌&&◌, Option, none, some, List, [], ◌∷◌, ◌++◌, str_eq,
}
use kosmos_v.Prelude.Tests.{if◌then◌else◌}
use kosmos_v.Prelude.Int.{ℤ}
use kosmos_v.Prelude.Results.{Result, ok, err, Action}
use kosmos_v.Quantity.{Quantities}
use kosmos_v.Float.{Machine}
use kosmos_v.Api.{
  ObjectMeta, OwnerReference, Pod, Node, KubeService, PodScale, ServiceLevelAgreement,
}
use kosmos_v.Queue.{Workqueue, enqueue_all}
use kosmos_v.Replicas.{Clock}
use kosmos_v.Replicas.Custom.{CustomLogic, compute_replica}

-- `appsv1.ReplicaSet` and `appsv1.Deployment`
pub record ReplicaSet : Type 0 where
  pub meta : ObjectMeta

pub record Deployment : Type 0 where
  pub meta : ObjectMeta
  pub replicas : ℤ

-- The loop of both functions of utils.go.
abbrev pub first_owner : String → List OwnerReference → Option String
first_owner kind [] = none
first_owner kind (owner ∷ owners) =
    if str_eq owner.kind kind then some owner.name else first_owner kind owners

abbrev pub get_replica_set_name_from_pod : {Q : Type 0} → Pod Q → Option String
get_replica_set_name_from_pod pod = first_owner "ReplicaSet" pod.owner_references

abbrev pub get_deployment_name_from_replica_set : ReplicaSet → Option String
get_deployment_name_from_replica_set replica_set =
    first_owner "Deployment" replica_set.meta.owner_references

-- The returns of `handleSLA` with an error, in their order.
pub data SlaError : Type 0 where
  bad_key no_sla no_list no_scales no_service no_pods : SlaError
  no_replica_set_name no_replica_set no_deployment_name mixed_namespaces : SlaError
  no_deployment no_logic update_failed : SlaError

-- What the first loop of `handleSLA` collects.
pub record Matched (Q : Type 0) : Type 0 where
  pub scales : List (PodScale Q)
  pub pods : List (Pod Q)
  pub service : Option KubeService

-- What the controller reads.
pub record Sources (Q : Type 0) : Type 0 where
  pub split_key : String → Option (String × String)
  pub find_sla : String → String → Option (ServiceLevelAgreement Q)
  pub list_slas : Option (List (ServiceLevelAgreement Q))
  pub key_of : ServiceLevelAgreement Q → Option String
  pub list_scales : Option (List (PodScale Q))
  pub find_pod : String → String → Option (Pod Q)
  pub find_service : String → String → Option KubeService
  pub find_replica_set : String → String → Option ReplicaSet
  pub find_node : String → Option (Node Q)
  pub pods_of : String → Option (List (Pod Q))
  pub response_time : Option KubeService → Option Q

-- The deployments of the API server, by namespace and name.
pub record DeploymentServer (S : Type 0) : Type 0 where
  pub find_deployment : String → String → S → Option Deployment
  pub update_deployment : String → Deployment → S → Bool × S

-- The state of the API server and the map of logics.
pub record Updater (S : Type 0) : Type 0 where
  pub server : S
  pub logics : String → Option CustomLogic

abbrev pub store_logic :
    (String → Option CustomLogic) → String → CustomLogic → String → Option CustomLogic
store_logic logics key l key' = if str_eq key' key then some l else logics key'

module _ {Q : Type 0} (sources : Sources Q) where
  open sources use {find_pod, find_service, find_replica_set}

  abbrev pub is_under : ServiceLevelAgreement Q → PodScale Q → Bool
  is_under sla scale =
      str_eq scale.spec.namespace sla.meta.namespace && str_eq scale.spec.sla sla.meta.name

  -- `none` where a service is not found.
  unfoldable pub match_scales :
      ServiceLevelAgreement Q → Matched Q → List (PodScale Q) → Option (Matched Q)
  match_scales sla found [] = some found
  match_scales sla found (scale ∷ scales) =
      let here = record found { scales = found.scales ++ (scale ∷ []) } in
      elim (is_under sla scale) [
        | false ↦ match_scales sla found scales
        | true ↦ elim (find_pod scale.spec.namespace scale.spec.pod) [
          | none ↦ match_scales sla here scales
          | some pod ↦ elim (find_service scale.spec.namespace scale.spec.service) [
            | none ↦ none
            | some service ↦
                match_scales sla
                  (record here { pods = here.pods ++ (pod ∷ []); service = some service }) scales
          ]
        ]
      ]

  -- The name of a pod's deployment, for the first pod.
  unfoldable pub deployment_of : Pod Q → Result SlaError String
  deployment_of pod = elim (get_replica_set_name_from_pod pod) [
    | none ↦ err no_replica_set_name
    | some replica_set_name ↦ elim (find_replica_set pod.namespace replica_set_name) [
      | none ↦ err no_replica_set
      | some replica_set ↦ elim (get_deployment_name_from_replica_set replica_set) [
        | none ↦ err no_deployment_name
        | some name ↦ ok name
      ]
    ]
  ]

  -- The loop over the matched pods: the common namespace, and the name of the deployment.
  unfoldable pub find_target : String → String → List (Pod Q) → Result SlaError (String × String)
  find_target namespace name [] = ok (namespace, name)
  find_target namespace name (pod ∷ pods) = elim (str_eq namespace "") [
    | true ↦ elim (deployment_of pod) [
      | err e ↦ err e
      | ok name' ↦ find_target pod.namespace name' pods
    ]
    | false ↦ elim (str_eq namespace pod.namespace) [
      | false ↦ err mixed_namespaces
      | true ↦ find_target namespace name pods
    ]
  ]

  unfoldable pub run_worker : {W : Type 0} → ⦃queue : Workqueue W⦄ → W → W
  run_worker w = elim (sources.list_slas) [
    | none ↦ w
    | some slas ↦ enqueue_all sources.key_of slas w
  ]

module _ {S Q : Type 0} ⦃q : Quantities Q⦄ (m : Machine) (sources : Sources Q)
    (api : DeploymentServer S) (fresh : CustomLogic) (clock : Clock) where
  open sources use {split_key, find_sla, list_scales, find_node, pods_of, response_time}
  open api use {find_deployment, update_deployment}

  -- From the deployment on: `fresh` is the logic that the call makes for a key without one.
  unfoldable pub scale_deployment :
      String
      → ServiceLevelAgreement Q
      → Matched Q
      → String
      → Deployment
      → Updater S
      → Option SlaError × Updater S
  scale_deployment key sla found namespace deployment u = elim (u.logics key) [
    | none ↦ (some no_logic, record u { logics = store_logic u.logics key fresh })
    | some l ↦
        let (replicas, l') =
          compute_replica m find_node pods_of sla found.scales (response_time found.service) clock
            deployment.replicas l in
        let (updated, server) =
          update_deployment namespace (record deployment { replicas = replicas }) u.server in
        let u' : Updater S = record { server = server; logics = store_logic u.logics key l' } in
        elim updated [ false ↦ (some update_failed, u') | true ↦ (none, u') ]
  ]

  -- From the matched pod scales on.
  unfoldable pub scale_matched :
      String → ServiceLevelAgreement Q → Matched Q → Updater S → Option SlaError × Updater S
  scale_matched key sla found u = elim found.pods [
    | [] ↦ (some no_pods, u)
    | pod ∷ pods ↦ elim (find_target sources "" "" (pod ∷ pods)) [
      | err e ↦ (some e, u)
      | ok (namespace, name) ↦ elim (find_deployment namespace name u.server) [
        | none ↦ (some no_deployment, u)
        | some deployment ↦ scale_deployment key sla found namespace deployment u
      ]
    ]
  ]

  unfoldable pub handle_sla : String → Updater S → Option SlaError × Updater S
  handle_sla key u = elim (split_key key) [
    | none ↦ (some bad_key, u)
    | some (sla_namespace, sla_name) ↦ elim (find_sla sla_namespace sla_name) [
      | none ↦ (some no_sla, u)
      | some sla ↦ elim list_scales [
        | none ↦ (some no_list, u)
        | some [] ↦ (some no_scales, u)
        | some (scale ∷ scales) ↦
            elim (match_scales sources sla (record { scales = []; pods = []; service = none })
              (scale ∷ scales)) [
                | none ↦ (some no_service, u)
                | some found ↦ scale_matched key sla found u
              ]
      ]
    ]
  ]
