-- ===== src/PodScales.antt =====
-- pkg/podscale-controller/pkg/controller/sync.go: the controller that keeps one pod scale for each
-- pod of a service under an agreement. The API server is a parameter, a state and calls that may
-- fail; the listers are arguments, `none` for an error. Labels that an object does not have are a nil
-- map, which the empty list stands for: the API leaves out an empty map where it sends an object, so
-- that the decoder makes none. Events and the error log are left out.
pub mod Writes
pub mod Deletion
pub mod Settled
pub mod Errors
pub mod Cleanup
use kosmos_v.Prelude.{
  String, Bool, true, false, not, ◌&&◌, Option, none, some, List, [], ◌∷◌, map, str_eq,
}
use kosmos_v.Prelude.Tests.{if◌then◌else◌}
use kosmos_v.Prelude.Results.{Result, ok, err, Action}
use kosmos_v.Api.{LabelSet, is_guaranteed, Pod, KubeService, PodScale, ServiceLevelAgreement}
use kosmos_v.StateDiff.{diff_pods, has_container, contains_service}

-- `labels[key] = value`
abbrev pub set_label : LabelSet → String → String → LabelSet
set_label [] key value = (key, value) ∷ []
set_label ((k, v) ∷ rest) key value =
    if str_eq k key then (key, value) ∷ rest else (k, v) ∷ set_label rest key value

-- `"pod-" + name`, with the concatenation of strings as an argument.
unfoldable pub new_pod_scale :
    {Q : Type 0}
    → (String → String → String)
    → Pod Q
    → ServiceLevelAgreement Q
    → KubeService
    → LabelSet
    → PodScale Q
new_pod_scale concat pod sla service selector_labels = record {
  meta = record {
    name = concat "pod-" pod.name;
    namespace = sla.meta.namespace;
    uid = "";
    labels = set_label selector_labels "system.autoscaler/node" pod.node_name;
    owner_references =
        record {
          api_version = "systemautoscaler.polimi.it/v1beta1";
          kind = "ServiceLevelAgreement";
          name = sla.meta.name;
          uid = sla.meta.uid;
        }
        ∷ [];
  };
  spec = record {
    namespace = sla.meta.namespace;
    sla = sla.meta.name;
    pod = pod.name;
    service = service.name;
    container = sla.spec.service.container;
    desired_resources = sla.spec.default_resources;
  };
  status = record {
    capped_resources = sla.spec.default_resources;
    actual_resources = sla.spec.default_resources;
  };
}

-- The clients of the API server; a namespace comes first.
pub record PodScaleServer (S E Q : Type 0) : Type 0 where
  pub create : String → PodScale Q → Action S E (PodScale Q)
  pub delete : String → String → Action S E Unit
  pub update_service : String → KubeService → Action S E KubeService
  pub is_already_exists : E → Bool

-- How the loop over the services ends.
pub data LoopEnd : Type 0 where
  finished stopped panicked : LoopEnd

-- How `syncServiceLevelAgreement` ends: it returns an error or nil, or it panics.
pub data Outcome (E : Type 0) : Type 0 where
  returns : Option E → Outcome E
  panics : Outcome E

-- What the listers answer. The listers of pods and pod scales read all namespaces.
pub record Listers (Q : Type 0) : Type 0 where
  pub list_pods : LabelSet → Option (List (Pod Q))
  pub list_scales : LabelSet → Option (List (PodScale Q))
  pub list_services : String → LabelSet → Option (List KubeService)

module _ {S E Q : Type 0} (api : PodScaleServer S E Q) (listers : Listers Q)
    (concat : String → String → String) where
  -- Whether the loop goes on after an answer of `Create`: a pod scale that exists is no error.
  abbrev pub is_created : Result E (PodScale Q) → Bool
  is_created (ok scale) = true
  is_created (err e) = api.is_already_exists e

  abbrev pub is_ok : {A : Type 0} → Result E A → Bool
  is_ok (ok a) = true
  is_ok (err e) = false

  -- The first loop of `syncService`; the answer is whether it came to its end.
  unfoldable pub create_all :
      String → ServiceLevelAgreement Q → KubeService → List (Pod Q) → S → Bool × S
  create_all namespace sla service [] s = (true, s)
  create_all namespace sla service (pod ∷ pods) s =
      elim (is_guaranteed pod.qos_class
        && has_container pod.containers sla.spec.service.container) [
          | false ↦ create_all namespace sla service pods s
          | true ↦
              let new_scale = new_pod_scale concat pod sla service service.selector in
              let (answer, s') = api.create namespace new_scale s in
              elim (is_created answer) [
                | false ↦ (false, s')
                | true ↦ create_all namespace sla service pods s'
              ]
        ]

  -- The loops that delete pod scales.
  unfoldable pub delete_all : String → List (PodScale Q) → S → Bool × S
  delete_all namespace [] s = (true, s)
  delete_all namespace (scale ∷ scales) s =
      let (answer, s') = api.delete namespace scale.meta.name s in
      elim (is_ok answer) [ false ↦ (false, s') | true ↦ delete_all namespace scales s' ]

  -- All returns are of nil.
  unfoldable pub sync_service : String → KubeService → ServiceLevelAgreement Q → S → Option E × S
  sync_service namespace service sla s = elim (listers.list_pods service.selector) [
    | none ↦ (none, s)
    | some pods ↦ elim (listers.list_scales service.selector) [
      | none ↦ (none, s)
      | some scales ↦
          let diff = diff_pods pods scales in
          let (goes_on, s') = create_all namespace sla service diff.add_list s in
          elim goes_on [
            | false ↦ (none, s')
            | true ↦ (none, (delete_all namespace diff.delete_list s').1)
          ]
    ]
  ]

  module _ (same : KubeService → KubeService → Bool) where
    -- All returns are of nil; the state is the answer.
    unfoldable pub handle_service_selector_change :
        List KubeService → List KubeService → String → S → S
    handle_service_selector_change [] desired namespace s = s
    handle_service_selector_change (service ∷ services) desired namespace s =
        elim (contains_service same desired service) [
          | true ↦ handle_service_selector_change services desired namespace s
          | false ↦ elim (listers.list_scales service.selector) [
            | none ↦ s
            | some scales ↦
                let (goes_on, s') = delete_all namespace scales s in
                elim goes_on [
                  | false ↦ s'
                  | true ↦ handle_service_selector_change services desired namespace s'
                ]
          ]
        ]

    -- The service with the label that names its agreement; `none` is the panic of a write to a nil
    -- map.
    abbrev pub tracked : ServiceLevelAgreement Q → KubeService → Option KubeService
    tracked sla service = elim (service.labels) [
      | [] ↦ none
      | label ∷ labels ↦ some (record service {
        meta = record (service.meta) {
          labels = set_label service.labels "app.kubernetes.io/subject-to" sla.meta.name;
        };
      })
    ]

    -- The loop over the services of an agreement. The services of the answer are those of the list as
    -- the loop leaves them, since it labels the objects of the lister themselves.
    unfoldable pub sync_all :
        String → ServiceLevelAgreement Q → List KubeService → S → LoopEnd × List KubeService × S
    sync_all namespace sla [] s = (finished, [], s)
    sync_all namespace sla (service ∷ services) s =
        let (failure, s') = sync_service namespace service sla s in
        elim failure [
          | some e ↦ (stopped, service ∷ services, s')
          | none ↦ elim (tracked sla service) [
            | none ↦ (panicked, service ∷ services, s')
            | some labelled ↦
                let (answer, s'') = api.update_service namespace labelled s' in
                let (end, rest, last) = sync_all namespace sla services s'' in
                elim (is_ok answer) [
                  | false ↦ (stopped, labelled ∷ services, s'')
                  | true ↦ (end, labelled ∷ rest, last)
                ]
          ]
        ]

    -- `syncServiceLevelAgreement`, behind the split of the key. Of the lister of agreements, an
    -- error is `none` where the agreement is not found. The services that are tracked already are
    -- in part the objects that the loop labels, and have that label before it.
    unfoldable pub sync_service_level_agreement :
        (String → String → Result (Option E) (ServiceLevelAgreement Q))
        → String
        → String
        → S
        → Outcome E × S
    sync_service_level_agreement find_sla namespace name s = elim (find_sla namespace name) [
      | err none ↦ (returns none, s)
      | err (some e) ↦ (returns (some e), s)
      | ok sla ↦ elim (listers.list_services namespace sla.spec.service.match_labels) [
        | none ↦ (returns none, s)
        | some desired ↦
            elim (listers.list_services namespace (("app.kubernetes.io/subject-to", name) ∷ [])) [
              | none ↦ (returns none, s)
              | some actual ↦
                  let (end, labelled, s') = sync_all namespace sla desired s in
                  elim end [
                    | stopped ↦ (returns none, s')
                    | panicked ↦ (panics, s')
                    | finished ↦
                        (returns none, handle_service_selector_change actual labelled namespace s')
                  ]
            ]
      ]
    ]
