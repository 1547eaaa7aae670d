-- ===== src/Api.antt =====
-- The objects that the controllers read and write: the custom resources of
-- pkg/apis/systemautoscaler/v1beta1/types.go, and of Kubernetes' own objects the fields that the
-- code uses. They are generic in the type of quantities. A Go pointer to an object is its value: the
-- code changes a shared object only where a module says so. The metadata that no code reads
-- (TypeMeta, timestamps, resource versions) is left out.
use kosmos_v.Prelude.{String, Bool, true, false, Option, none, some, List, []}
use kosmos_v.Prelude.Int.{ℤ}
use kosmos_v.Quantity.{Quantities}

-- A Go map from strings to strings, in the order of its entries.
abbrev pub LabelSet : Type 0
LabelSet = List (String × String)

pub record OwnerReference : Type 0 where
  pub api_version : String
  pub kind : String
  pub name : String
  pub uid : String

pub record ObjectMeta : Type 0 where
  pub name : String
  pub namespace : String
  pub uid : String
  pub labels : LabelSet
  pub owner_references : List OwnerReference

-- `corev1.ResourceList`, a map by resource name; the entries besides CPU and memory are kept whole.
pub record ResourceList (Q : Type 0) : Type 0 where
  pub cpu : Option Q
  pub memory : Option Q
  pub others : List (String × Q)

module _ {Q : Type 0} where
  -- A missing entry reads as the empty quantity.
  abbrev pub entry : ⦃q : Quantities Q⦄ → Option Q → Q
  entry ⦃q⦄ none = q.empty
  entry ⦃q⦄ (some x) = x

  -- `ResourceList.Cpu()` and `ResourceList.Memory()`
  abbrev pub cpu_of : ⦃q : Quantities Q⦄ → ResourceList Q → Q
  cpu_of r = entry r.cpu

  abbrev pub memory_of : ⦃q : Quantities Q⦄ → ResourceList Q → Q
  memory_of r = entry r.memory

  -- A list with an entry for CPU and one for memory, as the planners build it.
  abbrev pub resources : Q → Q → ResourceList Q
  resources c m = record { cpu = some c; memory = some m; others = [] }

pub record ResourceRequirements (Q : Type 0) : Type 0 where
  pub requests : ResourceList Q
  pub limits : ResourceList Q

pub record Container (Q : Type 0) : Type 0 where
  pub name : String
  pub resources : ResourceRequirements Q

-- `corev1.PodQOSClass`
pub data QosClass : Type 0 where
  guaranteed burstable best_effort : QosClass

abbrev pub is_guaranteed : QosClass → Bool
is_guaranteed guaranteed = true
is_guaranteed burstable = false
is_guaranteed best_effort = false

pub record Pod (Q : Type 0) : Type 0 where
  pub meta : ObjectMeta
  pub open meta use *
  pub node_name : String
  pub containers : List (Container Q)
  pub qos_class : QosClass

pub record Node (Q : Type 0) : Type 0 where
  pub meta : ObjectMeta
  pub open meta use *
  pub capacity : ResourceList Q
  pub allocatable : ResourceList Q

-- `corev1.Service`
pub record KubeService : Type 0 where
  pub meta : ObjectMeta
  pub open meta use *
  pub selector : LabelSet

pub record PodScaleSpec (Q : Type 0) : Type 0 where
  pub namespace : String
  pub sla : String
  pub pod : String
  pub service : String
  pub container : String
  pub desired_resources : ResourceList Q

pub record PodScaleStatus (Q : Type 0) : Type 0 where
  pub capped_resources : ResourceList Q
  pub actual_resources : ResourceList Q

pub record PodScale (Q : Type 0) : Type 0 where
  pub meta : ObjectMeta
  pub spec : PodScaleSpec Q
  pub status : PodScaleStatus Q

-- `RecommendLogic`, a string type with two named values.
pub data RecommendLogic : Type 0 where
  fixed_gain_control adaptive_gain_control : RecommendLogic
  other_logic : String → RecommendLogic

-- `Service` of the agreement, with the labels that its selector matches.
pub record ServiceTarget : Type 0 where
  pub match_labels : LabelSet
  pub container : String

-- `MetricRequirement`
pub record MetricRequirement (Q : Type 0) : Type 0 where
  pub response_time : Q

-- `none` for a resource list that is nil.
pub record ServiceLevelAgreementSpec (Q : Type 0) : Type 0 where
  pub metric : MetricRequirement Q
  pub recommender_logic : RecommendLogic
  pub default_resources : ResourceList Q
  pub min_resources : Option (ResourceList Q)
  pub max_resources : Option (ResourceList Q)
  pub min_replicas : ℤ
  pub max_replicas : ℤ
  pub service : ServiceTarget

pub record ServiceLevelAgreement (Q : Type 0) : Type 0 where
  pub meta : ObjectMeta
  pub spec : ServiceLevelAgreementSpec Q
