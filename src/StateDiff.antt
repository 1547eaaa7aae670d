-- ===== src/StateDiff.antt =====
-- pkg/podscale-controller/pkg/utils/utils.go: which pods lack a pod scale, and which pod scales
-- lack a pod. The Go map of marked names is the list of the names marked.
pub mod Convergence
use kosmos_v.Prelude.{String, Bool, not, List, [], ◌∷◌, map, str_eq}
use kosmos_v.Prelude.Lists.{any, keep}
use kosmos_v.Api.{Pod, PodScale, Container, KubeService}

pub record StateDiff (Q : Type 0) : Type 0 where
  pub add_list : List (Pod Q)
  pub delete_list : List (PodScale Q)

-- `blueprint[name]`, where the names of the list were set to true.
abbrev pub marked : List String → String → Bool
marked blueprint name = any (str_eq name) blueprint

module _ {Q : Type 0} where
  -- The names that the first and the third loop mark.
  abbrev pub tracked_names : List (PodScale Q) → List String
  tracked_names scales = map (λ s. s.spec.pod) scales

  abbrev pub pod_names : List (Pod Q) → List String
  pod_names pods = map (λ p. p.name) pods

  unfoldable pub diff_pods : List (Pod Q) → List (PodScale Q) → StateDiff Q
  diff_pods pods scales = record {
    add_list = keep (λ p. not (marked (tracked_names scales) p.name)) pods;
    delete_list = keep (λ s. not (marked (pod_names pods) s.spec.pod)) scales;
  }

  unfoldable pub has_container : List (Container Q) → String → Bool
  has_container list element = any (λ e. str_eq e.name element) list

-- `e == element` compares pointers; what tells two of them apart is a parameter.
unfoldable pub contains_service :
    (KubeService → KubeService → Bool) → List KubeService → KubeService → Bool
contains_service same list element = any (λ e. same e element) list
