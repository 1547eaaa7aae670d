-- ===== src/NodeScales.antt =====
-- pkg/podscale-controller/pkg/types/types.go: the pod scales of one node, as they travel from the
-- recommender through the contention manager to the resource updater. `error` is `none`.
pub mod Removal
use kosmos_v.Prelude.{String, Bool, ◌&&◌, Option, none, some, List, [], ◌∷◌, str_eq}
use kosmos_v.Prelude.Tests.{if◌then◌else◌}
use kosmos_v.Prelude.Lists.{any}
use kosmos_v.Api.{PodScale}

pub record NodeScales (Q : Type 0) : Type 0 where
  pub node : String
  pub pod_scales : List (PodScale Q)

module _ {Q : Type 0} where
  -- The condition of both loops.
  abbrev pub belongs : String → String → PodScale Q → Bool
  belongs name namespace p = str_eq p.spec.namespace namespace && str_eq p.spec.pod name

  unfoldable pub contains : NodeScales Q → String → String → Bool
  contains n name namespace = any (belongs name namespace) n.pod_scales

  -- The loop of `Remove`: the first pod scale of the pod, and the list without it.
  unfoldable pub remove_first :
      String → String → List (PodScale Q) → Option (PodScale Q × List (PodScale Q))
  remove_first name namespace [] = none
  remove_first name namespace (p ∷ ps) =
      if belongs name namespace p then some (p, ps) else elim (remove_first name namespace ps) [
        | none ↦ none
        | some (r, rest) ↦ some (r, p ∷ rest)
      ]

  unfoldable pub remove : NodeScales Q → String → String → Option (PodScale Q × NodeScales Q)
  remove n name namespace = elim (remove_first name namespace n.pod_scales) [
    | none ↦ none
    | some (r, rest) ↦ some (r, record n { pod_scales = rest })
  ]
