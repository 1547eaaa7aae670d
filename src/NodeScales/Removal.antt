-- ===== src/NodeScales/Removal.antt =====
-- What `Remove` takes out, and when it fails.
use kosmos_v.Prelude.{
  String, ◌≡◌, refl, inl, inr, true, false, Option, none, some, List, [], ◌∷◌, ◌++◌,
}
use kosmos_v.Prelude.Tests.{Bool-cases}
use kosmos_v.Prelude.Lists.{any, any-append}
use kosmos_v.Api.{PodScale}
use kosmos_v.NodeScales.{NodeScales, belongs, contains, remove_first, remove}

module _ {Q : Type 0} (name namespace : String) where
  -- The list is `before`, then the removed pod scale, then `after`; nothing in `before` belongs to
  -- the pod.
  abbrev pub IsFirst : PodScale Q → List (PodScale Q) → List (PodScale Q) → Type 0
  IsFirst p all rest =
      (before : List (PodScale Q)) × (after : List (PodScale Q)) × (all ≡ before ++ (p ∷ after))
      × (rest ≡ before ++ after)
      × (belongs name namespace p ≡ true)
      × (any (belongs name namespace) before ≡ false)

  -- Without a pod scale of the pod there is an error, and else the first one is taken out.
  abbrev pub Removes : List (PodScale Q) → Option (PodScale Q × List (PodScale Q)) → Type 0
  Removes all none = any (belongs name namespace) all ≡ false
  Removes all (some (p, rest)) = IsFirst p all rest

  Removes-cons :
      (p : PodScale Q) (ps : List (PodScale Q)) (o : Option (PodScale Q × List (PodScale Q)))
      → belongs name namespace p ≡ false
      → Removes ps o
      → Removes (p ∷ ps) (elim o [ none ↦ none | some (r, rest) ↦ some (r, p ∷ rest) ])
  Removes-cons p ps none other h = rw other h
  Removes-cons p ps (some (r, rest)) other (before, after, e, f, here, absent) =
      (p ∷ before, after, rw e, rw f, here, rw other absent)

  remove_first-Removes : (ps : List (PodScale Q)) → Removes ps (remove_first name namespace ps)
  unfolding remove_first
  remove_first-Removes [] = refl
  remove_first-Removes (p ∷ ps) = elim (Bool-cases (belongs name namespace p)) [
    | inl here ↦ rw here ([], ps, refl, refl, here, refl)
    | inr other ↦ rw other (Removes-cons p ps _ other (remove_first-Removes ps))
  ]

  any-IsFirst :
      {p : PodScale Q} {all rest : List (PodScale Q)}
      → IsFirst p all rest
      → any (belongs name namespace) all ≡ true
  any-IsFirst {p} (before, after, e, f, here, absent) =
      rw (e, any-append (belongs name namespace) before (p ∷ after), absent, here)

  -- An error where `Contains` says no; else the first pod scale of the pod and the others.
  abbrev pub Removed : NodeScales Q → Option (PodScale Q × NodeScales Q) → Type 0
  Removed n none = contains n name namespace ≡ false
  Removed n (some (p, n')) =
      (contains n name namespace ≡ true) × (n'.node ≡ n.node) × IsFirst p n.pod_scales n'.pod_scales

  Removed-some :
      (n : NodeScales Q) (o : Option (PodScale Q × List (PodScale Q)))
      → Removes n.pod_scales o
      → Removed n
          (elim o [ none ↦ none | some (r, rest) ↦ some (r, record n { pod_scales = rest }) ])
  unfolding contains
  Removed-some n none h = h
  Removed-some n (some (p, rest)) first = (any-IsFirst first, refl, first)

  -- `Remove` fails only where `Contains` says no. Otherwise `Contains` says yes, and `Remove`
  -- returns the first pod scale of the pod and leaves the others in their order, with the node's
  -- name unchanged.
  pub remove-Removed : (n : NodeScales Q) → Removed n (remove n name namespace)
  unfolding remove
  remove-Removed n = Removed-some n _ (remove_first-Removes n.pod_scales)
