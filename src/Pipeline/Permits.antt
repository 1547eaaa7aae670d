-- ===== src/Pipeline/Permits.antt =====
-- Which pod scales the pipeline may write, and what a server keeps that it is only written such.
use kosmos_v.Prelude.{
  ℕ, ◌≤◌, String, ◌≡◌, ap, ◌⊎◌, inl, inr, Bool, true, false, Option, none, some, List, [], ◌∷◌,
  ◌++◌, str_eq,
}
use kosmos_v.Prelude.Branches.{if_branch, option_branch, result_branch}
use kosmos_v.Prelude.Lists.{All, length}
use kosmos_v.Prelude.Results.{Result, ok, err, Action, pure, and_then, ◌>>=◌}
use kosmos_v.Quantity.{Quantities, IsDecimal}
use kosmos_v.Api.{cpu_of, memory_of, Pod, PodScale, ServiceLevelAgreement}
use kosmos_v.NodeScales.{NodeScales}
use kosmos_v.Recommender.Within.{limits_of, IsLimited, KeepsLimits}
use kosmos_v.Contention.Fits.{count}
use kosmos_v.ResourceUpdater.{
  ApiServer, sync_pod, update_resources, atomic_resource_update, label, Worker, update_one,
}
use kosmos_v.Pipeline.{Proposal, Pending, Pipeline, Views}

module _ {Q : Type 0} ⦃q : Quantities Q⦄ (laws : IsDecimal Q) (Seen : Views Q → Type 0) where
  -- Within the limits of an agreement of its name that was seen.
  abbrev pub IsProposed : PodScale Q → Type 0
  IsProposed p =
      (v : Views Q) × (sla : ServiceLevelAgreement Q) × Seen v
      × (v.find_sla p.spec.namespace p.spec.sla ≡ some sla)
      × KeepsLimits laws sla p

  abbrev pub IsProposedIfAny : Option (PodScale Q) → Type 0
  IsProposedIfAny none = Unit
  IsProposedIfAny (some p) = IsProposed p

  -- Its actual resources are no more than the upper limits of such an agreement.
  abbrev pub IsPermitted : PodScale Q → Type 0
  IsPermitted p =
      (v : Views Q) × (sla : ServiceLevelAgreement Q) × Seen v
      × (v.find_sla p.spec.namespace p.spec.sla ≡ some sla)
      × (count (cpu_of p.status.actual_resources) ≤ count (cpu_of (limits_of sla)))
      × (count (memory_of p.status.actual_resources) ≤ count (memory_of (limits_of sla)))

  -- What the caches may hold: agreements with limits of at most a number of thousandths, and at most
  -- a number of pod scales on a node.
  pub record IsSound (most few : ℕ) : Type 0 where
    pub limited :
        (v : Views Q) (namespace name : String) (sla : ServiceLevelAgreement Q)
        → Seen v
        → v.find_sla namespace name ≡ some sla
        → IsLimited laws most sla
    pub few_scales :
        (v : Views Q) (node : String) (scales : List (PodScale Q))
        → Seen v
        → v.scales_on node ≡ some scales
        → length scales ≤ few

module _ {S Q : Type 0} ⦃q : Quantities Q⦄ (laws : IsDecimal Q) (Seen : Views Q → Type 0) (few : ℕ)
    (Fine : S → Type 0) where
  abbrev pub IsGoodProposal : Proposal Q → Type 0
  IsGoodProposal (node, scales) = All (IsProposedIfAny laws Seen) scales × (length scales ≤ few)

  abbrev pub IsGoodGrant : NodeScales Q → Type 0
  IsGoodGrant ns = All (IsPermitted laws Seen) ns.pod_scales

  abbrev pub IsGoodPending : Pending Q → Type 0
  IsGoodPending (ns, scales) = IsGoodGrant ns × All (IsPermitted laws Seen) scales

  abbrev pub IsSafe : Pipeline S Q → Type 0
  IsSafe p =
      All IsGoodProposal p.recommending
      × All IsGoodProposal p.proposals
      × All IsGoodGrant p.solving
      × All IsGoodGrant p.grants
      × All IsGoodPending p.updating
      × All IsGoodGrant p.requeuing
      × Fine p.server

module _ {S E Q : Type 0} ⦃q : Quantities Q⦄ (laws : IsDecimal Q) (api : ApiServer S E Q)
    (Seen : Views Q → Type 0) (Others : S → S → Type 0) where
  -- What the server keeps through every write of a permitted pod scale, a dry run or not: that of a pod
  -- that `syncPod` resized by it, and that of the pod scale itself.
  pub record KeepsPermitted (Fine : S → Type 0) : Type 0 where
    pub pod_kept :
        (dry_run : Bool) (namespace : String) (pod new : Pod Q) (scale : PodScale Q) (s : S)
        → IsPermitted laws Seen scale
        → sync_pod pod scale ≡ ok new
        → Fine s
        → Fine (api.update_pod dry_run namespace new s).1
    pub scale_kept :
        (dry_run : Bool) (namespace : String) (scale : PodScale Q) (s : S)
        → IsPermitted laws Seen scale
        → Fine s
        → Fine (api.update_pod_scale dry_run namespace scale s).1
    pub others_kept : (s s' : S) → Others s s' → Fine s → Fine s'

  module _ (Fine : S → Type 0) (keeps : KeepsPermitted Fine) where
    -- One pod scale of a message that is put back or gone on with.
    abbrev pub FineAfter : NodeScales Q → Worker S Q × Bool → Type 0
    FineAfter ns (w, goes_on) = Fine w.server × ((w.input ≡ []) ⊎ (w.input ≡ ns ∷ []))

    and_then-fine :
        {A B : Type 0} (r : Result E A) (f : A → Action S E B) (s : S)
        → Fine s
        → ((a : A) (s' : S) → Fine s' → Fine (f a s').1)
        → Fine (and_then r f s).1
    and_then-fine (ok a) f s h keep = keep a s h
    and_then-fine (err e) f s h keep = h

    module _ (pod new : Pod Q) (scale : PodScale Q) (permitted : IsPermitted laws Seen scale)
        (e : sync_pod pod scale ≡ ok new) where
      update_resources-fine :
          (dry_run : Bool) (s : S) → Fine s → Fine (update_resources api new scale dry_run s).1
      unfolding update_resources
      update_resources-fine dry_run s h =
          let write_pod : Action S E (Pod Q) = api.update_pod dry_run scale.spec.namespace new in
          let write_scale : Action S E (PodScale Q) =
            api.update_pod_scale dry_run scale.meta.namespace scale in
          and_then-fine (write_pod s).0
            (λ new_pod. write_scale >>= (λ new_scale. pure (new_pod, new_scale))) (write_pod s).1
            (keeps.pod_kept dry_run scale.spec.namespace pod new scale s permitted e h)
            (λ new_pod s' h'.
              and_then-fine (write_scale s').0 (λ new_scale. pure (new_pod, new_scale))
                (write_scale s').1
                (keeps.scale_kept dry_run scale.meta.namespace scale s' permitted h')
                (λ new_scale s'' h''. h''))

      atomic_resource_update-fine :
          (s : S) → Fine s → Fine (atomic_resource_update api new scale s).1
      unfolding atomic_resource_update
      atomic_resource_update-fine s h =
          let dry = update_resources api new scale true s in
          and_then-fine dry.0 (λ _. update_resources api new scale false) dry.1
            (update_resources-fine true s h) (λ answer. update_resources-fine false)

    pub update_one-FineAfter :
        (v : Views Q) (ns : NodeScales Q) (scale : PodScale Q) (w : Worker S Q)
        → w.input ≡ []
        → IsPermitted laws Seen scale
        → Fine w.server
        → FineAfter ns (update_one api v.find_pod ns scale w)
    unfolding update_one
    update_one-FineAfter v ns scale w none_waits permitted h =
        let P = FineAfter ns in
        let same : P (w, false) = (h, inl none_waits) in
        option_branch P (v.find_pod scale.spec.namespace scale.spec.pod) (λ _. same)
          (λ pod _.
            result_branch P (sync_pod pod scale)
              (λ new e.
                let fine = atomic_resource_update-fine pod new scale permitted e w.server h in
                if_branch P (str_eq (label new.meta.labels "autoscaling") "Kosmos")
                  (λ _.
                    result_branch P (atomic_resource_update api new scale w.server).0
                      (λ answer _. (fine, inl none_waits))
                      (λ failure _. (fine, inr (ap (λ xs. xs ++ (ns ∷ [])) none_waits))))
                  (λ _. (h, inl none_waits)))
              (λ failure _. same))
