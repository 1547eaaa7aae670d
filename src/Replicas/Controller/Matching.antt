-- ===== src/Replicas/Controller/Matching.antt =====
-- Which pod scales, pods and deployment `handleSLA` takes.
use kosmos_v.Prelude.{
  true, ◌⊎◌, ap, String, ◌≡◌, refl, ◌≢◌, inl, inr, Option, none, some, List, [], ◌∷◌, ◌++◌, sym,
  subst, ◌∙◌, arith, str_eq, str_eq_iff,
}
use mathlib.Core.List.{append_assoc, append-nil}
use kosmos_v.Prelude.Tests.{Bool-cases}
use kosmos_v.Prelude.Branches.{test_branch, option_branch}
use kosmos_v.Prelude.Lists.{keep, All}
use kosmos_v.Prelude.Results.{Result, ok, err, Result-cases}
use kosmos_v.Api.{KubeService, Pod, PodScale, ServiceLevelAgreement}
use kosmos_v.Replicas.Controller.{
  Sources, Matched, ReplicaSet, SlaError, first_owner, is_under, match_scales, deployment_of,
  find_target,
}

module _ {Q : Type 0} (sources : Sources Q) where
  open sources use {find_pod, find_service, find_replica_set}

  -- The pods that are found, of these pod scales.
  abbrev pub pods_found : List (PodScale Q) → List (Pod Q)
  pods_found [] = []
  pods_found (scale ∷ scales) = elim (find_pod scale.spec.namespace scale.spec.pod) [
    | none ↦ pods_found scales
    | some pod ↦ pod ∷ pods_found scales
  ]

  -- The pod of the pod scale is found, and its service is not.
  abbrev pub LacksService : PodScale Q → Type 0
  LacksService scale =
      (pod : Pod Q) × (find_pod scale.spec.namespace scale.spec.pod ≡ some pod)
      × (find_service scale.spec.namespace scale.spec.service ≡ none)

  -- The pod of the pod scale is not found, or its service is.
  abbrev pub IsServed : PodScale Q → Type 0
  IsServed scale =
      (find_pod scale.spec.namespace scale.spec.pod ≡ none)
      ⊎ ((service : KubeService) × (find_service scale.spec.namespace scale.spec.service
            ≡ some service))

  -- Nothing, where a pod scale of the agreement lacks a service; or the pod scales and pods that were
  -- collected before and those of this list, where none lacks one.
  abbrev pub IsCollected :
      ServiceLevelAgreement Q → Matched Q → List (PodScale Q) → Option (Matched Q) → Type 0
  IsCollected sla found scales none =
      (before : List (PodScale Q)) × (scale : PodScale Q) × (after : List (PodScale Q)) × (scales
        ≡ before ++ (scale ∷ after))
      × (is_under sources sla scale ≡ true)
      × LacksService scale
  IsCollected sla found scales (some found') =
      (found'.scales ≡ found.scales ++ keep (is_under sources sla) scales)
      × (found'.pods ≡ found.pods ++ pods_found (keep (is_under sources sla) scales))
      × All IsServed (keep (is_under sources sla) scales)

  abbrev kept : ServiceLevelAgreement Q → List (PodScale Q) → List (PodScale Q)
  kept sla = keep (is_under sources sla)

  IsCollected-step :
      (sla : ServiceLevelAgreement Q) (found found' : Matched Q) (scale : PodScale Q)
      (scales : List (PodScale Q)) (o : Option (Matched Q))
      → found'.scales ++ kept sla scales ≡ found.scales ++ kept sla (scale ∷ scales)
      → found'.pods ++ pods_found (kept sla scales)
        ≡ found.pods ++ pods_found (kept sla (scale ∷ scales))
      → (All IsServed (kept sla scales) → All IsServed (kept sla (scale ∷ scales)))
      → IsCollected sla found' scales o
      → IsCollected sla found (scale ∷ scales) o
  IsCollected-step sla found found' scale scales none e f g
        (before, lacking, after, split, under, lacks) =
      (scale ∷ before, lacking, after, ap (λ xs. scale ∷ xs) split, under, lacks)
  IsCollected-step sla found found' scale scales (some last) e f g (p, q, served) =
      (p ∙ e, q ∙ f, g served)

  -- `handleSLA` collects the pod scales that name the agreement, in the order of the list, and
  -- those of their pods that are found, in the same order: then a pod scale whose pod is not found
  -- has no pod in the list, and all others have a service. Or it fails, and one of the pod scales that
  -- name the agreement has a pod that is found and a service that is not.
  pub match_scales-IsCollected :
      (sla : ServiceLevelAgreement Q) (found : Matched Q) (scales : List (PodScale Q))
      → IsCollected sla found scales (match_scales sources sla found scales)
  unfolding match_scales
  match_scales-IsCollected sla found [] = (sym (append-nil _), sym (append-nil _), tt)
  match_scales-IsCollected sla found (scale ∷ scales) =
      let P = IsCollected sla found (scale ∷ scales) in
      let here : Matched Q = record found { scales = found.scales ++ (scale ∷ []) } in
      test_branch P (is_under sources sla scale)
        (λ no.
          IsCollected-step sla found found scale scales (match_scales sources sla found scales)
            (ground (arith, no)) (ground (arith, no)) (λ served. rw no served)
            (match_scales-IsCollected sla found scales))
        (λ under.
          option_branch P (find_pod scale.spec.namespace scale.spec.pod)
            (λ absent.
              IsCollected-step sla found here scale scales (match_scales sources sla here scales)
                (rw under (append_assoc found.scales (scale ∷ []) (kept sla scales)))
                (rw (under, absent) refl) (λ served. rw under (inl absent, served))
                (match_scales-IsCollected sla here scales))
            (λ pod is_pod.
              option_branch P (find_service scale.spec.namespace scale.spec.service)
                (λ lacks. ([], scale, scales, refl, under, (pod, is_pod, lacks)))
                (λ service is_service.
                  let next : Matched Q = record here {
                    pods = here.pods ++ (pod ∷ []);
                    service = some service;
                  } in
                  IsCollected-step sla found next scale scales
                    (match_scales sources sla next scales)
                    (rw under (append_assoc found.scales (scale ∷ []) (kept sla scales)))
                    (rw (under, is_pod)
                      (append_assoc found.pods (pod ∷ []) (pods_found (kept sla scales))))
                    (λ served. rw under (inr (service, is_service), served))
                    (match_scales-IsCollected sla next scales))))

  -- The name of the deployment that owns the replica set, in the namespace of the pod, that owns the
  -- pod: of each the first owner of that kind.
  abbrev pub IsOwner : Pod Q → String → Type 0
  IsOwner pod name =
      (owner : String) × (replica_set : ReplicaSet) × (first_owner "ReplicaSet" pod.owner_references
        ≡ some owner)
      × (find_replica_set pod.namespace owner ≡ some replica_set)
      × (first_owner "Deployment" replica_set.meta.owner_references ≡ some name)

  -- What a name is known by, and nothing for an error.
  abbrev IsOwnerIfAny : Pod Q → Result SlaError String → Type 0
  IsOwnerIfAny pod (ok name) = IsOwner pod name
  IsOwnerIfAny pod (err e) = Unit

  deployment_of-IsOwner : (pod : Pod Q) → IsOwnerIfAny pod (deployment_of sources pod)
  unfolding deployment_of
  deployment_of-IsOwner pod =
      let P = IsOwnerIfAny pod in
      option_branch P (first_owner "ReplicaSet" pod.owner_references) (λ _. tt)
        (λ owner is_owner.
          option_branch P (find_replica_set pod.namespace owner) (λ _. tt)
            (λ replica_set is_set.
              option_branch P (first_owner "Deployment" replica_set.meta.owner_references) (λ _. tt)
                (λ name is_name. (owner, replica_set, is_owner, is_set, is_name))))

  -- All pods are in the namespace.
  abbrev pub AllIn : String → List (Pod Q) → Type 0
  AllIn namespace = All (λ pod. namespace ≡ pod.namespace)

  find_target-AllIn :
      (namespace name : String) (pods : List (Pod Q)) {target : String × String}
      → namespace ≢ ""
      → find_target sources namespace name pods ≡ ok target
      → (target ≡ (namespace, name)) × AllIn namespace pods
  unfolding find_target
  find_target-AllIn namespace name [] other h = (ground (arith, h), tt)
  find_target-AllIn namespace name (pod ∷ pods) {target} other h =
      elim (Bool-cases (str_eq namespace "")) [
        | inl e ↦ absurd (other ((str_eq_iff namespace "").0 e))
        | inr e ↦ elim (Bool-cases (str_eq namespace pod.namespace)) [
          | inr f ↦ ground (arith, h)
          | inl f ↦
              let (same, rest) = find_target-AllIn namespace name pods other (ground (arith, h)) in
              (same, ((str_eq_iff namespace pod.namespace).0 f, rest))
        ]
      ]

  -- Where the first pod has a namespace: if `handleSLA` finds a deployment's name for the pods, they
  -- are all in the namespace of the first one, and the name is that of the deployment that is the first
  -- such owner of the replica set, in this namespace, that is the first such owner of the first pod. So
  -- a pod in another namespace makes it fail.
  pub find_target-AllIn_first :
      (pod : Pod Q) (pods : List (Pod Q)) {target : String × String}
      → pod.namespace ≢ ""
      → find_target sources "" "" (pod ∷ pods) ≡ ok target
      → IsOwner pod target.1 × (target.0 ≡ pod.namespace) × AllIn target.0 (pod ∷ pods)
  unfolding find_target
  find_target-AllIn_first pod pods {target} other h =
      elim (Result-cases (deployment_of sources pod)) [
        | inl (name, e) ↦
            let (same, rest) =
              find_target-AllIn pod.namespace name pods {target = target} other
                (ground (arith, h, e)) in
            (
              subst (IsOwner pod) (sym (ap (λ t. t.1) same))
                  (subst (IsOwnerIfAny pod) e (deployment_of-IsOwner pod)),
              ground (arith, same),
              (ground (arith, same), subst (λ t. AllIn t.0 pods) (sym same) rest),
            )
        | inr (x, e) ↦ ground (arith, h, e)
      ]
