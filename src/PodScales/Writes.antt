-- ===== src/PodScales/Writes.antt =====
-- What `syncService` writes to the API server.
use kosmos_v.Prelude.{
  String, ◌≡◌, refl, inl, inr, Bool, true, false, not, ◌&&◌, Option, none, some, List, [], ◌∷◌,
  arith,
}
use kosmos_v.Prelude.Tests.{Bool-cases}
use kosmos_v.Prelude.Branches.{test_branch, some_branch}
use kosmos_v.Prelude.Lists.{All, keep}
use kosmos_v.Api.{is_guaranteed, Pod, KubeService, PodScale, ServiceLevelAgreement}
use kosmos_v.StateDiff.{marked, tracked_names, pod_names, diff_pods, has_container}
use kosmos_v.PodScales.{
  new_pod_scale, PodScaleServer, Listers, create_all, delete_all, sync_service,
}

All-keep : {A : Type 0} (test : A → Bool) (xs : List A) → All (λ x. test x ≡ true) (keep test xs)
All-keep test [] = tt
All-keep test (x ∷ xs) = elim (Bool-cases (test x)) [
  | inl e ↦ rw e (e, All-keep test xs)
  | inr e ↦ rw e (All-keep test xs)
]

both : (a b : Bool) → (a && b) ≡ true → (a ≡ true) × (b ≡ true)
both a b h = ground arith

not-false : (b : Bool) → not b ≡ true → b ≡ false
not-false b h = ground arith

module _ {S E Q : Type 0} (api : PodScaleServer S E Q) (listers : Listers Q)
    (concat : String → String → String) (namespace : String) (sla : ServiceLevelAgreement Q)
    (service : KubeService) (pods : List (Pod Q)) (scales : List (PodScale Q))
    (Inv : S → Type 0) where
  -- Creating the pod scale of a guaranteed pod that has the agreement's container and that no pod
  -- scale has the name of keeps the invariant, whatever the server answers.
  abbrev pub CreationKeeps : Type 0
  CreationKeeps =
      (pod : Pod Q) (s : S)
      → is_guaranteed pod.qos_class ≡ true
      → has_container pod.containers sla.spec.service.container ≡ true
      → marked (tracked_names scales) pod.name ≡ false
      → Inv s
      → Inv (api.create namespace (new_pod_scale concat pod sla service service.selector) s).1

  -- So does deleting a pod scale whose pod is not there.
  abbrev pub DeletionKeeps : Type 0
  DeletionKeeps =
      (scale : PodScale Q) (s : S)
      → marked (pod_names pods) scale.spec.pod ≡ false
      → Inv s
      → Inv (api.delete namespace scale.meta.name s).1

  create_all-keeps :
      (new_pods : List (Pod Q)) (s : S)
      → CreationKeeps
      → All (λ p. not (marked (tracked_names scales) p.name) ≡ true) new_pods
      → Inv s
      → Inv (create_all api listers concat namespace sla service new_pods s).1
  unfolding create_all
  create_all-keeps [] s keeps h inv = inv
  create_all-keeps (pod ∷ new_pods) s keeps (absent, h) inv =
      let P : Bool × S → Type 0 = λ r. Inv r.1 in
      test_branch P
        (is_guaranteed pod.qos_class && has_container pod.containers sla.spec.service.container)
        (λ no. create_all-keeps new_pods s keeps h inv)
        (λ fits.
          let (g, c) = both (is_guaranteed pod.qos_class) _ fits in
          let here = keeps pod s g c (not-false _ absent) inv in
          test_branch P _ (λ no. here) (λ on. create_all-keeps new_pods _ keeps h here))

  delete_all-keeps :
      (old : List (PodScale Q)) (s : S)
      → DeletionKeeps
      → All (λ x. not (marked (pod_names pods) x.spec.pod) ≡ true) old
      → Inv s
      → Inv (delete_all api listers concat namespace old s).1
  unfolding delete_all
  delete_all-keeps [] s keeps h inv = inv
  delete_all-keeps (scale ∷ old) s keeps (gone, h) inv =
      let P : Bool × S → Type 0 = λ r. Inv r.1 in
      let here = keeps scale s (not-false _ gone) inv in
      test_branch P _ (λ no. here) (λ on. delete_all-keeps old _ keeps h here)

  -- Where the listers answer these pods and these pod scales, whatever of the API server two kinds of
  -- calls keep, `syncService` keeps, however many calls fail: the creation of the pod scale of a
  -- guaranteed pod that has the agreement's container and whose name no pod scale has, and the
  -- deletion of a pod scale whose pod is not among the pods. And `syncService` never returns an
  -- error.
  pub sync_service-keeps :
      (s : S)
      → listers.list_pods service.selector ≡ some pods
      → listers.list_scales service.selector ≡ some scales
      → CreationKeeps
      → DeletionKeeps
      → Inv s
      → let (failure, s') = sync_service api listers concat namespace service sla s in
        (failure ≡ none) × Inv s'
  unfolding sync_service diff_pods
  sync_service-keeps s pods_are scales_are creation deletion inv =
      let diff = diff_pods pods scales in
      let all_new = All-keep (λ (p : Pod Q). not (marked (tracked_names scales) p.name)) pods in
      let all_old =
        All-keep (λ (x : PodScale Q). not (marked (pod_names pods) x.spec.pod)) scales in
      let created = create_all api listers concat namespace sla service diff.add_list s in
      let here = create_all-keeps diff.add_list s creation all_new inv in
      let P : Option E × S → Type 0 = λ r. (r.0 ≡ none) × Inv r.1 in
      some_branch P _ _ pods pods_are (
        some_branch P _ _ scales scales_are (
          test_branch P created.0 (λ off. (refl, here))
            (λ on. (refl, delete_all-keeps diff.delete_list created.1 deletion all_old here))))
