-- ===== src/PodScales/Settled.antt =====
-- What `syncService` reaches on an API server that answers every call.
use kosmos_v.Prelude.{
  String, ◌≡◌, refl, sym, ap, ◌∙◌, inl, inr, Bool, true, not, ◌&&◌, ◌||◌, Option, some, List, [],
  ◌∷◌, str_eq, str_eq_iff, arith,
}
use mathlib.Core.Bool.{false≢true}
use kosmos_v.StateDiff.Convergence.{marked-keep}
use kosmos_v.Prelude.Tests.{Bool-cases}
use kosmos_v.Prelude.Branches.{test_branch, some_branch}
use kosmos_v.Prelude.Lists.{any, keep}
use kosmos_v.Api.{is_guaranteed, Pod, KubeService, PodScale, ServiceLevelAgreement}
use kosmos_v.StateDiff.{marked, tracked_names, pod_names, diff_pods, has_container}
use kosmos_v.PodScales.{
  new_pod_scale, PodScaleServer, Listers, is_created, create_all, sync_service,
}
use kosmos_v.PodScales.Deletion.{
  object_name, IsHealthy, AreNamed, AreNamed-keep, delete_all-Deleted,
}

module _ {S E Q : Type 0} (api : PodScaleServer S E Q) (listers : Listers Q)
    (concat : String → String → String) (namespace : String) where
  module _ (healthy : IsHealthy api listers concat namespace) (sla : ServiceLevelAgreement Q)
      (service : KubeService) where
    open healthy use {exists}

    -- A pod that may be tracked.
    abbrev pub is_eligible : Pod Q → Bool
    is_eligible pod =
        is_guaranteed pod.qos_class && has_container pod.containers sla.spec.service.container

    abbrev pub any_eligible : List (Pod Q) → String → Bool
    any_eligible pods n = any (λ p. str_eq n p.name && is_eligible p) pods

    any_eligible-keep :
        (test : String → Bool) (pods : List (Pod Q)) (n : String)
        → any_eligible (keep (λ p. test p.name) pods) n ≡ (any_eligible pods n && test n)
    any_eligible-keep test [] n = refl
    any_eligible-keep test (pod ∷ pods) n =
        let rest = any_eligible-keep test pods n in
        elim (Bool-cases (str_eq n pod.name)) [
          | inl same ↦
              let e : n ≡ pod.name = (str_eq_iff n pod.name).0 same in
              let t : test n ≡ test pod.name = ap test e in ground arith
          | inr other ↦ ground arith
        ]

    any_eligible-marked :
        (pods : List (Pod Q)) (n : String)
        → any_eligible pods n ≡ true
        → marked (pod_names pods) n ≡ true
    any_eligible-marked [] n h = h
    any_eligible-marked (pod ∷ pods) n h = ground (arith, h, any_eligible-marked pods n)

    abbrev Created : List (Pod Q) → S → Bool × S → Type 0
    Created pods s (goes_on, s') =
        (goes_on ≡ true)
        × ((n : String)
            → exists s' (object_name api listers concat namespace n)
              ≡ (exists s (object_name api listers concat namespace n) || any_eligible pods n))

    create_all-Created :
        (pods : List (Pod Q)) (s : S)
        → Created pods s (create_all api listers concat namespace sla service pods s)
    unfolding create_all new_pod_scale
    create_all-Created [] s = (refl, λ n. ground arith)
    create_all-Created (pod ∷ pods) s =
        let P = Created (pod ∷ pods) s in
        test_branch P (is_eligible pod)
          (λ no.
            let (on, there) = create_all-Created pods s in (on, λ n. ground (arith, there n, no)))
          (λ fits.
            let scale = new_pod_scale concat pod sla service service.selector in
            let s' = (api.create namespace scale s).1 in
            let answers = healthy.create_answers scale s in
            let (on, there) = create_all-Created pods s' in
            test_branch P (is_created api listers concat (api.create namespace scale s).0)
              (λ refused. absurd (false≢true (sym refused ∙ answers)))
              (λ _. (
                on,
                λ n. ground (
                  arith,
                  there n,
                  healthy.create_adds scale s (object_name api listers concat namespace n),
                  healthy.names_differ n pod.name,
                  fits,
                ),
              )))

    -- If the API server answers every call, the listers answer these pods and these pod scales, the
    -- pod scales are named after their pods, which differ, and are the ones that exist: then after
    -- one call of `syncService` a pod's name has a pod scale exactly if it is among the listed pods and
    -- had one before, or a listed pod of this name is guaranteed and has the agreement's container.
    pub sync_service-Settled :
        (pods : List (Pod Q)) (scales : List (PodScale Q)) (s : S)
        → listers.list_pods service.selector ≡ some pods
        → listers.list_scales service.selector ≡ some scales
        → AreNamed api listers concat namespace healthy scales
        → ((n : String)
            → exists s (object_name api listers concat namespace n)
              ≡ marked (tracked_names scales) n)
        → (n : String)
        → exists
            (sync_service api listers concat namespace service sla s).1
            (object_name api listers concat namespace n)
          ≡ (marked (pod_names pods) n && (marked (tracked_names scales) n || any_eligible pods n))
    unfolding sync_service diff_pods
    sync_service-Settled pods scales s pods_are scales_are named there n =
        let diff = diff_pods pods scales in
        let P : Option E × S → Type 0 = λ r.
          exists r.1 (object_name api listers concat namespace n) ≡ (
            marked (pod_names pods) n
            && (marked (tracked_names scales) n || any_eligible pods n)) in
        let (on, added) = create_all-Created diff.add_list s in
        let s' = (create_all api listers concat namespace sla service diff.add_list s).1 in
        let deleted_names =
          marked-keep (λ (x : PodScale Q). x.spec.pod) (λ m. not (marked (pod_names pods) m))
            scales in
        let (_, gone) =
          delete_all-Deleted api listers concat namespace healthy diff.delete_list s'
            (AreNamed-keep api listers concat namespace healthy
              (λ m. not (marked (pod_names pods) m)) scales named)
            (λ k m. ground (arith, m, added k, there k, deleted_names k)) in
        some_branch P _ _ pods pods_are (
          some_branch P _ _ scales scales_are (
            test_branch P (create_all api listers concat namespace sla service diff.add_list s).0
              (λ off. absurd (false≢true (sym off ∙ on)))
              (λ _. ground (
                arith,
                gone n,
                added n,
                there n,
                deleted_names n,
                any_eligible-keep (λ m. not (marked (tracked_names scales) m)) pods n,
                any_eligible-marked pods n,
              ))))
