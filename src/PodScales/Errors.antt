-- ===== src/PodScales/Errors.antt =====
-- How `syncServiceLevelAgreement` ends: when it returns an error, so that the work queue tries again,
-- and when it panics.
use kosmos_v.Prelude.{
  String, ◌≡◌, refl, ◌∙◌, sym, Bool, true, false, Option, none, some, List, [], ◌∷◌, arith,
}
use mathlib.Core.Bool.{false≢true}
use kosmos_v.Prelude.Tests.{if◌then◌else◌}
use kosmos_v.Prelude.Branches.{test_branch, option_branch}
use kosmos_v.Prelude.Lists.{any}
use kosmos_v.Prelude.Results.{Result, ok, err}
use kosmos_v.Api.{KubeService, ServiceLevelAgreement}
use kosmos_v.PodScales.{
  PodScaleServer, Listers, LoopEnd, finished, stopped, panicked, Outcome, returns, panics, tracked,
  sync_service, sync_all, is_ok,
}

-- The service has no labels, so that its map of labels is nil.
abbrev pub is_unlabelled : KubeService → Bool
is_unlabelled service = elim (service.labels) [ [] ↦ true | label ∷ labels ↦ false ]

module _ {S E Q : Type 0} (api : PodScaleServer S E Q) (listers : Listers Q)
    (concat : String → String → String) (same : KubeService → KubeService → Bool) where
  tracked-none :
      (sla : ServiceLevelAgreement Q) (service : KubeService)
      → tracked api listers concat same sla service ≡ none
      → is_unlabelled service ≡ true
  tracked-none sla service e = ground (arith, e)

  tracked-some :
      (sla : ServiceLevelAgreement Q) (service labelled : KubeService)
      → tracked api listers concat same sla service ≡ some labelled
      → is_unlabelled service ≡ false
  tracked-some sla service labelled e = ground (arith, e)

  sync_service_nil :
      (namespace : String) (service : KubeService) (sla : ServiceLevelAgreement Q) (s : S)
      → (sync_service api listers concat namespace service sla s).0 ≡ none
  unfolding sync_service
  sync_service_nil namespace service sla s = ground arith

  -- With an API server that accepts every update of a service, the loop over the services panics
  -- exactly if one of them has no labels, whatever else fails; else it comes to its end.
  pub sync_all_panics :
      (namespace : String) (sla : ServiceLevelAgreement Q) (services : List KubeService) (s : S)
      → ((service : KubeService) (s' : S)
          → is_ok api listers concat (api.update_service namespace service s').0 ≡ true)
      → (sync_all api listers concat same namespace sla services s).0
        ≡ (if any is_unlabelled services then panicked else finished)
  unfolding sync_all
  sync_all_panics namespace sla [] s accepts = refl
  sync_all_panics namespace sla (service ∷ services) s accepts =
      let (failure, s') = sync_service api listers concat namespace service sla s in
      let no_failure = sync_service_nil namespace service sla s in
      let P : LoopEnd × List KubeService × S → Type 0 =
        λ r. r.0 ≡ (if any is_unlabelled (service ∷ services) then panicked else finished) in
      option_branch P failure
        (λ _.
          option_branch P (tracked api listers concat same sla service)
            (λ e. rw (tracked-none sla service e) refl)
            (λ labelled e.
              let (answer, s'') = api.update_service namespace labelled s' in
              test_branch P (is_ok api listers concat answer)
                (λ refused. absurd (false≢true (sym refused ∙ accepts labelled s')))
                (λ _.
                  rw (tracked-some sla service labelled e)
                    (sync_all_panics namespace sla services s'' accepts))))
        (λ x failed. cc)

  -- A loop that panics met a service without labels.
  abbrev MeetsUnlabelled : List KubeService → LoopEnd → Type 0
  MeetsUnlabelled services finished = Unit
  MeetsUnlabelled services stopped = Unit
  MeetsUnlabelled services panicked = any is_unlabelled services ≡ true

  module _ (find_sla : String → String → Result (Option E) (ServiceLevelAgreement Q)) where
    -- An error of the lister, and no write.
    abbrev pub IsListerError : String → String → S → Outcome E × S → Type 0
    IsListerError namespace name s (outcome, s') =
        (e : E) × (find_sla namespace name ≡ err (some e)) × (outcome ≡ returns (some e)) × (s' ≡ s)

    -- A panic, with a service of the agreement that has no labels.
    abbrev pub IsLabelPanic : String → String → Outcome E × S → Type 0
    IsLabelPanic namespace name (outcome, s') =
        (sla : ServiceLevelAgreement Q) × (desired : List KubeService) × (find_sla namespace name
          ≡ ok sla)
        × (listers.list_services namespace sla.spec.service.match_labels ≡ some desired)
        × (any is_unlabelled desired ≡ true)
        × (outcome ≡ panics)
