-- ===== src/Replicas/Controller/Updates.antt =====
-- When `handleSLA` writes a deployment, and with what number of replicas.
use kosmos_v.Prelude.{String, ◌≡◌, refl, ◌≢◌, ◌⊎◌, inl, inr, Option, none, some, ◌∷◌}
use kosmos_v.Prelude.Branches.{test_branch, option_branch, result_branch, list_branch}
use kosmos_v.Prelude.Int.{ℤ}
use kosmos_v.Quantity.{Quantities}
use kosmos_v.Float.{Machine}
use kosmos_v.Float.Order.{IsIeee}
use kosmos_v.Api.{ServiceLevelAgreement}
use kosmos_v.Replicas.{Clock}
use kosmos_v.Replicas.Hpa.Bounds.{HasLimits, IsChange}
use kosmos_v.Replicas.Custom.{CustomLogic}
use kosmos_v.Replicas.Custom.Bounds.{Call, answer_call, custom_compute_replica-IsChange}
use kosmos_v.Replicas.Controller.{
  Deployment, SlaError, Sources, DeploymentServer, Updater, Matched, store_logic, scale_deployment,
  scale_matched, handle_sla, match_scales, find_target,
}

module _ {S Q : Type 0} ⦃q : Quantities Q⦄ (m : Machine) (sources : Sources Q)
    (api : DeploymentServer S) (fresh : CustomLogic) (clock : Clock) where
  open sources use {split_key, find_sla, list_scales, find_node, pods_of, response_time}
  open api use {find_deployment, update_deployment}

  -- The key names this agreement.
  abbrev pub IsNamed : String → ServiceLevelAgreement Q → Type 0
  IsNamed key sla = (k : String × String) × (split_key key ≡ some k) × (find_sla k.0 k.1 ≡ some sla)

  -- One deployment is written as it was read, but for its number of replicas, which is a change
  -- that the agreement's limits and the timers of the key's logic allow.
  abbrev pub Written : String → Updater S → Updater S → Type 0
  Written key u u' =
      (namespace : String) × (name : String) × (deployment : Deployment)
      × (sla : ServiceLevelAgreement Q) × (l : CustomLogic) × (r : ℤ) × (l' : CustomLogic) × IsNamed
          key sla
      × (find_deployment namespace name u.server ≡ some deployment)
      × (u.logics key ≡ some l)
      × IsChange sla clock deployment.replicas l.timers (r, l'.timers)
      × (u'.server ≡ (update_deployment namespace (record deployment { replicas = r }) u.server).1)
      × (u'.logics ≡ store_logic u.logics key l')

  -- Nothing is written and there is an error; or a deployment is.
  abbrev pub Handled : String → Updater S → Option SlaError × Updater S → Type 0
  Handled key u (failure, u') = (failure ≢ none) × (u'.server ≡ u.server) ⊎ Written key u u'

  refused-Handled : (key : String) (u : Updater S) (e : SlaError) → Handled key u (some e, u)
  refused-Handled key u e = inl (λ x. cc, refl)

  module _ (ieee : IsIeee m) (key : String) (u : Updater S) where
    scale_deployment-Handled :
        (sla : ServiceLevelAgreement Q) (found : Matched Q) (namespace name : String)
        (deployment : Deployment)
        → HasLimits sla
        → IsNamed key sla
        → find_deployment namespace name u.server ≡ some deployment
        → Handled key u
            (scale_deployment m sources api fresh clock key sla found namespace deployment u)
    unfolding scale_deployment
    scale_deployment-Handled sla found namespace name deployment limits named is_read =
        option_branch (Handled key u) (u.logics key) (λ _. inl (λ x. cc, refl))
          (λ l is_l.
            let call : Call Q = record {
              sla = sla;
              scales = found.scales;
              find_node = find_node;
              pods_of = pods_of;
              answer = response_time found.service;
              clock = clock;
              cur = deployment.replicas;
            } in
            let (r, l') = answer_call m call l in
            let change = custom_compute_replica-IsChange m call l ieee limits in
            let after = update_deployment namespace (record deployment { replicas = r }) u.server in
            let u' : Updater S = record {
              server = after.1;
              logics = store_logic u.logics key l';
            } in
            let written : Written key u u' = (
              namespace, name, deployment, sla, l, r, l', named, is_read, is_l, change, refl, refl,
            ) in
            test_branch (Handled key u) after.0 (λ _. inr written) (λ _. inr written))

    scale_matched-Handled :
        (sla : ServiceLevelAgreement Q) (found : Matched Q)
        → HasLimits sla
        → IsNamed key sla
        → Handled key u (scale_matched m sources api fresh clock key sla found u)
    unfolding scale_matched
    scale_matched-Handled sla found limits named =
        let P = Handled key u in
        list_branch P found.pods (λ _. refused-Handled key u _)
          (λ pod pods _.
            result_branch P (find_target sources "" "" (pod ∷ pods))
              (λ target _.
                option_branch P (find_deployment target.0 target.1 u.server)
                  (λ _. refused-Handled key u _)
                  (λ deployment is_read.
                    scale_deployment-Handled sla found target.0 target.1 deployment limits named
                      is_read))
              (λ e _. refused-Handled key u e))

    -- If all agreements have ordered limits of 32 bits, on a machine with IEEE 754 floats: a call of
    -- `handleSLA` either fails and writes nothing, or it writes one deployment as it read it but for
    -- the number of replicas. That number is the former one, or it is within the limits of the
    -- key's agreement and the logic of the key, which the call found in the map, has waited as long as it
    -- must; the logic is stored with the time of the change.
    pub handle_sla-Handled :
        ((namespace name : String) (sla : ServiceLevelAgreement Q)
          → find_sla namespace name ≡ some sla
          → HasLimits sla)
        → let (failure, u') = handle_sla m sources api fresh clock key u in
          (failure ≢ none) × (u'.server ≡ u.server) ⊎ Written key u u'
    unfolding handle_sla
    handle_sla-Handled limits =
        let P = Handled key u in
        let refused = refused-Handled key u in
        option_branch P (split_key key) (λ _. refused _)
          (λ k is_key.
            option_branch P (find_sla k.0 k.1) (λ _. refused _)
              (λ sla is_sla.
                option_branch P list_scales (λ _. refused _)
                  (λ scales _.
                    list_branch P scales (λ _. refused _)
                      (λ first rest _.
                        option_branch P (match_scales sources sla _ (first ∷ rest)) (λ _. refused _)
                          (λ found _.
                            scale_matched-Handled sla found (limits k.0 k.1 sla is_sla)
                              (k, is_key, is_sla))))))
