-- ===== src/Replicas/Controller/Retry.antt =====
-- `handleSLA` on the work queue: the first call for a key.
use kosmos_v.Prelude.{String, ◌≡◌, inl, inr, true, none, some, ap, ◌∙◌}
use kosmos_v.Quantity.{Quantities}
use kosmos_v.Float.{Machine}
use kosmos_v.Float.Order.{IsIeee}
use kosmos_v.Api.{ServiceLevelAgreement}
use kosmos_v.Replicas.{Clock}
use kosmos_v.Replicas.Hpa.Bounds.{HasLimits}
use kosmos_v.Replicas.Custom.{CustomLogic}
use kosmos_v.Replicas.Controller.{Sources, DeploymentServer, Updater, handle_sla}
use kosmos_v.Replicas.Controller.Updates.{handle_sla-Handled}
use kosmos_v.Queue.{Workqueue, IsWorkqueue, key, process_next_item}
use kosmos_v.Queue.Retry.{failure_waits}

module _ {S Q W : Type 0} ⦃q : Quantities Q⦄ ⦃queue : Workqueue W⦄ (laws : IsWorkqueue W)
    (m : Machine) (ieee : IsIeee m) (sources : Sources Q) (api : DeploymentServer S)
    (fresh : CustomLogic) (clock : Clock) where
  -- A round that takes a key without a logic writes nothing and leaves the key waiting, so that it
  -- is handled again.
  pub first_round_waits :
      (w w' : W) (k : String) (u : Updater S)
      → ((namespace name : String) (sla : ServiceLevelAgreement Q)
          → sources.find_sla namespace name ≡ some sla
          → HasLimits sla)
      → queue.get w ≡ some (key k, w')
      → u.logics k ≡ none
      → let (report, after, u') = process_next_item (handle_sla m sources api fresh clock) w u in
        (laws.waiting after (key k) ≡ true) × (u'.server ≡ u.server)
  first_round_waits w w' k u limits taken new =
      let sync = handle_sla m sources api fresh clock in
      elim (handle_sla-Handled m sources api fresh clock ieee k u limits) [
        | inl (fails, same) ↦
            let (waits, is_u') = failure_waits laws sync w w' k u taken fails in
            (waits, ap (λ (x : Updater S). x.server) is_u' ∙ same)
        | inr (_, _, _, _, l, _, _, _, _, known, _, _, _) ↦ cc (new, known)
      ]
