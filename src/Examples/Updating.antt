-- ===== src/Examples/Updating.antt =====
-- The theorems on the resource updater at concrete inputs.
use kosmos_v.Prelude.{ℕ, suc, ◌≡◌, refl, ◌⊎◌, String, true, false, [], ◌∷◌, some}
use kosmos_v.Prelude.Tests.{if◌then◌else◌}
use kosmos_v.Prelude.Results.{ok, err}
use kosmos_v.Quantity.Thousandths.{Thousandths, thousandths_quantities}
use kosmos_v.Api.{Pod, PodScale}
use kosmos_v.NodeScales.{NodeScales}
use kosmos_v.ResourceUpdater.{
  sync_pod, ApiServer, update_resources, atomic_resource_update, Worker, update_all,
}
use kosmos_v.ResourceUpdater.Sync.{Synced, sync_pod-Synced}
use kosmos_v.ResourceUpdater.Atomic.{HasDryRun, atomic_resource_update_passes, update_all-Requeued}
use kosmos_v.Examples.Data.{scale_of, pod_of}

sync_pod-Synced_example :
    Synced (pod_of "a") (scale_of "a" 300 400) (sync_pod (pod_of "a") (scale_of "a" 300 400))
sync_pod-Synced_example = sync_pod-Synced (pod_of "a") (scale_of "a" 300 400)

-- A server that counts what it persists and refuses every real update of a pod scale.
abbrev strict_server : ApiServer ℕ String Thousandths
strict_server = record {
  update_pod = λ dry_run namespace pod s. (ok pod, if dry_run then s else suc s);
  update_pod_scale =
      λ dry_run namespace scale s. ((if dry_run then ok scale else err "conflict"), s);
}

strict_server-HasDryRun : HasDryRun strict_server
strict_server-HasDryRun = record {
  pod_kept = λ namespace pod s. refl;
  scale_kept = λ namespace scale s. refl;
}

passes :
    (update_resources strict_server (pod_of "a") (scale_of "a" 300 400) true 0).0
    ≡ ok (pod_of "a", scale_of "a" 300 400)
unfolding update_resources
passes = refl

atomic_resource_update_passes_example :
    ((e : String) × ((update_resources strict_server (pod_of "a") (scale_of "a" 300 400) true 0).0
        ≡ err e)
      × (atomic_resource_update strict_server (pod_of "a") (scale_of "a" 300 400) 0 ≡ (err e, 0)))
    ⊎ ((r : Pod Thousandths × PodScale Thousandths) × ((update_resources strict_server
            (pod_of "a")
            (scale_of "a" 300 400)
            true
            0).0
          ≡ ok r)
        × (atomic_resource_update strict_server (pod_of "a") (scale_of "a" 300 400) 0
            ≡ update_resources strict_server (pod_of "a") (scale_of "a" 300 400) false 0))
atomic_resource_update_passes_example =
    atomic_resource_update_passes strict_server strict_server-HasDryRun (pod_of "a")
      (scale_of "a" 300 400) 0

abbrev message : NodeScales Thousandths
message = record { node = "node"; pod_scales = scale_of "a" 300 400 ∷ [] }

abbrev idle : Worker ℕ Thousandths
idle = record { server = 0; input = []; logged = [] }

update_all-Requeued_example :
    let (w', goes_on) =
      update_all strict_server
        (λ namespace name. some (pod_of name))
        message
        message.pod_scales
        idle in
    (w'.input ≡ []) ⊎ ((w'.input ≡ message ∷ []) × (goes_on ≡ false))
update_all-Requeued_example =
    update_all-Requeued strict_server (λ namespace name. some (pod_of name)) message
      message.pod_scales idle
