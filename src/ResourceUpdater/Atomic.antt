-- ===== src/ResourceUpdater/Atomic.antt =====
-- The update in two passes, and what becomes of a message of the worker.
use kosmos_v.Prelude.{
  String, ◌≡◌, refl, ◌⊎◌, inl, inr, Bool, true, false, Option, List, [], ◌∷◌, ◌++◌, arith,
}
use kosmos_v.Prelude.Tests.{Bool-cases}
use kosmos_v.Prelude.Results.{ok, err, Result-cases}
use kosmos_v.Quantity.{Quantities}
use kosmos_v.Api.{Pod, PodScale}
use kosmos_v.NodeScales.{NodeScales}
use kosmos_v.ResourceUpdater.{
  ApiServer, update_resources, atomic_resource_update, Worker, update_one, update_all,
}

-- A request with the dry-run option is not persisted.
pub record HasDryRun {S E Q : Type 0} (api : ApiServer S E Q) : Type 0 where
  pub pod_kept :
      (namespace : String) (pod : Pod Q) (s : S) → (api.update_pod true namespace pod s).1 ≡ s
  pub scale_kept :
      (namespace : String) (scale : PodScale Q) (s : S)
      → (api.update_pod_scale true namespace scale s).1 ≡ s

module _ {S E Q : Type 0} (api : ApiServer S E Q) (laws : HasDryRun api) where
  dry_run_kept :
      (pod : Pod Q) (scale : PodScale Q) (s : S) → (update_resources api pod scale true s).1 ≡ s
  unfolding update_resources
  dry_run_kept pod scale s = ground (
    arith,
    laws.pod_kept scale.spec.namespace pod s,
    laws.scale_kept scale.meta.namespace scale s,
  )

  -- For a server that persists nothing of a dry run: if the dry run of the two updates fails, the
  -- server is as before and the error is its error. If it passes, the answer and the server are those
  -- of the real updates from the same state.
  pub atomic_resource_update_passes :
      (pod : Pod Q) (scale : PodScale Q) (s : S)
      → ((e : E) × ((update_resources api pod scale true s).0 ≡ err e)
          × (atomic_resource_update api pod scale s ≡ (err e, s)))
        ⊎ ((r : Pod Q × PodScale Q) × ((update_resources api pod scale true s).0 ≡ ok r)
            × (atomic_resource_update api pod scale s ≡ update_resources api pod scale false s))
  unfolding atomic_resource_update
  atomic_resource_update_passes pod scale s =
      let kept = dry_run_kept pod scale s in
      elim (Result-cases (update_resources api pod scale true s).0) [
        | inl (r, e) ↦ inr (r, e, rw (e, kept))
        | inr (x, e) ↦ inl (x, e, rw (e, kept))
      ]

module _ {S E Q : Type 0} ⦃q : Quantities Q⦄ (api : ApiServer S E Q)
    (find_pod : String → String → Option (Pod Q)) (message : NodeScales Q) where
  -- The message is behind the channel's others at most once, and then the worker stopped.
  abbrev pub Requeued : Worker S Q → Worker S Q × Bool → Type 0
  Requeued w (w', goes_on) =
      (w'.input ≡ w.input) ⊎ ((w'.input ≡ w.input ++ (message ∷ [])) × (goes_on ≡ false))

  pub update_one-Requeued :
      (scale : PodScale Q) (w : Worker S Q) → Requeued w (update_one api find_pod message scale w)
  unfolding update_one
  update_one-Requeued scale w = ground arith

  pub update_one_goes_on :
      (scale : PodScale Q) (w : Worker S Q)
      → (update_one api find_pod message scale w).1 ≡ true
      → (update_one api find_pod message scale w).0.input ≡ w.input
  unfolding update_one
  update_one_goes_on scale w h = ground arith

  -- Whatever happens to the pod scales of a message, the worker puts it back on the channel at most
  -- once, behind the messages that wait there, and it stops when it does.
  pub update_all-Requeued :
      (scales : List (PodScale Q)) (w : Worker S Q)
      → let (w', goes_on) = update_all api find_pod message scales w in
        (w'.input ≡ w.input) ⊎ ((w'.input ≡ w.input ++ message ∷ []) × (goes_on ≡ false))
  unfolding update_all
  update_all-Requeued [] w = inl refl
  update_all-Requeued (scale ∷ scales) w =
      let (w', goes_on) = update_one api find_pod message scale w in
      elim (Bool-cases goes_on) [
        | inl on ↦ rw on (rw (update_one_goes_on scale w on) at (update_all-Requeued scales w'))
        | inr off ↦ rw off (rw off at (update_one-Requeued scale w))
      ]
