-- ===== src/PodScales/Cleanup.antt =====
-- What `handleServiceSelectorChange` removes on an API server that answers every call.
use kosmos_v.Prelude.{
  none, String, ◌≡◌, refl, sym, ◌∙◌, Bool, true, false, not, ◌&&◌, ◌||◌, some, List, [], ◌∷◌, ◌++◌,
  arith, str_eq_iff,
}
use mathlib.Core.Bool.{false≢true}
use kosmos_v.Prelude.Tests.{if◌then◌else◌}
use kosmos_v.Prelude.Branches.{test_branch, some_branch}
use kosmos_v.Api.{KubeService, PodScale}
use kosmos_v.StateDiff.{marked, tracked_names, contains_service}
use kosmos_v.PodScales.{PodScaleServer, Listers, delete_all, handle_service_selector_change}
use kosmos_v.PodScales.Deletion.{object_name, IsHealthy, AreNamed, delete_all-Deleted}

module _ {Q : Type 0} where
  abbrev pub has_name : List (PodScale Q) → String → Bool
  has_name scales n = marked (tracked_names scales) n

  has_name-append :
      (xs ys : List (PodScale Q)) (n : String)
      → has_name (xs ++ ys) n ≡ (has_name xs n || has_name ys n)
  has_name-append [] ys n = refl
  has_name-append (x ∷ xs) ys n = ground (arith, has_name-append xs ys n)

module _ {S E Q : Type 0} (api : PodScaleServer S E Q) (listers : Listers Q)
    (concat : String → String → String) (namespace : String)
    (healthy : IsHealthy api listers concat namespace) where
  open healthy use {exists}

  abbrev Named : List (PodScale Q) → Type 0
  Named scales = AreNamed api listers concat namespace healthy scales

  abbrev object : String → String
  object n = object_name api listers concat namespace n

  -- Both parts are named after their pods, and have no pod in common.
  Named-append :
      (xs ys : List (PodScale Q))
      → Named (xs ++ ys)
      → Named xs × Named ys × ((n : String) → has_name xs n ≡ true → has_name ys n ≡ false)
  Named-append [] ys h = (tt, h, λ n m. cc)
  Named-append (x ∷ xs) ys (named, apart, h) =
      let (left, right, differ) = Named-append xs ys h in
      (
        (named, ground (arith, apart, has_name-append xs ys x.spec.pod), left),
        right,
        λ n m.
            ground (
              arith,
              m,
              differ n,
              apart,
              has_name-append xs ys x.spec.pod,
              str_eq_iff n x.spec.pod,
            ),
      )

  module _ (same : KubeService → KubeService → Bool) (desired : List KubeService)
      (listed : KubeService → List (PodScale Q)) where
    -- The pod scales of the services that are no longer desired.
    abbrev pub obsolete : List KubeService → List (PodScale Q)
    obsolete [] = []
    obsolete (service ∷ services) =
        if contains_service same desired service
        then obsolete services
        else listed service ++ obsolete services

    abbrev Cleaned : List (PodScale Q) → S → S → Type 0
    Cleaned scales s s' =
        (n : String) → exists s' (object n) ≡ (exists s (object n) && not (has_name scales n))

    module _
        (found : (service : KubeService)
          → listers.list_scales service.selector ≡ some (listed service)) where
      abbrev AllThere : List (PodScale Q) → S → Type 0
      AllThere scales s = (n : String) → has_name scales n ≡ true → exists s (object n) ≡ true

      -- One service, of which the answer tells whether it is desired.
      service-Cleaned :
          (b : Bool) (service : KubeService) (rest : List (PodScale Q)) (next : S → S)
          → ((s : S) → Named rest → AllThere rest s → Cleaned rest s (next s))
          → (s : S) → Named (if b then rest else listed service ++ rest)
          → AllThere (if b then rest else listed service ++ rest) s
          → Cleaned (if b then rest else listed service ++ rest) s (elim b as (λ x. S) [
            | true ↦ next s
            | false ↦ elim (listers.list_scales service.selector) [
              | none ↦ s
              | some scales ↦
                  let (goes_on, s') = delete_all api listers concat namespace scales s in
                  elim goes_on [ false ↦ s' | true ↦ next s' ]
            ]
          ])
      service-Cleaned true service rest next ih s named there = ih s named there
      service-Cleaned false service rest next ih s named there =
          let P = Cleaned (listed service ++ rest) s in
          let (left, right, differ) = Named-append (listed service) rest named in
          let joined = has_name-append (listed service) rest in
          let (on, removed) =
            delete_all-Deleted api listers concat namespace healthy (listed service) s left
              (λ n m. there n (ground (arith, joined n, m))) in
          let r = delete_all api listers concat namespace (listed service) s in
          let still : AllThere rest r.1 =
            λ n m. ground (arith, m, removed n, differ n, joined n, there n) in
          some_branch P _ _ (listed service) (found service) (
            test_branch P r.0 (λ off. absurd (false≢true (sym off ∙ on)))
              (λ _ n.
                let later = ih r.1 right still n in ground (arith, later, removed n, joined n)))

      -- If the API server answers every call, the lister answers for every service, and the pod scales
      -- of the services that are no longer desired exist and are named after their pods, which differ:
      -- then `handleServiceSelectorChange` removes exactly these pod scales.
      pub handle_service_selector_change-Cleaned :
          (actual : List KubeService) (s : S)
          → AreNamed api listers concat namespace healthy (obsolete actual)
          → ((n : String) → has_name (obsolete actual) n ≡ true → exists s (object n) ≡ true)
          → (n : String)
          → exists
              (handle_service_selector_change api listers concat same actual desired namespace s)
              (object_name api listers concat namespace n)
            ≡ (exists s (object_name api listers concat namespace n)
                && not (has_name (obsolete actual) n))
      unfolding handle_service_selector_change
      handle_service_selector_change-Cleaned [] s named there = λ n. ground arith
      handle_service_selector_change-Cleaned (service ∷ services) s named there =
          service-Cleaned (contains_service same desired service) service (obsolete services)
            (handle_service_selector_change api listers concat same services desired namespace)
            (handle_service_selector_change-Cleaned services) s named there
