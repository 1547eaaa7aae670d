-- ===== src/StateDiff/Convergence.antt =====
-- The two lists of `DiffPods`, and that acting on them makes pods and pod scales agree.
use kosmos_v.Prelude.{
  String, ◌≡◌, refl, inl, inr, Bool, true, false, not, ◌&&◌, ◌||◌, List, [], ◌∷◌, map, arith,
  str_eq, str_eq_iff,
}
use kosmos_v.Prelude.Tests.{Bool-cases}
use kosmos_v.Prelude.Lists.{keep}
use kosmos_v.Api.{Pod, PodScale}
use kosmos_v.StateDiff.{marked, tracked_names, pod_names, diff_pods}

-- The names of the elements that pass a test of their name are the names that pass it.
pub marked-keep {ℓ} :
    {A : Type ℓ} (name_of : A → String) (test : String → Bool) (xs : List A) (n : String)
    → marked (map name_of (keep (λ x. test (name_of x)) xs)) n
      ≡ (marked (map name_of xs) n && test n)
marked-keep name_of test [] n = refl
marked-keep name_of test (x ∷ xs) n =
    let rest = marked-keep name_of test xs n in
    elim (Bool-cases (str_eq n (name_of x))) [
      | inl same ↦ let e : n ≡ name_of x = (str_eq_iff n (name_of x)).0 same in ground arith
      | inr other ↦ ground arith
    ]

pub marked-cons {ℓ} :
    {A : Type ℓ} (name_of : A → String) (x : A) (xs : List A)
    → marked (map name_of (x ∷ xs)) (name_of x) ≡ true
marked-cons name_of x xs = rw ((str_eq_iff (name_of x) (name_of x)).1 refl)

keep-none {ℓ} :
    {A : Type ℓ} (name_of : A → String) (test : String → Bool) (xs : List A)
    → ((n : String) → marked (map name_of xs) n ≡ true → test n ≡ false)
    → keep (λ x. test (name_of x)) xs ≡ []
keep-none name_of test [] h = refl
keep-none name_of test (x ∷ xs) h =
    let here = h (name_of x) (marked-cons name_of x xs) in
    rw here (keep-none name_of test xs (λ n m. h n (ground (arith, m))))

module _ {Q : Type 0} (pods : List (Pod Q)) (scales : List (PodScale Q)) where
  -- A name is of a pod scale to delete exactly if a pod scale and no pod has it, it is of a pod to
  -- add exactly if a pod and no pod scale has it, and deleting the one and adding the other leaves
  -- exactly the names of the pods.
  pub diff_pods_converges :
      (n : String)
      → let tracked = marked (tracked_names scales) n in
        let present = marked (pod_names pods) n in
        let deleted = marked (tracked_names (diff_pods pods scales).delete_list) n in
        let added = marked (pod_names (diff_pods pods scales).add_list) n in
        (deleted ≡ (tracked && not present))
        × (added ≡ (present && not tracked))
        × ((tracked && not deleted || added) ≡ present)
  unfolding diff_pods
  diff_pods_converges n = ground (
    arith,
    marked-keep (λ (s : PodScale Q). s.spec.pod) (λ m. not (marked (pod_names pods) m)) scales n,
    marked-keep (λ (p : Pod Q). p.name) (λ m. not (marked (tracked_names scales) m)) pods n,
  )

  -- If pods and pod scales have the same names, there is nothing to do.
  pub diff_pods_settled :
      ((n : String) → marked (tracked_names scales) n ≡ marked (pod_names pods) n)
      → diff_pods pods scales ≡ record { add_list = []; delete_list = [] }
  unfolding diff_pods
  diff_pods_settled same = cc (
    keep-none (λ (p : Pod Q). p.name) (λ m. not (marked (tracked_names scales) m)) pods
        (λ n m. ground (arith, same n, m)),
    keep-none (λ (s : PodScale Q). s.spec.pod) (λ m. not (marked (pod_names pods) m)) scales
        (λ n m. ground (arith, same n, m)),
  )
