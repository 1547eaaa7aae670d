-- ===== src/PodScales/Deletion.antt =====
-- What the deletion of pod scales does on an API server that answers every call.
use kosmos_v.Prelude.{
  String, ◌≡◌, refl, sym, ap, ◌∙◌, inl, inr, Bool, true, false, not, ◌&&◌, ◌||◌, List, [], ◌∷◌,
  str_eq, str_eq_iff, arith,
}
use mathlib.Core.Bool.{false≢true}
use kosmos_v.StateDiff.Convergence.{marked-keep, marked-cons}
use kosmos_v.Prelude.Tests.{Bool-cases}
use kosmos_v.Prelude.Branches.{test_branch}
use kosmos_v.Prelude.Lists.{keep}
use kosmos_v.Api.{PodScale}
use kosmos_v.StateDiff.{marked, tracked_names}
use kosmos_v.PodScales.{PodScaleServer, Listers, is_created, is_ok, delete_all}

module _ {S E Q : Type 0} (api : PodScaleServer S E Q) (listers : Listers Q)
    (concat : String → String → String) (namespace : String) where
  -- The name of the object of a pod's pod scale.
  abbrev pub object_name : String → String
  object_name pod = concat "pod-" pod

  -- An API server that answers every call as documented: an object is there after its creation,
  -- and one that is there is gone after its deletion, and nothing else changes. Different pods have
  -- objects of different names.
  pub record IsHealthy : Type 0 where
    pub exists : S → String → Bool
    pub create_answers :
        (scale : PodScale Q) (s : S)
        → is_created api listers concat (api.create namespace scale s).0 ≡ true
    pub create_adds :
        (scale : PodScale Q) (s : S) (name : String)
        → exists (api.create namespace scale s).1 name
          ≡ (str_eq name scale.meta.name || exists s name)
    pub delete_answers :
        (name : String) (s : S)
        → exists s name ≡ true
        → is_ok api listers concat (api.delete namespace name s).0 ≡ true
    pub delete_removes :
        (name : String) (s : S) (other : String)
        → exists s name ≡ true
        → exists (api.delete namespace name s).1 other ≡ (exists s other && not (str_eq other name))
    pub names_differ : (a b : String) → str_eq (object_name a) (object_name b) ≡ str_eq a b

  module _ (healthy : IsHealthy) where
    open healthy use {exists}

    -- The pod scales are named after their pods, which differ.
    abbrev pub AreNamed : List (PodScale Q) → Type 0
    AreNamed [] = Unit
    AreNamed (scale ∷ scales) =
        (scale.meta.name ≡ object_name scale.spec.pod)
        × (marked (tracked_names scales) scale.spec.pod ≡ false)
        × AreNamed scales

    pub AreNamed-keep :
        (test : String → Bool) (scales : List (PodScale Q))
        → AreNamed scales
        → AreNamed (keep (λ x. test x.spec.pod) scales)
    AreNamed-keep test [] h = tt
    AreNamed-keep test (scale ∷ scales) (named, apart, h) =
        elim (Bool-cases (test scale.spec.pod)) [
          | inr e ↦ rw e (AreNamed-keep test scales h)
          | inl e ↦ rw e (
            named,
            ground (
              arith,
              apart,
              marked-keep (λ (x : PodScale Q). x.spec.pod) test scales scale.spec.pod,
            ),
            AreNamed-keep test scales h,
          )
        ]

    abbrev pub Deleted : List (PodScale Q) → S → Bool × S → Type 0
    Deleted scales s (goes_on, s') =
        (goes_on ≡ true)
        × ((n : String)
            → exists s' (object_name n)
              ≡ (exists s (object_name n) && not (marked (tracked_names scales) n)))

    pub delete_all-Deleted :
        (scales : List (PodScale Q)) (s : S)
        → AreNamed scales
        → ((n : String) → marked (tracked_names scales) n ≡ true → exists s (object_name n) ≡ true)
        → Deleted scales s (delete_all api listers concat namespace scales s)
    unfolding delete_all
    delete_all-Deleted [] s h there = (refl, λ n. ground arith)
    delete_all-Deleted (scale ∷ scales) s (named, apart, h) there =
        let P = Deleted (scale ∷ scales) s in
        let pod = scale.spec.pod in
        let here : exists s scale.meta.name ≡ true =
          ap (exists s) named
          ∙ there pod (marked-cons (λ (x : PodScale Q). x.spec.pod) scale scales) in
        let s' = (api.delete namespace scale.meta.name s).1 in
        let removes =
          λ (n : String). healthy.delete_removes scale.meta.name s (object_name n) here in
        let differ : (n : String) → str_eq (object_name n) scale.meta.name ≡ str_eq n pod =
          λ n. ap (str_eq (object_name n)) named ∙ healthy.names_differ n pod in
        let (on, gone) =
          delete_all-Deleted scales s' h
            (λ n m. ground (arith, m, removes n, differ n, there n, apart, str_eq_iff n pod)) in
        test_branch P (is_ok api listers concat (api.delete namespace scale.meta.name s).0)
          (λ refused.
            absurd (false≢true (sym refused ∙ healthy.delete_answers scale.meta.name s here)))
          (λ _. (on, λ n. ground (arith, gone n, removes n, differ n)))
