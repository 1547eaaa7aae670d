-- ===== src/Pipeline/Moves.antt =====
-- What the parts of a move do: an element is picked, a message is sent, and a process that panicked
-- stays as it is.
use kosmos_v.Prelude.{
  ℕ, zero, suc, ◌≤◌, ◌≡◌, refl, subst, Option, none, some, List, [], ◌∷◌, ◌++◌, arith,
}
use kosmos_v.Prelude.Branches.{if_branch}
use kosmos_v.Prelude.Lists.{length, length-append, All}
use kosmos_v.Quantity.{Quantities}
use kosmos_v.Float.{Machine}
use kosmos_v.ResourceUpdater.{ApiServer}
use kosmos_v.Pipeline.{channel_capacity, pick, send, Pipeline, Move, move, step}

module _ {ℓ} {A : Type ℓ} where
  -- What an index picks of a list, the others with it.
  abbrev pub Picked {κ} : (A → Type κ) → List A → Option (A × List A) → Type κ
  Picked P xs none = Unit
  Picked P xs (some (y, ys)) = (length xs ≡ suc (length ys)) × (All P xs → P y × All P ys)

  Picked-cons {κ} :
      (P : A → Type κ) (x : A) (xs : List A) (o : Option (A × List A))
      → Picked P xs o
      → Picked P
          (x ∷ xs)
          (elim o as (λ z. Option (A × List A)) [ none ↦ none | some (y, ys) ↦ some (y, x ∷ ys) ])
  Picked-cons P x xs none h = tt
  Picked-cons P x xs (some (y, ys)) (few, parts) =
      (omega (arith, few), λ (h, hs). let (here, rest) = parts hs in (here, (h, rest)))

  pick-Picked {κ} : (P : A → Type κ) (i : ℕ) (xs : List A) → Picked P xs (pick i xs)
  unfolding pick
  pick-Picked P i [] = tt
  pick-Picked P zero (x ∷ xs) = (refl, λ h. h)
  pick-Picked P (suc i) (x ∷ xs) = Picked-cons P x xs (pick i xs) (pick-Picked P i xs)

  -- The element at an index that there is.
  pub picked {κ} :
      (P : A → Type κ) (i : ℕ) (xs : List A) (y : A) (ys : List A)
      → pick i xs ≡ some (y, ys)
      → (length xs ≡ suc (length ys)) × (All P xs → P y × All P ys)
  picked P i xs y ys e = subst (Picked P xs) e (pick-Picked P i xs)

  pub picked-fewer :
      (i : ℕ) (xs : List A) (y : A) (ys : List A)
      → pick i xs ≡ some (y, ys)
      → length xs ≡ suc (length ys)
  picked-fewer i xs y ys e = let all : A → Type 0 = λ _. Unit in (picked all i xs y ys e).0

  -- A send that does not block.
  pub sent_to :
      (x : A) (channel channel' : List A)
      → send x channel ≡ some channel'
      → (channel' ≡ channel ++ (x ∷ [])) × (length channel' ≤ channel_capacity)
  unfolding send
  sent_to x channel channel' e = ground (arith, e, length-append channel (x ∷ []))

-- What a move leads to has a property.
abbrev pub Leads : {S Q : Type 0} → (Pipeline S Q → Type 0) → Option (Pipeline S Q) → Type 0
Leads P none = Unit
Leads P (some p) = P p

module _ {S E Q : Type 0} ⦃q : Quantities Q⦄ (m : Machine) (api : ApiServer S E Q)
    (P : Pipeline S Q → Type 0) where
  pub step-leads :
      (x : Move S Q) (p p' : Pipeline S Q)
      → Leads P (move m api x p)
      → step m api x p ≡ some p'
      → P p'
  unfolding step
  step-leads x p p' h e =
      let after : Leads P (step m api x p) = if_branch (Leads P) p.alive (λ _. h) (λ _. tt) in
      subst (Leads P) e after
