-- ===== src/Pipeline/Progress.antt =====
-- The workers of the pipeline wait for good in one situation only.
use kosmos_v.Prelude.{
  ◌+◌, ◌<◌, ◌≡◌, refl, ap, ◌⊎◌, inl, inr, true, Option, some, List, [], ◌∷◌, ◌++◌, arith,
}
use kosmos_v.Prelude.Tests.{ltb, lt→ltb}
use kosmos_v.Prelude.Branches.{if_branch, some_branch, cons_branch}
use kosmos_v.Prelude.Lists.{length}
use native.Mathlib.Decide.{dec_lt}
use kosmos_v.Quantity.{Quantities}
use kosmos_v.Float.{Machine}
use kosmos_v.NodeScales.{NodeScales}
use kosmos_v.ResourceUpdater.{ApiServer}
use kosmos_v.Pipeline.{
  Views, Proposal, Pending, Pipeline, channel_capacity, workers, Move, recommend, propose,
  solve_node, grant, take, update, requeue, elsewhere, pick, send, move_propose, move_solve,
  move_grant, move_take, move_update, move_requeue, move, step,
}
use kosmos_v.Pipeline.Bounds.{IsBounded}
use kosmos_v.Pipeline.Stuck.{IsStuck}

List-cases {ℓ} :
    {A : Type ℓ} (xs : List A) → (xs ≡ []) ⊎ ((x : A) × (rest : List A) × (xs ≡ x ∷ rest))
List-cases [] = inl refl
List-cases (x ∷ xs) = inr (x, xs, refl)

-- Nothing waits anywhere.
abbrev pub IsIdle : {S Q : Type 0} → Pipeline S Q → Type 0
IsIdle p =
    (p.recommending ≡ [])
    × (p.proposals ≡ [])
    × (p.solving ≡ [])
    × (p.grants ≡ [])
    × (p.updating ≡ [])
    × (p.requeuing ≡ [])

module _ {S E Q : Type 0} ⦃q : Quantities Q⦄ (m : Machine) (api : ApiServer S E Q)
    (v : Views Q) where
  -- What a worker does with a message that is there; it reads these caches.
  abbrev pub IsWork : Move S Q → Type 0
  IsWork (recommend v' node) = ⊥
  IsWork (elsewhere s) = ⊥
  IsWork (solve_node v') = v' ≡ v
  IsWork (update v' i) = v' ≡ v
  IsWork x = Unit

  abbrev LeadsOn : Option (Pipeline S Q) → Type 0
  LeadsOn o = (p' : Pipeline S Q) × (o ≡ some p')

  -- Some worker can go on.
  abbrev pub CanWork : Pipeline S Q → Type 0
  CanWork p = (x : Move S Q) × (p' : Pipeline S Q) × IsWork x × (step m api x p ≡ some p')

  module _ (p : Pipeline S Q) (alive : p.alive ≡ true) where
    goes_on : (x : Move S Q) → IsWork x → LeadsOn (move m api x p) → CanWork p
    unfolding step
    goes_on x work (p', e) =
        (x, p', work, if_branch (λ o. o ≡ some p') p.alive (λ _. e) (λ off. cc))

    first :
        {A : Type 0} {xs : List A} {x : A} {rest : List A}
        → xs ≡ x ∷ rest
        → pick 0 xs ≡ some (x, rest)
    unfolding pick
    first e = rw e refl

    roomy :
        {A : Type 0} (x : A) (channel : List A)
        → length channel < channel_capacity
        → send x channel ≡ some (channel ++ (x ∷ []))
    unfolding send
    roomy x channel less = let free = lt→ltb (length channel) channel_capacity less in rw free refl

    propose_goes_on :
        (x : Proposal Q) (rest : List (Proposal Q))
        → p.recommending ≡ x ∷ rest
        → length p.proposals < channel_capacity
        → CanWork p
    unfolding move move_propose
    propose_goes_on x rest e room = goes_on (propose 0) tt (
        some_branch LeadsOn _ _ (x, rest) (first e)
          (some_branch LeadsOn _ _ _ (roomy x p.proposals room) (_, refl)))

    grant_goes_on :
        (x : NodeScales Q) (rest : List (NodeScales Q))
        → p.solving ≡ x ∷ rest
        → length p.grants < channel_capacity
        → CanWork p
    unfolding move move_grant
    grant_goes_on x rest e room = goes_on (grant 0) tt (
        some_branch LeadsOn _ _ (x, rest) (first e)
          (some_branch LeadsOn _ _ _ (roomy x p.grants room) (_, refl)))

    requeue_goes_on :
        (x : NodeScales Q) (rest : List (NodeScales Q))
        → p.requeuing ≡ x ∷ rest
        → length p.grants < channel_capacity
        → CanWork p
    unfolding move move_requeue
    requeue_goes_on x rest e room = goes_on (requeue 0) tt (
        some_branch LeadsOn _ _ (x, rest) (first e)
          (some_branch LeadsOn _ _ _ (roomy x p.grants room) (_, refl)))

    solve_goes_on :
        (x : Proposal Q) (rest : List (Proposal Q))
        → p.proposals ≡ x ∷ rest
        → p.solving ≡ []
        → CanWork p
    unfolding move move_solve
    solve_goes_on (node, scales) rest e idle =
        let none_held = ap length idle in
        let free = lt→ltb (length p.solving) workers (omega (arith, none_held)) in
        goes_on (solve_node v) refl (
          if_branch LeadsOn (ltb (length p.solving) workers)
            (λ _. cons_branch LeadsOn _ _ p.proposals (node, scales) rest e (_, refl)) (λ off. cc))

    take_goes_on :
        (x : NodeScales Q) (rest : List (NodeScales Q))
        → p.grants ≡ x ∷ rest
        → length p.updating + length p.requeuing < workers
        → CanWork p
    unfolding move move_take
    take_goes_on x rest e less =
        let free = lt→ltb (length p.updating + length p.requeuing) workers less in
        goes_on take tt (
          if_branch LeadsOn (ltb (length p.updating + length p.requeuing) workers)
            (λ _. cons_branch LeadsOn _ _ p.grants x rest e (_, refl)) (λ off. cc))

    update_goes_on : (x : Pending Q) (rest : List (Pending Q)) → p.updating ≡ x ∷ rest → CanWork p
    unfolding move move_update
    update_goes_on x rest e =
        goes_on (update v 0) refl (some_branch LeadsOn _ _ (x, rest) (first e) (_, refl))

    -- The updater puts a message back, or takes one off the full channel, or is stuck.
    updater_goes_on :
        (x : NodeScales Q) (rest : List (NodeScales Q))
        → IsBounded p
        → p.updating ≡ []
        → p.requeuing ≡ x ∷ rest
        → IsStuck p ⊎ CanWork p
    updater_goes_on x rest (_, grants, _, _, updating) idle e =
        let none_held = ap length idle in
        elim (dec_lt (length p.grants) channel_capacity) [
          | yes room ↦ inr (requeue_goes_on x rest e room)
          | no full ↦ elim (dec_lt (length p.requeuing) workers) [
            | no all_wait ↦ inl (omega arith, idle, omega (arith, none_held))
            | yes less ↦ elim (List-cases p.grants) [
              | inl empty ↦ let none_wait = ap length empty in absurd (omega (arith, none_wait))
              | inr (ns, others, is_first) ↦
                  inr (take_goes_on ns others is_first (omega (arith, none_held)))
            ]
          ]
        ]

    -- The updater has nothing in hand.
    others_go_on : IsBounded p → p.updating ≡ [] → p.requeuing ≡ [] → IsIdle p ⊎ CanWork p
    others_go_on bounded idle none_back =
        let no_update = ap length idle in
        let no_requeue = ap length none_back in
        elim (List-cases p.grants) [
          | inr (ns, rest, e) ↦ inr (take_goes_on ns rest e (omega (arith, no_update, no_requeue)))
          | inl no_grants ↦ elim (List-cases p.solving) [
            | inr (ns, rest, e) ↦
                let none_wait = ap length no_grants in
                inr (grant_goes_on ns rest e (omega (arith, none_wait)))
            | inl no_solving ↦ elim (List-cases p.proposals) [
              | inr (x, rest, e) ↦ inr (solve_goes_on x rest e no_solving)
              | inl no_proposals ↦ elim (List-cases p.recommending) [
                | inr (x, rest, e) ↦
                    let none_wait = ap length no_proposals in
                    inr (propose_goes_on x rest e (omega (arith, none_wait)))
                | inl none_left ↦
                    inl (none_left, no_proposals, no_solving, no_grants, idle, none_back)
              ]
            ]
          ]
        ]

    -- While the process runs, and the channels and the workers are within their bounds, which they
    -- always are: some worker can go on with a message, whatever the caches show, unless no message
    -- is anywhere, or the channel into the updater is full and each of its workers is about to put
    -- its message back. No other deadlock is possible.
    pub progress : IsBounded p → IsIdle p ⊎ IsStuck p ⊎ CanWork p
    progress bounded = elim (List-cases p.updating) [
      | inr (x, rest, e) ↦ inr (inr (update_goes_on x rest e))
      | inl idle ↦ elim (List-cases p.requeuing) [
        | inr (x, rest, e) ↦ inr (updater_goes_on x rest bounded idle e)
        | inl none_back ↦ elim (others_go_on bounded idle none_back) [
          | inl nothing ↦ inl nothing
          | inr works ↦ inr (inr works)
        ]
      ]
    ]
