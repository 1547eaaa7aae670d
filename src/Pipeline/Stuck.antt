-- ===== src/Pipeline/Stuck.antt =====
-- The updater's workers put a message back on the channel that only they read.
use kosmos_v.Prelude.{ℕ, ◌+◌, ◌≡◌, refl, ap, ◌∙◌, false, Option, none, some, List, [], arith}
use kosmos_v.Prelude.Tests.{ltb, ltb→lt}
use kosmos_v.Prelude.Branches.{if_branch, option_branch, list_branch}
use kosmos_v.Prelude.Lists.{length}
use kosmos_v.Quantity.{Quantities}
use kosmos_v.Float.{Machine}
use kosmos_v.NodeScales.{NodeScales}
use kosmos_v.Recommender.Loop.{recommend_node}
use kosmos_v.Contention.{NodeOutcome, returned, panicked, sent, process_node}
use kosmos_v.ResourceUpdater.{ApiServer}
use kosmos_v.Pipeline.{
  Views, Proposal, Pipeline, channel_capacity, workers, Move, recommend, propose, solve_node, grant,
  take, update, requeue, elsewhere, pick, send, move_recommend, move_propose, after_node,
  move_solve, move_grant, move_take, move_update, move_requeue, move,
}
use kosmos_v.Pipeline.Moves.{picked-fewer, Leads, step-leads}
use kosmos_v.Pipeline.Steps.{Reach, Reach-keeps}

-- The channel is full, and every worker of the updater is about to put its message back.
abbrev pub IsStuck : {S Q : Type 0} → Pipeline S Q → Type 0
IsStuck p =
    (length p.grants ≡ channel_capacity) × (p.updating ≡ []) × (length p.requeuing ≡ workers)

-- The updater's side of the pipeline is as it was.
abbrev pub IsAsBefore : {S Q : Type 0} → Pipeline S Q → Pipeline S Q → Type 0
IsAsBefore p p' =
    (p'.grants ≡ p.grants)
    × (p'.updating ≡ p.updating)
    × (p'.requeuing ≡ p.requeuing)
    × (p'.logged ≡ p.logged)

send-full :
    {A : Type 0} (x : A) (channel : List A)
    → length channel ≡ channel_capacity
    → send x channel ≡ none
unfolding send
send-full x channel e =
    let full : ltb (length channel) channel_capacity ≡ false = rw e refl in rw full refl

module _ {S E Q : Type 0} ⦃q : Quantities Q⦄ (m : Machine) (api : ApiServer S E Q)
    (p : Pipeline S Q) (stuck : IsStuck p) where
  abbrev Same : Option (Pipeline S Q) → Type 0
  Same o = Leads (IsAsBefore p) o

  -- A worker of either controller that writes the channel finds it full.
  blocked :
      (i : ℕ) (held : List (NodeScales Q)) (p' : Pipeline S Q)
      (f : List (NodeScales Q) → List (NodeScales Q) → Pipeline S Q)
      → IsAsBefore p p'
      → Same (elim (pick i held) [
        | none ↦ none
        | some (x, rest) ↦ elim (send x p'.grants) [
          | none ↦ none
          | some channel ↦ some (f rest channel)
        ]
      ])
  blocked i held p' f (grants, updating, requeuing, logged) =
      option_branch Same (pick i held) (λ _. tt)
        (λ (x, rest) _.
          option_branch Same (send x p'.grants) (λ _. tt)
            (λ channel is_sent.
              let full = send-full x p'.grants (ap length grants ∙ stuck.0) in cc))

  after_node-same :
      (o : NodeOutcome Q) (rest : List (Proposal Q)) (p' : Pipeline S Q)
      → IsAsBefore p p'
      → IsAsBefore p (after_node m api o rest p')
  after_node-same returned rest p' h = h
  after_node-same panicked rest p' h = h
  after_node-same (sent ns) rest p' h = h

  move-Same : (x : Move S Q) (p' : Pipeline S Q) → IsAsBefore p p' → Same (move m api x p')
  unfolding move move_recommend move_propose move_solve move_grant move_take move_update
      move_requeue
  move-Same (recommend v node) p' h =
      if_branch Same (ltb (length p'.recommending) workers)
        (λ _.
          option_branch Same
            (recommend_node m v.find_pod v.find_sla v.pod_metrics v.scales_on node p'.logics).0
            (λ _. h) (λ x _. h))
        (λ _. tt)
  move-Same (propose i) p' h =
      option_branch Same (pick i p'.recommending) (λ _. tt)
        (λ (x, rest) _. option_branch Same (send x p'.proposals) (λ _. tt) (λ channel _. h))
  move-Same (solve_node v) p' h =
      if_branch Same (ltb (length p'.solving) workers)
        (λ _.
          list_branch Same p'.proposals (λ _. tt)
            (λ (node, scales) rest e.
              after_node-same (process_node m v.find_node v.pods_on node scales) rest p' h))
        (λ _. tt)
  move-Same (grant i) p' h = blocked i p'.solving p' _ h
  move-Same take p' (grants, updating, requeuing, logged) =
      if_branch Same (ltb (length p'.updating + length p'.requeuing) workers)
        (λ free.
          let none_held = ap length (updating ∙ stuck.1) in
          let all_wait = ap length requeuing in
          let less = ltb→lt (length p'.updating + length p'.requeuing) workers free in
          absurd (omega (arith, none_held, all_wait, less, stuck)))
        (λ _. tt)
  move-Same (update v i) p' (grants, updating, requeuing, logged) =
      option_branch Same (pick i p'.updating) (λ _. tt)
        (λ (pending, rest) e.
          let none_held = ap length (updating ∙ stuck.1) in
          absurd (omega (arith, none_held, picked-fewer i p'.updating pending rest e)))
  move-Same (requeue i) p' h = blocked i p'.requeuing p' _ h
  move-Same (elsewhere s) p' h = h

  -- Once the channel into the updater is full and each of its workers is about to put its message
  -- back, no move of anybody changes that: the channel, the workers and the log of the updater stay
  -- as they are in every state that is reached.
  pub stuck_stays :
      (Seen : Views Q → Type 0) (Others : S → S → Type 0) (p' : Pipeline S Q)
      → Reach m api Seen Others p p'
      → (p'.grants ≡ p.grants)
        × (p'.updating ≡ p.updating)
        × (p'.requeuing ≡ p.requeuing)
        × (p'.logged ≡ p.logged)
  stuck_stays Seen Others p' reach =
      Reach-keeps m api Seen Others (IsAsBefore p)
        (λ p1 p2 x _ e h. step-leads m api (IsAsBefore p) x p1 p2 (move-Same x p1 h) e)
        (refl, refl, refl, refl) reach
