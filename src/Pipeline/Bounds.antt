-- ===== src/Pipeline/Bounds.antt =====
-- The channels are never over their capacity, and no controller has more messages in hand than workers.
use kosmos_v.Prelude.{
  ℕ, suc, ◌+◌, ◌≤◌, ◌<◌, String, ◌≡◌, refl, subst, ap, ◌∙◌, inl, inr, Bool, Option, List, [], ◌∷◌,
  ◌++◌, arith,
}
use kosmos_v.Prelude.Tests.{if◌then◌else◌, Bool-cases, ltb, ltb→lt}
use kosmos_v.Prelude.Branches.{if_branch, option_branch, list_branch}
use kosmos_v.Prelude.Lists.{length, length-append}
use kosmos_v.Quantity.{Quantities}
use kosmos_v.Float.{Machine}
use kosmos_v.Api.{PodScale}
use kosmos_v.NodeScales.{NodeScales}
use kosmos_v.Recommender.Loop.{recommend_node}
use kosmos_v.Contention.{NodeOutcome, returned, panicked, sent, process_node}
use kosmos_v.ResourceUpdater.{ApiServer, Worker, update_one}
use kosmos_v.ResourceUpdater.Atomic.{Requeued, update_one-Requeued}
use kosmos_v.Pipeline.{
  Views, Proposal, Pending, Pipeline, channel_capacity, workers, initial, Move, recommend, propose,
  solve_node, grant, take, update, requeue, elsewhere, pick, send, move_recommend, move_propose,
  after_node, move_solve, move_grant, move_take, after_scale, next_scale, move_update, move_requeue,
  move,
}
use kosmos_v.Pipeline.Moves.{picked-fewer, sent_to, Leads, step-leads}
use kosmos_v.Pipeline.Steps.{Reach, Reach-keeps}

-- The channels are within their capacity, and every message in hand is one worker's.
abbrev pub IsBounded : {S Q : Type 0} → Pipeline S Q → Type 0
IsBounded p =
    (length p.proposals ≤ channel_capacity)
    × (length p.grants ≤ channel_capacity)
    × (length p.recommending ≤ workers)
    × (length p.solving ≤ workers)
    × (length p.updating + length p.requeuing ≤ workers)

module _ {S E Q : Type 0} ⦃q : Quantities Q⦄ (m : Machine) (api : ApiServer S E Q) where
  abbrev Bounded : Option (Pipeline S Q) → Type 0
  Bounded o = Leads IsBounded o

  recommend-Bounded :
      (v : Views Q) (node : String) (p : Pipeline S Q)
      → IsBounded p
      → Bounded (move_recommend m api v node p)
  unfolding move_recommend
  recommend-Bounded v node p (proposals, grants, recommending, solving, updating) =
      if_branch Bounded (ltb (length p.recommending) workers)
        (λ free.
          let less = ltb→lt (length p.recommending) workers free in
          option_branch Bounded
            (recommend_node m v.find_pod v.find_sla v.pod_metrics v.scales_on node p.logics).0
            (λ _. (proposals, grants, recommending, solving, updating))
            (λ x _. (proposals, grants, omega (arith, less), solving, updating)))
        (λ _. tt)

  propose-Bounded : (i : ℕ) (p : Pipeline S Q) → IsBounded p → Bounded (move_propose m api i p)
  unfolding move_propose
  propose-Bounded i p (proposals, grants, recommending, solving, updating) =
      option_branch Bounded (pick i p.recommending) (λ _. tt)
        (λ (x, rest) is_picked.
          let fewer = picked-fewer i p.recommending x rest is_picked in
          option_branch Bounded (send x p.proposals) (λ _. tt)
            (λ channel is_sent.
              let few = (sent_to x p.proposals channel is_sent).1 in
              (few, grants, omega (arith, fewer, recommending), solving, updating)))

  after_node-IsBounded :
      (o : NodeOutcome Q) (rest : List (Proposal Q)) (p : Pipeline S Q)
      → length rest ≤ channel_capacity
      → length p.solving < workers
      → IsBounded p
      → IsBounded (after_node m api o rest p)
  after_node-IsBounded returned rest p less free
        (proposals, grants, recommending, solving, updating) =
      (less, grants, recommending, solving, updating)
  after_node-IsBounded panicked rest p less free
        (proposals, grants, recommending, solving, updating) =
      (less, grants, recommending, solving, updating)
  after_node-IsBounded (sent ns) rest p less free
        (proposals, grants, recommending, solving, updating) =
      (less, grants, recommending, omega (arith, free), updating)

  solve-Bounded : (v : Views Q) (p : Pipeline S Q) → IsBounded p → Bounded (move_solve m api v p)
  unfolding move_solve
  solve-Bounded v p h =
      if_branch Bounded (ltb (length p.solving) workers)
        (λ free.
          list_branch Bounded p.proposals (λ _. tt)
            (λ (node, scales) rest e.
              let shorter = ap length e in
              after_node-IsBounded (process_node m v.find_node v.pods_on node scales) rest p
                (omega (arith, shorter, h.0)) (ltb→lt (length p.solving) workers free) h))
        (λ _. tt)

  grant-Bounded : (i : ℕ) (p : Pipeline S Q) → IsBounded p → Bounded (move_grant m api i p)
  unfolding move_grant
  grant-Bounded i p (proposals, grants, recommending, solving, updating) =
      option_branch Bounded (pick i p.solving) (λ _. tt)
        (λ (x, rest) is_picked.
          let fewer = picked-fewer i p.solving x rest is_picked in
          option_branch Bounded (send x p.grants) (λ _. tt)
            (λ channel is_sent.
              let few = (sent_to x p.grants channel is_sent).1 in
              (proposals, few, recommending, omega (arith, fewer, solving), updating)))

  take-Bounded : (p : Pipeline S Q) → IsBounded p → Bounded (move_take m api p)
  unfolding move_take
  take-Bounded p (proposals, grants, recommending, solving, updating) =
      if_branch Bounded (ltb (length p.updating + length p.requeuing) workers)
        (λ free.
          let less = ltb→lt (length p.updating + length p.requeuing) workers free in
          list_branch Bounded p.grants (λ _. tt)
            (λ ns rest e.
              let shorter = ap length e in
              (
                proposals,
                omega (arith, shorter, grants),
                recommending,
                solving,
                omega (arith, less),
              )))
        (λ _. tt)

  -- A worker that puts its message back has no other in hand.
  after_scale-IsBounded :
      (ns : NodeScales Q) (scales : List (PodScale Q)) (rest : List (Pending Q)) (p : Pipeline S Q)
      (v : Views Q) (w : Worker S Q) (r : Worker S Q × Bool)
      → w.input ≡ []
      → Requeued api v.find_pod ns w r
      → suc (length rest) + length p.requeuing ≤ workers
      → IsBounded p
      → IsBounded (after_scale m api ns scales rest p r)
  after_scale-IsBounded ns scales rest p v w (w', goes_on) e requeued room
        (proposals, grants, recommending, solving, updating) =
      let few : length (if goes_on then (ns, scales) ∷ rest else rest)
            + length (w'.input ++ p.requeuing)
          ≤ workers =
        elim requeued [
          | inl same ↦
              let empty = ap length (same ∙ e) in
              elim (Bool-cases goes_on) [
                | inl on ↦ rw on (omega (arith, length-append w'.input p.requeuing, empty, room))
                | inr off ↦ rw off (omega (arith, length-append w'.input p.requeuing, empty, room))
              ]
          | inr (back, off) ↦
              let one = ap length (subst (λ xs. w'.input ≡ xs ++ (ns ∷ [])) e back) in
              rw off (omega (arith, length-append w'.input p.requeuing, one, room))
        ] in
      (proposals, grants, recommending, solving, few)

  next_scale-IsBounded :
      (v : Views Q) (pending : Pending Q) (rest : List (Pending Q)) (p : Pipeline S Q)
      → length p.updating ≡ suc (length rest)
      → IsBounded p
      → IsBounded (next_scale m api v pending rest p)
  next_scale-IsBounded v (ns, []) rest p e (proposals, grants, recommending, solving, updating) =
      (proposals, grants, recommending, solving, omega (arith, e, updating))
  next_scale-IsBounded v (ns, scale ∷ scales) rest p e h =
      let w : Worker S Q = record { server = p.server; input = []; logged = p.logged } in
      after_scale-IsBounded ns scales rest p v w (update_one api v.find_pod ns scale w) refl
        (update_one-Requeued api v.find_pod ns scale w) (omega (arith, e, h.4)) h

  update-Bounded :
      (v : Views Q) (i : ℕ) (p : Pipeline S Q) → IsBounded p → Bounded (move_update m api v i p)
  unfolding move_update
  update-Bounded v i p h =
      option_branch Bounded (pick i p.updating) (λ _. tt)
        (λ (pending, rest) is_picked.
          next_scale-IsBounded v pending rest p (picked-fewer i p.updating pending rest is_picked)
            h)

  requeue-Bounded : (i : ℕ) (p : Pipeline S Q) → IsBounded p → Bounded (move_requeue m api i p)
  unfolding move_requeue
  requeue-Bounded i p (proposals, grants, recommending, solving, updating) =
      option_branch Bounded (pick i p.requeuing) (λ _. tt)
        (λ (x, rest) is_picked.
          let fewer = picked-fewer i p.requeuing x rest is_picked in
          option_branch Bounded (send x p.grants) (λ _. tt)
            (λ channel is_sent.
              let few = (sent_to x p.grants channel is_sent).1 in
              (proposals, few, recommending, solving, omega (arith, fewer, updating))))

  move-Bounded : (x : Move S Q) (p : Pipeline S Q) → IsBounded p → Bounded (move m api x p)
  unfolding move
  move-Bounded (recommend v node) p h = recommend-Bounded v node p h
  move-Bounded (propose i) p h = propose-Bounded i p h
  move-Bounded (solve_node v) p h = solve-Bounded v p h
  move-Bounded (grant i) p h = grant-Bounded i p h
  move-Bounded take p h = take-Bounded p h
  move-Bounded (update v i) p h = update-Bounded v i p h
  move-Bounded (requeue i) p h = requeue-Bounded i p h
  move-Bounded (elsewhere s) p h = h

  initial-IsBounded : (s : S) → IsBounded {S = S} {Q = Q} (initial s)
  initial-IsBounded s = (omega arith, omega arith, omega arith, omega arith, omega arith)

  -- Whatever the caches hold and others do to the server, in every state that the started pipeline
  -- reaches both channels are within their capacity of 10000 messages, and each controller has at most
  -- as many messages in hand as workers, those counted that wait to be put back.
  pub Reach-IsBounded :
      (Seen : Views Q → Type 0) (Others : S → S → Type 0) (s : S) (p : Pipeline S Q)
      → Reach m api Seen Others (initial s) p
      → IsBounded p
  Reach-IsBounded Seen Others s p reach =
      Reach-keeps m api Seen Others IsBounded
        (λ p p' x _ e h. step-leads m api IsBounded x p p' (move-Bounded x p h) e)
        (initial-IsBounded s) reach
