-- ===== src/Pipeline/Writes.antt =====
-- From an agreement's upper limits to a container: what the resource updater writes. The lower
-- limits are no bound there: a contended node gives a pod less.
use kosmos_v.Prelude.{
  ℕ, ◌+◌, ◌*◌, ◌^◌, ◌≤◌, refl, sym, subst, inl, inr, Bool, Option, List, [], ◌∷◌, ◌++◌,
}
use kosmos_v.Prelude.Tests.{if◌then◌else◌, ltb}
use kosmos_v.Prelude.Branches.{if_branch, option_branch, list_branch}
use kosmos_v.Prelude.Lists.{length, All, All-append}
use kosmos_v.Quantity.{Quantities, IsDecimal}
use kosmos_v.Float.{Machine}
use kosmos_v.Float.Order.{IsIeee}
use kosmos_v.Api.{PodScale}
use kosmos_v.NodeScales.{NodeScales}
use kosmos_v.ResourceUpdater.{ApiServer, Worker, update_one}
use kosmos_v.Pipeline.{
  Views, Pending, Pipeline, workers, initial, Move, recommend, propose, solve_node, grant, take,
  update, requeue, elsewhere, pick, send, move_take, after_scale, next_scale, move_update,
  move_requeue, move,
}
use kosmos_v.Pipeline.Permits.{
  IsGoodGrant, IsGoodPending, IsSafe, IsSound, KeepsPermitted, FineAfter, update_one-FineAfter,
}
use kosmos_v.Pipeline.Proposals.{recommend-Safe, propose-Safe, solve-Safe, grant-Safe}
use kosmos_v.Pipeline.Moves.{picked, sent_to, Leads, step-leads}
use kosmos_v.Pipeline.Steps.{IsAllowed, Reach, Reach-keeps}

module _ {S E Q : Type 0} ⦃q : Quantities Q⦄ (laws : IsDecimal Q) (m : Machine) (ieee : IsIeee m)
    (api : ApiServer S E Q) (Seen : Views Q → Type 0) (Others : S → S → Type 0) where
  module _ (most few : ℕ) (small : few * most ≤ 2 ^ 51) (sound : IsSound laws Seen most few)
      (Fine : S → Type 0) (keeps : KeepsPermitted laws api Seen Others Fine) where
    abbrev Safe : Option (Pipeline S Q) → Type 0
    Safe o = Leads (IsSafe laws Seen few Fine) o

    requeue-Safe :
        (i : ℕ) (p : Pipeline S Q) → (IsSafe laws Seen few Fine) p → Safe (move_requeue m api i p)
    unfolding move_requeue
    requeue-Safe i p (recommending, proposals, solving, grants, updating, requeuing, fine) =
        option_branch Safe (pick i p.requeuing) (λ _. tt)
          (λ (x, rest) is_picked.
            let (good, left) =
              (picked (IsGoodGrant laws Seen few Fine) i p.requeuing x rest is_picked).1
                requeuing in
            option_branch Safe (send x p.grants) (λ _. tt)
              (λ channel is_sent.
                let e = (sent_to x p.grants channel is_sent).0 in
                let all =
                  All-append (IsGoodGrant laws Seen few Fine) p.grants (x ∷ []) grants (good, tt) in
                (
                  recommending,
                  proposals,
                  solving,
                  subst (All (IsGoodGrant laws Seen few Fine)) (sym e) all,
                  updating,
                  left,
                  fine,
                )))

    take-Safe : (p : Pipeline S Q) → (IsSafe laws Seen few Fine) p → Safe (move_take m api p)
    unfolding move_take
    take-Safe p (recommending, proposals, solving, grants, updating, requeuing, fine) =
        if_branch Safe (ltb (length p.updating + length p.requeuing) workers)
          (λ _.
            list_branch Safe p.grants (λ _. tt)
              (λ ns rest e.
                let (good, left) = subst (All (IsGoodGrant laws Seen few Fine)) e grants in
                (
                  recommending,
                  proposals,
                  solving,
                  left,
                  ((good, good), updating),
                  requeuing,
                  fine,
                )))
          (λ _. tt)

    after_scale-IsSafe :
        (ns : NodeScales Q) (scales : List (PodScale Q)) (rest : List (Pending Q))
        (p : Pipeline S Q) (r : Worker S Q × Bool)
        → (IsGoodPending laws Seen few Fine) (ns, scales)
        → All (IsGoodPending laws Seen few Fine) rest
        → FineAfter laws api Seen Others Fine keeps ns r
        → (IsSafe laws Seen few Fine) p
        → (IsSafe laws Seen few Fine) (after_scale m api ns scales rest p r)
    after_scale-IsSafe ns scales rest p (w, goes_on) good others (still, back)
          (recommending, proposals, solving, grants, updating, requeuing, fine) =
        let waiting : All (IsGoodGrant laws Seen few Fine) (w.input ++ p.requeuing) = elim back [
          | inl none_back ↦
              subst (λ xs. All (IsGoodGrant laws Seen few Fine) (xs ++ p.requeuing)) (sym none_back)
                requeuing
          | inr one ↦
              subst (λ xs. All (IsGoodGrant laws Seen few Fine) (xs ++ p.requeuing)) (sym one)
                (good.0, requeuing)
        ] in
        let held : All (IsGoodPending laws Seen few Fine)
            (if goes_on then (ns, scales) ∷ rest else rest) =
          if_branch (All (IsGoodPending laws Seen few Fine)) goes_on (λ _. (good, others))
            (λ _. others) in
        (recommending, proposals, solving, grants, held, waiting, still)

    next_scale-IsSafe :
        (v : Views Q) (pending : Pending Q) (rest : List (Pending Q)) (p : Pipeline S Q)
        → (IsGoodPending laws Seen few Fine) pending
        → All (IsGoodPending laws Seen few Fine) rest
        → (IsSafe laws Seen few Fine) p
        → (IsSafe laws Seen few Fine) (next_scale m api v pending rest p)
    next_scale-IsSafe v (ns, []) rest p good others
          (recommending, proposals, solving, grants, updating, requeuing, fine) =
        (recommending, proposals, solving, grants, others, requeuing, fine)
    next_scale-IsSafe v (ns, scale ∷ scales) rest p (good, (permitted, goods)) others h =
        let w : Worker S Q = record { server = p.server; input = []; logged = p.logged } in
        after_scale-IsSafe ns scales rest p (update_one api v.find_pod ns scale w) (good, goods)
          others
          (update_one-FineAfter laws api Seen Others Fine keeps v ns scale w refl permitted h.6) h

    update-Safe :
        (v : Views Q) (i : ℕ) (p : Pipeline S Q)
        → (IsSafe laws Seen few Fine) p
        → Safe (move_update m api v i p)
    unfolding move_update
    update-Safe v i p h =
        option_branch Safe (pick i p.updating) (λ _. tt)
          (λ (pending, rest) is_picked.
            let (good, others) =
              (picked (IsGoodPending laws Seen few Fine) i p.updating pending rest is_picked).1
                h.4 in
            next_scale-IsSafe v pending rest p good others h)

    move-Safe :
        (x : Move S Q) (p : Pipeline S Q)
        → IsAllowed m api Seen Others p x
        → (IsSafe laws Seen few Fine) p
        → Safe (move m api x p)
    unfolding move
    move-Safe (recommend v node) p seen h =
        recommend-Safe laws m ieee api Seen Others most few small sound Fine keeps v node p seen h
    move-Safe (propose i) p _ h =
        propose-Safe laws m ieee api Seen Others most few small sound Fine keeps i p h
    move-Safe (solve_node v) p seen h =
        solve-Safe laws m ieee api Seen Others most few small sound Fine keeps v p h
    move-Safe (grant i) p _ h =
        grant-Safe laws m ieee api Seen Others most few small sound Fine keeps i p h
    move-Safe take p _ h = take-Safe p h
    move-Safe (update v i) p seen h = update-Safe v i p h
    move-Safe (requeue i) p _ h = requeue-Safe i p h
    move-Safe (elsewhere s) p allowed
          (recommending, proposals, solving, grants, updating, requeuing, fine) =
        (
          recommending,
          proposals,
          solving,
          grants,
          updating,
          requeuing,
          keeps.others_kept p.server s allowed fine,
        )

    -- On a machine with IEEE 754 floats, where all agreements that the caches show set limits in whole
    -- thousandths, in order and with room for the pods of a node in 51 bits: what the server keeps under
    -- writes of pod scales, and of pods resized by them, whose actual resources are no more than the
    -- upper limits of an agreement of their name that was seen, and what others keep, holds in every
    -- state that the started pipeline reaches. So the resource updater writes no more than an
    -- agreement's `MaxResources` allow, in whatever order the workers move.
    pub Reach-Permitted :
        (s : S) (p : Pipeline S Q) → Fine s → Reach m api Seen Others (initial s) p → Fine p.server
    Reach-Permitted s p h reach =
        (Reach-keeps m api Seen Others (IsSafe laws Seen few Fine)
          (λ p p' x allowed e safe.
            step-leads m api (IsSafe laws Seen few Fine) x p p' (move-Safe x p allowed safe) e)
          (tt, tt, tt, tt, tt, tt, h) reach).6
