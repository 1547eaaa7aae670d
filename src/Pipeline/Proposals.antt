-- ===== src/Pipeline/Proposals.antt =====
-- The moves of the recommender and of the contention manager keep to the limits of the agreements.
use kosmos_v.Prelude.{
  ℕ, ◌*◌, ◌^◌, ◌≤◌, String, ◌≡◌, sym, subst, Option, none, some, List, [], ◌∷◌, arith,
}
use kosmos_v.Prelude.Tests.{ltb}
use kosmos_v.Prelude.Branches.{if_branch, option_branch, list_branch}
use kosmos_v.Prelude.Lists.{length, All, All-append}
use kosmos_v.Quantity.{Quantities, IsDecimal}
use kosmos_v.Float.{Machine}
use kosmos_v.Float.Order.{IsIeee}
use kosmos_v.Api.{PodScale, ServiceLevelAgreement}
use kosmos_v.Recommender.Loop.{recommend_node}
use kosmos_v.Recommender.Within.{
  limits_most, IsLimited, IsKeptIfAny, IsKeptMessage, recommend_node-IsKeptMessage,
}
use kosmos_v.Contention.{NodeOutcome, returned, panicked, sent, process_node}
use kosmos_v.Contention.Grants.{IsGrant}
use kosmos_v.Contention.Messages.{IsLimit, IfAny, IsGiven, process_node-IsGiven}
use kosmos_v.ResourceUpdater.{ApiServer}
use kosmos_v.Pipeline.{
  Views, Proposal, Pipeline, workers, pick, send, move_recommend, move_propose, after_node,
  move_solve, move_grant,
}
use kosmos_v.Pipeline.Permits.{
  IsGoodProposal, IsGoodGrant, IsSafe, IsProposed, IsProposedIfAny, IsPermitted, IsSound,
  KeepsPermitted,
}
use kosmos_v.Pipeline.Moves.{picked, sent_to, Leads}

module _ {S E Q : Type 0} ⦃q : Quantities Q⦄ (laws : IsDecimal Q) (m : Machine) (ieee : IsIeee m)
    (api : ApiServer S E Q) (Seen : Views Q → Type 0) (Others : S → S → Type 0) where
  module _ (most few : ℕ) (small : few * most ≤ 2 ^ 51) (sound : IsSound laws Seen most few)
      (Fine : S → Type 0) (keeps : KeepsPermitted laws api Seen Others Fine) where
    abbrev Safe : Option (Pipeline S Q) → Type 0
    Safe o = Leads (IsSafe laws Seen few Fine) o

    limited_at :
        (v : Views Q)
        → Seen v
        → (namespace name : String) (sla : ServiceLevelAgreement Q)
        → v.find_sla namespace name ≡ some sla
        → IsLimited laws most sla
    limited_at v seen namespace name sla e = sound.limited v namespace name sla seen e

    IsKept-IsProposed :
        (v : Views Q) (seen : Seen v) (scales : List (Option (PodScale Q)))
        → All
            (IsKeptIfAny laws m v.find_pod v.find_sla v.pod_metrics most (limited_at v seen))
            scales
        → All (IsProposedIfAny laws Seen) scales
    IsKept-IsProposed v seen [] h = tt
    IsKept-IsProposed v seen (none ∷ scales) (h, hs) = (tt, IsKept-IsProposed v seen scales hs)
    IsKept-IsProposed v seen (some p ∷ scales) ((sla, e, keeps_limits), hs) =
        ((v, sla, seen, e, keeps_limits), IsKept-IsProposed v seen scales hs)

    IsProposed-IsLimit : IsLimit laws (IsProposed laws Seen) most few
    IsProposed-IsLimit = record {
      ignores = λ p actual h. h;
      cpu_count = λ p (v, sla, seen, e, (cpu, memory)). cpu.0;
      memory_count = λ p (v, sla, seen, e, (cpu, memory)). memory.0;
      cpu_most = λ p (v, sla, seen, e, (cpu, memory)).
          let (most_cpu, _) = limits_most laws most sla (sound.limited v _ _ sla seen e) in
          omega (arith, most_cpu, cpu);
      memory_most = λ p (v, sla, seen, e, (cpu, memory)).
          let (_, most_memory) = limits_most laws most sla (sound.limited v _ _ sla seen e) in
          omega (arith, most_memory, memory);
    }

    IsGrant-IsPermitted :
        (ps : List (PodScale Q))
        → All (λ p. (IsProposed laws Seen) p × IsGrant p) ps
        → All (IsPermitted laws Seen) ps
    IsGrant-IsPermitted [] h = tt
    IsGrant-IsPermitted (p ∷ ps) (((v, sla, seen, e, (cpu, memory)), less), hs) = (
      (v, sla, seen, e, omega (arith, cpu, less), omega (arith, memory, less)),
      IsGrant-IsPermitted ps hs,
    )

    pub recommend-Safe :
        (v : Views Q) (node : String) (p : Pipeline S Q)
        → Seen v
        → (IsSafe laws Seen few Fine) p
        → Safe (move_recommend m api v node p)
    unfolding move_recommend
    recommend-Safe v node p seen
          (recommending, proposals, solving, grants, updating, requeuing, fine) =
        let kept =
          recommend_node-IsKeptMessage laws m v.find_pod v.find_sla v.pod_metrics most
            (limited_at v seen) v.scales_on few node p.logics
            (λ scales. sound.few_scales v node scales seen) in
        let answer =
          recommend_node m v.find_pod v.find_sla v.pod_metrics v.scales_on node p.logics in
        if_branch Safe (ltb (length p.recommending) workers)
          (λ _.
            option_branch Safe answer.0
              (λ _. (recommending, proposals, solving, grants, updating, requeuing, fine))
              (λ (node', scales) e.
                let (all, number) =
                  subst
                    (IsKeptMessage laws m v.find_pod v.find_sla v.pod_metrics most
                      (limited_at v seen) few)
                    e kept in
                (
                  ((IsKept-IsProposed v seen scales all, number), recommending),
                  proposals,
                  solving,
                  grants,
                  updating,
                  requeuing,
                  fine,
                )))
          (λ _. tt)

    pub propose-Safe :
        (i : ℕ) (p : Pipeline S Q) → (IsSafe laws Seen few Fine) p → Safe (move_propose m api i p)
    unfolding move_propose
    propose-Safe i p (recommending, proposals, solving, grants, updating, requeuing, fine) =
        option_branch Safe (pick i p.recommending) (λ _. tt)
          (λ (x, rest) is_picked.
            let (good, left) =
              (picked (IsGoodProposal laws Seen few Fine) i p.recommending x rest is_picked).1
                recommending in
            option_branch Safe (send x p.proposals) (λ _. tt)
              (λ channel is_sent.
                let e = (sent_to x p.proposals channel is_sent).0 in
                let all =
                  All-append (IsGoodProposal laws Seen few Fine) p.proposals (x ∷ []) proposals
                    (good, tt) in
                (
                  left,
                  subst (All (IsGoodProposal laws Seen few Fine)) (sym e) all,
                  solving,
                  grants,
                  updating,
                  requeuing,
                  fine,
                )))

    after_node-IsSafe :
        (o : NodeOutcome Q) (rest : List (Proposal Q)) (p : Pipeline S Q)
        → All (IsGoodProposal laws Seen few Fine) rest
        → IsGiven laws (IsProposed laws Seen) most few m ieee IsProposed-IsLimit small o
        → (IsSafe laws Seen few Fine) p
        → (IsSafe laws Seen few Fine) (after_node m api o rest p)
    after_node-IsSafe returned rest p good given
          (recommending, proposals, solving, grants, updating, requeuing, fine) =
        (recommending, good, solving, grants, updating, requeuing, fine)
    after_node-IsSafe panicked rest p good given
          (recommending, proposals, solving, grants, updating, requeuing, fine) =
        (recommending, good, solving, grants, updating, requeuing, fine)
    after_node-IsSafe (sent ns) rest p good given
          (recommending, proposals, solving, grants, updating, requeuing, fine) =
        (
          recommending,
          good,
          (IsGrant-IsPermitted ns.pod_scales given, solving),
          grants,
          updating,
          requeuing,
          fine,
        )

    IfAny-all :
        (scales : List (Option (PodScale Q)))
        → All (IsProposedIfAny laws Seen) scales
        → All (IfAny (IsProposed laws Seen) few) scales
    IfAny-all [] h = tt
    IfAny-all (none ∷ scales) (h, hs) = (tt, IfAny-all scales hs)
    IfAny-all (some p ∷ scales) (h, hs) = (h, IfAny-all scales hs)

    pub solve-Safe :
        (v : Views Q) (p : Pipeline S Q)
        → (IsSafe laws Seen few Fine) p
        → Safe (move_solve m api v p)
    unfolding move_solve
    solve-Safe v p h =
        if_branch Safe (ltb (length p.solving) workers)
          (λ _.
            list_branch Safe p.proposals (λ _. tt)
              (λ (node, scales) rest e.
                let ((all, number), good) = subst (All (IsGoodProposal laws Seen few Fine)) e h.1 in
                after_node-IsSafe (process_node m v.find_node v.pods_on node scales) rest p good
                  (process_node-IsGiven laws (IsProposed laws Seen) most few m ieee
                    IsProposed-IsLimit small v.find_node v.pods_on node scales
                    (IfAny-all scales all) number)
                  h))
          (λ _. tt)

    pub grant-Safe :
        (i : ℕ) (p : Pipeline S Q) → (IsSafe laws Seen few Fine) p → Safe (move_grant m api i p)
    unfolding move_grant
    grant-Safe i p (recommending, proposals, solving, grants, updating, requeuing, fine) =
        option_branch Safe (pick i p.solving) (λ _. tt)
          (λ (x, rest) is_picked.
            let (good, left) =
              (picked (IsGoodGrant laws Seen few Fine) i p.solving x rest is_picked).1 solving in
            option_branch Safe (send x p.grants) (λ _. tt)
              (λ channel is_sent.
                let e = (sent_to x p.grants channel is_sent).0 in
                let all =
                  All-append (IsGoodGrant laws Seen few Fine) p.grants (x ∷ []) grants (good, tt) in
                (
                  recommending,
                  proposals,
                  left,
                  subst (All (IsGoodGrant laws Seen few Fine)) (sym e) all,
                  updating,
                  requeuing,
                  fine,
                )))
