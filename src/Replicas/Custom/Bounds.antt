-- ===== src/Replicas/Custom/Bounds.antt =====
-- What `CustomLogic.computeReplica` may answer, and over a sequence of calls.
use kosmos_v.Prelude.{refl, inl, inr, String, Option, List, [], ◌∷◌, arith}
use kosmos_v.Prelude.Tests.{Bool-cases, Option-cases}
use kosmos_v.Prelude.Int.{ℤ}
use kosmos_v.Prelude.Lists.{All}
use kosmos_v.Quantity.{Quantities}
use kosmos_v.Float.{Machine, of_int}
use kosmos_v.Float.Order.{IsIeee}
use kosmos_v.Float.Clamp.{clamp_bounds}
use kosmos_v.Replicas.{Clock, is_stabilizing}
use kosmos_v.Replicas.Machine.{Round, Spaced}
use kosmos_v.Replicas.Hpa.Bounds.{HasLimits, IsChange, advance-IsChange}
use kosmos_v.Replicas.Custom.{CustomLogic, count_saturated, propose_fewer, compute_replica}
use kosmos_v.Api.{Pod, Node, PodScale, ServiceLevelAgreement}

-- The surroundings of one call of `computeReplica`.
pub record Call (Q : Type 0) : Type 0 where
  pub sla : ServiceLevelAgreement Q
  pub scales : List (PodScale Q)
  pub find_node : String → Option (Node Q)
  pub pods_of : String → Option (List (Pod Q))
  pub answer : Option Q
  pub clock : Clock
  pub cur : ℤ

module _ {Q : Type 0} ⦃q : Quantities Q⦄ (m : Machine) where
  abbrev pub answer_call : Call Q → CustomLogic → ℤ × CustomLogic
  answer_call c l = compute_replica m c.find_node c.pods_of c.sla c.scales c.answer c.clock c.cur l

  -- Successive calls on one logic, as rounds.
  unfoldable pub run : CustomLogic → List (Call Q) → List Round
  run l [] = []
  run l (c ∷ cs) =
      let (r, l') = answer_call c l in
      record { clock = c.clock; before = c.cur; after = r } ∷ run l' cs

  -- On a machine with IEEE 754 floats, for an agreement with ordered limits of 32 bits, `CustomLogic`
  -- answers the replicas that are there and keeps the time of the last change, or it changes both:
  -- then the stabilization period is over, the machine was scaling in this direction for longer than
  -- its period, the answer is within the limits, and the machine is steady and counts the next
  -- stabilization period from now.
  pub custom_compute_replica-IsChange :
      (c : Call Q) (l : CustomLogic)
      → IsIeee m
      → HasLimits c.sla
      → let (r, l') = answer_call c l in IsChange c.sla c.clock c.cur l.timers (r, l'.timers)
  unfolding compute_replica
  custom_compute_replica-IsChange c l ieee (a, b, order) =
      let counted = count_saturated m c.find_node c.pods_of l.early_stop c.cur c.scales in
      elim (Bool-cases (is_stabilizing c.clock l.timers)) [
        | inl waits ↦ rw waits (inl (refl, refl))
        | inr over ↦
            rw over
              (elim (Option-cases
                (propose_fewer m c.find_node c.pods_of c.sla c.answer c.cur counted)) [
                  | inl failed ↦ rw failed (inl (refl, refl))
                  | inr (n, e) ↦ rw e (
                      advance-IsChange m ieee c.sla c.clock l.timers c.cur _
                        (clamp_bounds m c.sla.spec.min_replicas c.sla.spec.max_replicas (of_int m n)
                          ieee a b order (λ x. cc))
                        over)
                ])
      ]

  -- All calls are made for agreements with ordered limits.
  abbrev pub AllLimited : List (Call Q) → Type 0
  AllLimited = All (λ c. HasLimits c.sla)

  -- On a machine with IEEE 754 floats, for calls whose agreements have ordered limits of 32 bits:
  -- however the metrics, nodes and pods change between the calls, two changes of the replicas are a
  -- stabilization period apart, and so is the first one from the time that the logic starts with.
  pub run-Spaced :
      (cs : List (Call Q)) (l : CustomLogic)
      → IsIeee m
      → AllLimited cs
      → Spaced l.timers.stabilize_time (run l cs)
  unfolding run
  run-Spaced [] l ieee h = tt
  run-Spaced (c ∷ cs) l ieee (h, hs) =
      let (r, l') = answer_call c l in
      let rest = run-Spaced cs l' ieee hs in
      elim (custom_compute_replica-IsChange c l ieee h) [
        | inl (same, kept) ↦ inl (same, rw kept at rest)
        | inr (over, _, _, _, now) ↦ inr (omega arith, rw now at rest)
      ]
