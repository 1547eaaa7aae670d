-- ===== src/Replicas/Custom/Growth.antt =====
-- How many replicas one call of `CustomLogic.computeReplica` may add.
use kosmos_v.Prelude.{
  ℕ, suc, ◌≡◌, inl, inr, String, Bool, true, false, Option, some, List, [], ◌∷◌, arith,
}
use kosmos_v.Prelude.Tests.{Bool-cases, Option-cases}
use kosmos_v.Prelude.Int.{ℤ, pos, ◌+ℤ◌, ◌≤ℤ◌, +ℤ_parts}
use kosmos_v.Prelude.Lists.{length}
use kosmos_v.Quantity.{Quantities}
use kosmos_v.Float.{Machine, of_int, to_int, half_int32}
use kosmos_v.Float.Order.{IsIeee}
use kosmos_v.Float.Clamp.{clamp_limit, IsExact}
use kosmos_v.Replicas.{is_stabilizing}
use kosmos_v.Replicas.Machine.{advance-IsAdvance}
use kosmos_v.Replicas.Hpa.{between}
use kosmos_v.Replicas.Hpa.Bounds.{HasLimits}
use kosmos_v.Replicas.Custom.{
  CustomLogic, next_int32, count_saturated, propose_fewer, compute_replica,
}
use kosmos_v.Replicas.Custom.Bounds.{Call, answer_call}
use kosmos_v.Api.{Pod, Node, PodScale, ServiceLevelAgreement}

-- One replica with `earlyStop`, and else one for each pod scale.
abbrev pub budget {ℓ} : {A : Type ℓ} → Bool → List A → ℕ
budget true scales = 1
budget false scales = length scales

next_int32-le : (n : ℤ) → next_int32 n ≤ℤ n +ℤ pos 1
next_int32-le n = ground (arith, +ℤ_parts n (pos 1))

module _ {Q : Type 0} ⦃q : Quantities Q⦄ (m : Machine) where
  count_saturated-le :
      (find_node : String → Option (Node Q)) (pods_of : String → Option (List (Pod Q)))
      (early : Bool) (n : ℤ) (scales : List (PodScale Q))
      → count_saturated m find_node pods_of early n scales ≤ℤ n +ℤ pos (budget early scales)
  unfolding count_saturated
  count_saturated-le find_node pods_of true n [] = omega (arith, +ℤ_parts n (pos 1))
  count_saturated-le find_node pods_of false n [] = omega (arith, +ℤ_parts n (pos 0))
  count_saturated-le find_node pods_of true n (scale ∷ scales) = ground (
    arith,
    next_int32-le n,
    +ℤ_parts n (pos 1),
    count_saturated-le find_node pods_of true n scales,
  )
  count_saturated-le find_node pods_of false n (scale ∷ scales) = ground (
    arith,
    next_int32-le n,
    +ℤ_parts n (pos 1),
    +ℤ_parts n (pos (length scales)),
    +ℤ_parts n (pos (suc (length scales))),
    +ℤ_parts (next_int32 n) (pos (length scales)),
    count_saturated-le find_node pods_of false n scales,
    count_saturated-le find_node pods_of false (next_int32 n) scales,
  )

  propose_fewer-le :
      (find_node : String → Option (Node Q)) (pods_of : String → Option (List (Pod Q)))
      (sla : ServiceLevelAgreement Q) (answer : Option Q) (cur n : ℤ) {k : ℤ}
      → propose_fewer m find_node pods_of sla answer cur n ≡ some k
      → k ≤ℤ n
  unfolding propose_fewer
  propose_fewer-le find_node pods_of sla answer cur n e = ground arith

  -- On a machine with IEEE 754 floats, for an agreement with ordered limits of 32 bits: the answer of
  -- one call is at most every number of up to 53 bits that is not below the agreement's lower limit
  -- nor below the replicas that are there and one more with `earlyStop`, or as many more as there are
  -- pod scales without.
  pub compute_replica-limit :
      (c : Call Q) (l : CustomLogic) (b : ℤ)
      → IsIeee m
      → HasLimits c.sla
      → IsExact b
      → c.sla.spec.min_replicas ≤ℤ b
      → c.cur +ℤ pos (budget l.early_stop c.scales) ≤ℤ b
      → (answer_call m c l).0 ≤ℤ b
  unfolding compute_replica
  compute_replica-limit c l b ieee (in_lo, in_hi, order) exact low high =
      let counted = count_saturated m c.find_node c.pods_of l.early_stop c.cur c.scales in
      let bound = count_saturated-le c.find_node c.pods_of l.early_stop c.cur c.scales in
      let cur_le : c.cur ≤ℤ b =
        omega (arith, +ℤ_parts c.cur (pos (budget l.early_stop c.scales))) in
      elim (Bool-cases (is_stabilizing c.clock l.timers)) [
        | inl waits ↦ rw waits cur_le
        | inr over ↦
            rw over
              (elim (Option-cases
                (propose_fewer m c.find_node c.pods_of c.sla c.answer c.cur counted)) [
                  | inl failed ↦ rw failed cur_le
                  | inr (n, e) ↦
                      let n_le =
                        propose_fewer-le c.find_node c.pods_of c.sla c.answer c.cur counted e in
                      let limited =
                        clamp_limit m c.sla.spec.min_replicas c.sla.spec.max_replicas n b ieee in_lo
                          in_hi order low (omega arith) exact in
                      rw e (
                        ground (
                          arith,
                          limited,
                          cur_le,
                          advance-IsAdvance c.clock l.timers c.cur (
                              to_int m half_int32 (
                                between m c.sla.spec.min_replicas c.sla.spec.max_replicas
                                  (of_int m n))),
                        ))
                ])
      ]
