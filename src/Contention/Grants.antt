-- ===== src/Contention/Grants.antt =====
-- No pod is given more by `Solve` than its capped resources, whether the node is contended or not.
use kosmos_v.Prelude.{suc, ◌-◌, ◌^◌, ◌≤◌, ◌≡◌, ap, ◌∙◌, inl, inr, true, List, [], ◌∷◌, map, arith}
use kosmos_v.Prelude.Tests.{Bool-cases}
use kosmos_v.Prelude.Lists.{All}
use kosmos_v.Prelude.Int.{pos, pos_part, neg_part, ◌≤ℤ◌, not-ltb_ℤ→le, pos-pos_part}
use kosmos_v.Quantity.{Quantities, IsDecimal}
use kosmos_v.Quantity.Milli.{milli_value-new_milli_quantity}
use kosmos_v.Float.{Machine}
use kosmos_v.Float.Order.{IsIeee}
use kosmos_v.Api.{cpu_of, memory_of, PodScale}
use kosmos_v.Contention.{
  proportional, ContentionManager, is_one, sum_capped, capped_cpu, capped_memory, assign, settle,
  solve,
}
use kosmos_v.Contention.Solver.{proportional-le}
use kosmos_v.Contention.Fits.{count, total, IsCount, is_one_iff, sum_capped-IsCount, empty-IsCount}
use kosmos_v.Contention.Tracking.{IsNotNegative}
use kosmos_v.Contention.Remainder.{neg_part-zero}

module _ {Q : Type 0} ⦃q : Quantities Q⦄ where
  open q use {milli_value}

  -- The actual resources are no more than the capped ones.
  abbrev pub IsGrant : PodScale Q → Type 0
  IsGrant p =
      (count (cpu_of p.status.actual_resources) ≤ count (capped_cpu p))
      × (count (memory_of p.status.actual_resources) ≤ count (capped_memory p))

  module _ (laws : IsDecimal Q) where
    -- Whole thousandths that are not negative, with a total of at most 51 bits.
    pub record IsSmall (capped : PodScale Q → Q) (ps : List (PodScale Q)) : Type 0 where
      pub counts : All (λ p. IsCount laws (capped p)) ps
      pub total_small : total capped ps ≤ 2 ^ 51

    -- A value that is not negative and below a whole number of thousandths.
    below_whole :
        (desired capacity : Q)
        → is_one (q.cmp desired capacity) ≡ true
        → IsNotNegative capacity
        → IsCount laws desired
        → (milli_value capacity ≡ pos (count capacity))
          × (count capacity ≤ count desired)
          × (1 ≤ count desired)
    below_whole desired capacity contended left (whole, sign) =
        let less = (laws.cmp_iff desired capacity).0 ((is_one_iff _).0 contended) in
        let above = laws.milli_above capacity in
        let below = laws.milli_below capacity in
        let not_less = not-ltb_ℤ→le (q.sign capacity) (pos 0) left in
        let amount_left : pos 0 ≤ℤ laws.amount capacity =
          ground (arith, not_less, (laws.sign_iff capacity).1) in
        let none_below = neg_part-zero (milli_value capacity) (omega arith) in
        (pos-pos_part (milli_value capacity) none_below, omega arith, omega arith)

    module _ (m : Machine) (ieee : IsIeee m) (desired capacity : Q)
        (desired_is : IsCount laws desired) (small : count desired ≤ 2 ^ 51)
        (left : IsNotNegative capacity) where
      assign-le :
          (a : Q)
          → neg_part (milli_value a) ≡ 0
          → count a ≤ count desired
          → count (assign (proportional m) desired capacity a) ≤ count a
      unfolding assign
      assign-le a sign part_le = elim (Bool-cases (is_one (q.cmp desired capacity))) [
        | inr spare ↦
            let kept = ap pos_part (milli_value-new_milli_quantity laws (milli_value a)) in
            rw spare (omega (arith, kept))
        | inl contended ↦
            let (capacity_is, tight, positive) =
              below_whole desired capacity contended left desired_is in
            let whole = count desired - 1 in
            let (t, e, le) =
              proportional-le m ieee (count a) whole (count capacity) (omega arith) (omega arith)
                (omega arith) (omega arith) (omega arith) in
            let a_is = pos-pos_part (milli_value a) sign in
            let total_is : milli_value desired ≡ pos (suc whole) =
              pos-pos_part (milli_value desired) desired_is.1 ∙ ap pos (omega arith) in
            let given : proportional m (milli_value a) (milli_value desired) (milli_value capacity)
                ≡ pos t =
              cc in
            let kept =
              milli_value-new_milli_quantity laws
                (proportional m (milli_value a) (milli_value desired) (milli_value capacity)) in
            let is_t = ap pos_part (kept ∙ given) in rw contended (omega (arith, is_t, le))
      ]

      assign_all-le :
          (capped : PodScale Q → Q) (ps : List (PodScale Q))
          → All (λ p. IsCount laws (capped p)) ps
          → total capped ps ≤ count desired
          → All
              (λ p. count (assign (proportional m) desired capacity (capped p)) ≤ count (capped p))
              ps
      assign_all-le capped [] h le = tt
      assign_all-le capped (p ∷ ps) (h, hs) le =
          (assign-le (capped p) h.1 (omega arith), assign_all-le capped ps hs (omega arith))

    -- One resource of all pod scales of a manager.
    assigned-le :
        (m : Machine)
        → IsIeee m
        → (capped : PodScale Q → Q) (capacity : Q) (ps : List (PodScale Q)) → IsSmall capped ps
        → IsNotNegative capacity
        → All
            (λ p.
              count (assign (proportional m) (sum_capped capped q.empty ps) capacity (capped p))
              ≤ count (capped p))
            ps
    assigned-le m ieee capped capacity ps h left =
        let (start, zero_is) = empty-IsCount laws in
        let (sum_is, sum) = sum_capped-IsCount laws capped q.empty ps start h.counts in
        assign_all-le m ieee (sum_capped capped q.empty ps) capacity sum_is
          (omega (arith, sum, zero_is, h.total_small)) left capped ps h.counts
          (omega (arith, sum, zero_is))

    settle_all-IsGrant :
        (m : Machine) (cpu memory : Q) (cm : ContentionManager Q) (ps : List (PodScale Q))
        → All
            (λ p.
              count (assign (proportional m) cpu cm.cpu_capacity (capped_cpu p))
              ≤ count (capped_cpu p))
            ps
        → All
            (λ p.
              count (assign (proportional m) memory cm.memory_capacity (capped_memory p))
              ≤ count (capped_memory p))
            ps
        → All IsGrant (map (settle (proportional m) cpu memory cm) ps)
    unfolding settle
    settle_all-IsGrant m cpu memory cm [] h k = tt
    settle_all-IsGrant m cpu memory cm (p ∷ ps) (h, hs) (k, ks) =
        ((h, k), settle_all-IsGrant m cpu memory cm ps hs ks)

    -- On a machine with IEEE 754 floats, for capacities that are not negative and capped resources
    -- that are whole thousandths and not negative, with totals of at most 51 bits: no pod scale of
    -- `Solve` has more actual CPU than its capped CPU, or more actual memory than its capped memory,
    -- whether a resource is contended or not.
    pub solve-IsGrant :
        (m : Machine) (cm : ContentionManager Q)
        → IsIeee m
        → IsSmall capped_cpu cm.pod_scales
        → IsSmall capped_memory cm.pod_scales
        → IsNotNegative cm.cpu_capacity
        → IsNotNegative cm.memory_capacity
        → All IsGrant (solve (proportional m) cm)
    unfolding solve
    solve-IsGrant m cm ieee cpu memory cpu_left memory_left =
        settle_all-IsGrant m _ _ cm cm.pod_scales
          (assigned-le m ieee capped_cpu cm.cpu_capacity cm.pod_scales cpu cpu_left)
          (assigned-le m ieee capped_memory cm.memory_capacity cm.pod_scales memory memory_left)
