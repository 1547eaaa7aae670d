-- ===== src/Contention/Fits.antt =====
-- The actual resources that `Solve` gives out fit the node.
use native.Mathlib.Decide.{dec_le}
use mathlib.Core.Bool.{false≢true}
use kosmos_v.Prelude.{
  ℕ, suc, ◌+◌, ◌-◌, ◌*◌, ◌^◌, ◌≤◌, ◌<◌, ◌≡◌, refl, ap, sym, ◌∙◌, ◌↔◌, inl, inr, true, false, List,
  [], ◌∷◌, map, arith,
}
use kosmos_v.Prelude.Tests.{Bool-cases}
use kosmos_v.Prelude.Lists.{All}
use kosmos_v.Prelude.Int.{ℤ, pos, pos_part, neg_part, +ℤ_counts, pos-pos_part}
use kosmos_v.Quantity.{Quantities, IsDecimal}
use kosmos_v.Quantity.Milli.{
  IsMilli, milli_value-new_milli_quantity, milli_value-add, IsMilli-add, IsMilli-empty,
  milli_value-empty, cmp-IsMilli,
}
use kosmos_v.Float.{Machine}
use kosmos_v.Float.Order.{IsIeee, cancel}
use kosmos_v.Contention.{
  proportional, ContentionManager, is_one, sum_capped, capped_cpu, assign, settle, solve,
}
use kosmos_v.Contention.Solver.{proportional_exact}
use kosmos_v.Api.{cpu_of, PodScale}

pub is_one_iff : (z : ℤ) → (is_one z ≡ true) ↔ (z ≡ pos 1)
is_one_iff z = ground arith

module _ {Q : Type 0} ⦃q : Quantities Q⦄ where
  open q use {milli_value}

  -- A quantity in thousandths, for those that are not negative.
  abbrev pub count : Q → ℕ
  count a = pos_part (milli_value a)

  abbrev pub total {ℓ} : {A : Type ℓ} → (A → Q) → List A → ℕ
  total f [] = 0
  total f (x ∷ xs) = count (f x) + total f xs

  pub total-map {ℓ κ} :
      {A : Type ℓ} {B : Type κ} (f : B → Q) (g : A → B) (xs : List A)
      → total f (map g xs) ≡ total (λ x. f (g x)) xs
  total-map f g [] = refl
  total-map f g (x ∷ xs) = ap (λ n. count (f (g x)) + n) (total-map f g xs)

  module _ (laws : IsDecimal Q) where
    -- A whole number of thousandths that is not negative.
    abbrev pub IsCount : Q → Type 0
    IsCount a = IsMilli laws a × (neg_part (milli_value a) ≡ 0)

    pub add-IsCount :
        (a b : Q)
        → IsCount a
        → IsCount b
        → IsCount (q.add a b) × (count (q.add a b) ≡ count a + count b)
    add-IsCount a b (whole_a, pos_a) (whole_b, pos_b) =
        let (sign, sum) = +ℤ_counts (milli_value a) (milli_value b) pos_a pos_b in
        let e = milli_value-add laws a b whole_a whole_b in
        (
          (IsMilli-add laws a b whole_a whole_b, omega (arith, sign, ap neg_part e)),
          omega (arith, sum, ap pos_part e),
        )

    pub sum_capped-IsCount :
        (capped : PodScale Q → Q) (e : Q) (ps : List (PodScale Q))
        → IsCount e
        → All (λ p. IsCount (capped p)) ps
        → IsCount (sum_capped capped e ps)
          × (count (sum_capped capped e ps) ≡ count e + total capped ps)
    unfolding sum_capped
    sum_capped-IsCount capped e [] h hs = (h, omega arith)
    sum_capped-IsCount capped e (p ∷ ps) h (hp, hs) =
        let (here, sum) = add-IsCount e (capped p) h hp in
        let (rest, sums) = sum_capped-IsCount capped (q.add e (capped p)) ps here hs in
        (rest, omega (arith, sum, sums))

    pub empty-IsCount : IsCount q.empty × (count q.empty ≡ 0)
    empty-IsCount =
        let e = milli_value-empty laws in
        ((IsMilli-empty laws, omega (arith, ap neg_part e)), omega (arith, ap pos_part e))

    module _ (m : Machine) (ieee : IsIeee m) (capped : PodScale Q → Q) (capacity : Q) where
      -- Below the capacity every pod keeps its capped resources.
      assign-spare :
          (desired : Q) (ps : List (PodScale Q))
          → is_one (q.cmp desired capacity) ≡ false
          → total (λ p. assign (proportional m) desired capacity (capped p)) ps ≡ total capped ps
      unfolding assign
      assign-spare desired [] spare = refl
      assign-spare desired (p ∷ ps) spare =
          let here = milli_value-new_milli_quantity laws (milli_value (capped p)) in
          let rest = assign-spare desired ps spare in
          rw spare (rw here (omega (arith, rw spare at rest)))

      module _ (desired : Q) (contended : is_one (q.cmp desired capacity) ≡ true) (whole : ℕ)
          (total_is : milli_value desired ≡ pos (suc whole))
          (capacity_is : milli_value capacity ≡ pos (count capacity))
          (whole_exact : suc whole ≤ 2 ^ 53) (room_exact : count capacity ≤ 2 ^ 53)
          (small : suc whole * count capacity < 2 ^ 51) where
        assign_close :
            (a : Q)
            → neg_part (milli_value a) ≡ 0
            → count a ≤ suc whole
            → count (assign (proportional m) desired capacity a) * suc whole
              ≤ count a * count capacity
        unfolding assign
        assign_close a sign part_le =
            let (t, e, close) =
              proportional_exact m ieee (count a) whole (count capacity) part_le whole_exact
                room_exact small in
            let a_is = pos-pos_part (milli_value a) sign in
            let given : proportional m (milli_value a) (milli_value desired) (milli_value capacity)
                ≡ pos t =
              cc in
            let kept =
              milli_value-new_milli_quantity laws
                (proportional m (milli_value a) (milli_value desired) (milli_value capacity)) in
            let is_t : count (
                  q.new_milli_quantity
                    (proportional m (milli_value a) (milli_value desired) (milli_value capacity)))
                ≡ t =
              ap pos_part (kept ∙ given) in
            rw contended (rw is_t close)

        assign-contended :
            (ps : List (PodScale Q))
            → All (λ p. IsCount (capped p)) ps
            → total capped ps ≤ suc whole
            → total (λ p. assign (proportional m) desired capacity (capped p)) ps * suc whole
              ≤ total capped ps * count capacity
        assign-contended [] h le = omega arith
        assign-contended (p ∷ ps) (h, hs) le =
            omega (
              arith,
              assign_close (capped p) h.1 (omega arith),
              assign-contended ps hs (omega arith),
            )

    -- What the theorem asks of one resource of a node and its pod scales: whole thousandths that are
    -- not negative, and numbers whose product has at most 51 bits.
    pub record IsModest (capped : PodScale Q → Q) (capacity : Q) (ps : List (PodScale Q))
        : Type 0 where
      pub counts : All (λ p. IsCount (capped p)) ps
      pub capacity_count : IsCount capacity
      pub total_exact : total capped ps ≤ 2 ^ 53
      pub capacity_exact : count capacity ≤ 2 ^ 53
      pub product_small : total capped ps * count capacity < 2 ^ 51

    module _ (m : Machine) (capped : PodScale Q → Q) (capacity : Q) (ps : List (PodScale Q))
        (ieee : IsIeee m) (h : IsModest capped capacity ps) where
      abbrev desired : Q
      desired = sum_capped capped q.empty ps

      desired-IsCount : IsCount desired × (count desired ≡ total capped ps)
      desired-IsCount =
          let (start, zero_is) = empty-IsCount in
          let (desired_count, sum) = sum_capped-IsCount capped q.empty ps start h.counts in
          (desired_count, omega (arith, zero_is, sum))

      contended_iff : (is_one (q.cmp desired capacity) ≡ true) ↔ (count capacity < count desired)
      contended_iff =
          let order = cmp-IsMilli laws desired capacity desired-IsCount.0.0 h.capacity_count.0 in
          (
            λ e. omega (
              arith,
              order.0 ((is_one_iff (q.cmp desired capacity)).0 e),
              desired-IsCount.0.1,
              h.capacity_count.1,
            ),
            λ e.
                (is_one_iff (q.cmp desired capacity)).1
                  (order.1 (omega (arith, desired-IsCount.0.1, h.capacity_count.1))),
          )

      spare_fits : is_one (q.cmp desired capacity) ≡ false → total capped ps ≤ count capacity
      spare_fits spare = elim (dec_le (total capped ps) (count capacity)) [
        | yes le ↦ le
        | no gt ↦
            let e = contended_iff.1 (omega (arith, desired-IsCount.1)) in
            absurd (false≢true (sym spare ∙ e))
      ]

      contended_fits :
          is_one (q.cmp desired capacity) ≡ true
          → total (λ p. assign (proportional m) desired capacity (capped p)) ps ≤ count capacity
      contended_fits e =
          let less = contended_iff.0 e in
          let whole = count desired - 1 in
          let same : suc whole ≡ total capped ps = omega (arith, desired-IsCount.1) in
          let total_is : milli_value desired ≡ pos (suc whole) =
            pos-pos_part (milli_value desired) desired-IsCount.0.1 ∙ ap pos (omega arith) in
          let given =
            assign-contended m ieee capped capacity desired e whole total_is
              (pos-pos_part (milli_value capacity) h.capacity_count.1)
              (omega (arith, h.total_exact)) h.capacity_exact (rw same h.product_small) ps h.counts
              (omega arith) in
          cancel _ (count capacity) whole (omega (arith, rw (← same) at given))

      -- One resource: what is given out is at most the capacity, contended or not.
      assigned_fits :
          total (λ p. assign (proportional m) desired capacity (capped p)) ps ≤ count capacity
      assigned_fits = elim (Bool-cases (is_one (q.cmp desired capacity))) [
        | inr spare ↦ rw (assign-spare m ieee capped capacity desired ps spare) (spare_fits spare)
        | inl contended ↦ contended_fits contended
      ]

    -- On a machine with IEEE 754 floats, for a capacity and capped CPUs that are whole thousandths and
    -- not negative, and whose capacity and total in thousandths have at most 53 bits and a product
    -- below 2 ^ 51: whether the tracked pods ask for more than the node has or not, the CPU that
    -- `Solve` gives them with the proportional solver is in total at most the CPU of the node.
    pub solve_fits :
        (m : Machine) (cm : ContentionManager Q)
        → IsIeee m
        → IsModest capped_cpu cm.cpu_capacity cm.pod_scales
        → total (λ (p : PodScale Q). cpu_of p.status.actual_resources) (solve (proportional m) cm)
          ≤ count cm.cpu_capacity
    unfolding solve settle
    solve_fits m cm ieee h =
        rw total-map (assigned_fits m capped_cpu cm.cpu_capacity cm.pod_scales ieee h)
