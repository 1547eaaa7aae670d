-- ===== src/Quantity.antt =====
-- `resource.Quantity` of k8s.io/apimachinery, which the repository calls and does not contain: a
-- record of the operations that the code uses, for any type of quantities, and the documented
-- laws that the theorems take as hypotheses. `amount` is the exact value in units of 10⁻⁹, the
-- finest that the package keeps.
pub mod Milli
pub mod Thousandths
use kosmos_v.Prelude.{ℕ, ◌+◌, ◌*◌, ◌≤◌, ◌<◌, ◌≡◌, ◌↔◌}
use kosmos_v.Prelude.Int.{ℤ, pos, pos_part, neg_part, ◌+ℤ◌, ◌-ℤ◌, ◌<ℤ◌}

pub record Quantities (Q : Type 0) : Type 0 where
  pub empty : Q
  pub add : Q → Q → Q
  pub neg : Q → Q
  pub sign : Q → ℤ
  pub cmp : Q → Q → ℤ
  pub milli_value : Q → ℤ
  pub value : Q → ℤ
  pub new_milli_quantity : ℤ → Q
  pub new_quantity : ℤ → Q

abbrev pub nanos_per_milli : ℕ
nanos_per_milli = 1_000_000

pub record IsDecimal (Q : Type 0) ⦃q : Quantities Q⦄ : Type 0 where
  pub amount : Q → ℤ
  pub amount-empty : amount q.empty ≡ pos 0
  pub amount-add : (a b : Q) → amount (q.add a b) ≡ amount a +ℤ amount b
  pub amount-neg : (a : Q) → amount (q.neg a) ≡ pos 0 -ℤ amount a
  pub sign_iff : (a : Q) → (q.sign a <ℤ pos 0) ↔ (amount a <ℤ pos 0)
  pub cmp_iff : (a b : Q) → (q.cmp a b ≡ pos 1) ↔ (amount b <ℤ amount a)
  -- `MilliValue` rounds up.
  pub milli_above :
      (a : Q)
      → pos_part (amount a) + nanos_per_milli * neg_part (q.milli_value a)
        ≤ nanos_per_milli * pos_part (q.milli_value a) + neg_part (amount a)
  pub milli_below :
      (a : Q)
      → nanos_per_milli * pos_part (q.milli_value a) + neg_part (amount a)
        < pos_part (amount a) + nanos_per_milli * neg_part (q.milli_value a) + nanos_per_milli
  pub amount-new_milli_quantity :
      (z : ℤ)
      → nanos_per_milli * pos_part z + neg_part (amount (q.new_milli_quantity z))
        ≡ pos_part (amount (q.new_milli_quantity z)) + nanos_per_milli * neg_part z
