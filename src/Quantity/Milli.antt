-- ===== src/Quantity/Milli.antt =====
-- What follows from the laws of quantities about whole thousandths, the unit of the planners.
use kosmos_v.Prelude.{◌+◌, ◌*◌, ◌≡◌, ap, ◌↔◌, arith}
use kosmos_v.Prelude.Int.{ℤ, pos, pos_part, neg_part, ◌+ℤ◌, ◌<ℤ◌, int_laws}
use kosmos_v.Quantity.{Quantities, IsDecimal, nanos_per_milli}

module _ {Q : Type 0} ⦃q : Quantities Q⦄ (laws : IsDecimal Q) where
  open q use {add, milli_value, new_milli_quantity, empty}
  open laws use {amount}

  -- The exact amount is a whole number of thousandths.
  abbrev pub IsMillis : Q → ℤ → Type 0
  IsMillis a z =
      nanos_per_milli * pos_part z + neg_part (amount a)
      ≡ pos_part (amount a) + nanos_per_milli * neg_part z

  abbrev pub IsMilli : Q → Type 0
  IsMilli a = IsMillis a (milli_value a)

  pub milli_value-IsMillis : (a : Q) (z : ℤ) → IsMillis a z → milli_value a ≡ z
  milli_value-IsMillis a z h = omega (int_laws, laws.milli_above a, laws.milli_below a)

  pub milli_value-new_milli_quantity : (z : ℤ) → milli_value (new_milli_quantity z) ≡ z
  milli_value-new_milli_quantity z =
      milli_value-IsMillis (new_milli_quantity z) z (laws.amount-new_milli_quantity z)

  pub IsMilli-new_milli_quantity : (z : ℤ) → IsMilli (new_milli_quantity z)
  IsMilli-new_milli_quantity z =
      rw (milli_value-new_milli_quantity z) (laws.amount-new_milli_quantity z)

  pub milli_value-empty : milli_value empty ≡ pos 0
  milli_value-empty = milli_value-IsMillis empty (pos 0) (rw laws.amount-empty (omega arith))

  add-IsMillis :
      (a b : Q) → IsMilli a → IsMilli b → IsMillis (add a b) (milli_value a +ℤ milli_value b)
  add-IsMillis a b h k =
      omega (int_laws, ap pos_part (laws.amount-add a b), ap neg_part (laws.amount-add a b))

  pub milli_value-add :
      (a b : Q) → IsMilli a → IsMilli b → milli_value (add a b) ≡ milli_value a +ℤ milli_value b
  milli_value-add a b h k = milli_value-IsMillis _ _ (add-IsMillis a b h k)

  pub IsMilli-add : (a b : Q) → IsMilli a → IsMilli b → IsMilli (add a b)
  IsMilli-add a b h k = rw (milli_value-add a b h k) (add-IsMillis a b h k)

  pub IsMilli-empty : IsMilli empty
  IsMilli-empty = rw (milli_value-empty, laws.amount-empty) (omega arith)

  -- On whole thousandths `Cmp` compares the values.
  pub cmp-IsMilli :
      (a b : Q) → IsMilli a → IsMilli b → (q.cmp a b ≡ pos 1) ↔ (milli_value b <ℤ milli_value a)
  cmp-IsMilli a b h k = (
    λ e. let less = (laws.cmp_iff a b).0 e in omega arith,
    λ e. (laws.cmp_iff a b).1 (omega arith),
  )
