-- ===== src/Quantity/Thousandths.antt =====
-- Quantities that are whole thousandths: the laws of `Quantity` can be met, and tests can run.
use kosmos_v.Prelude.{ℕ, suc, ◌+◌, ◌*◌, ◌/◌, ◌≡◌, refl, ◌↔◌, arith}
use kosmos_v.Prelude.Tests.{if◌then◌else◌}
use kosmos_v.Prelude.Int.{ℤ, pos, negsuc, pos_part, neg_part, ◌+ℤ◌, ◌-ℤ◌, ◌<ℤ◌, ltb_ℤ, int_laws}
use kosmos_v.Quantity.{Quantities, IsDecimal, nanos_per_milli}

pub record Thousandths : Type 0 where
  pub count : ℤ

abbrev pub thousandths : ℤ → Thousandths
thousandths z = record { count = z }

unfoldable pub times : ℕ → ℤ → ℤ
times k (pos n) = pos (k * n)
times k (negsuc n) = pos 0 -ℤ pos (k * suc n)

abbrev pub compare_ℤ : ℤ → ℤ → ℤ
compare_ℤ a b = if ltb_ℤ b a then pos 1 else if ltb_ℤ a b then negsuc 0 else pos 0

instance abbrev pub thousandths_quantities : Quantities Thousandths
thousandths_quantities = record {
  empty = thousandths (pos 0);
  add = λ a b. thousandths (a.count +ℤ b.count);
  neg = λ a. thousandths (pos 0 -ℤ a.count);
  sign = λ a. compare_ℤ a.count (pos 0);
  cmp = λ a b. compare_ℤ a.count b.count;
  milli_value = λ a. a.count;
  value =
      λ a. elim a.count [ pos n ↦ pos ((n + 999) / 1000) | negsuc n ↦ pos 0 -ℤ pos (suc n / 1000) ];
  new_milli_quantity = thousandths;
  new_quantity = λ z. thousandths (times 1000 z);
}

times_parts :
    (z : ℤ)
    → nanos_per_milli * pos_part z + neg_part (times nanos_per_milli z)
      ≡ pos_part (times nanos_per_milli z) + nanos_per_milli * neg_part z
unfolding times
times_parts (pos n) = omega arith
times_parts (negsuc n) = omega int_laws

times-zero : times nanos_per_milli (pos 0) ≡ pos 0
unfolding times
times-zero = refl

less_iff : (a b : ℤ) → (b <ℤ a) ↔ (times nanos_per_milli b <ℤ times nanos_per_milli a)
less_iff a b = (
  λ h. omega (arith, times_parts a, times_parts b),
  λ h. omega (arith, times_parts a, times_parts b),
)

compare_ℤ_iff : (a b : ℤ) → (compare_ℤ a b ≡ pos 1) ↔ (b <ℤ a)
compare_ℤ_iff a b = ground arith

compare_ℤ-negative_iff : (a b : ℤ) → (compare_ℤ a b <ℤ pos 0) ↔ (a <ℤ b)
compare_ℤ-negative_iff a b = ground arith

chain_iff : {A B C : Type 0} → A ↔ B → B ↔ C → A ↔ C
chain_iff e f = (λ a. f.0 (e.0 a), λ c. e.1 (f.1 c))

pub Thousandths-IsDecimal : IsDecimal Thousandths
Thousandths-IsDecimal = record {
  amount = λ a. times nanos_per_milli a.count;
  amount-empty = times-zero;
  amount-add = λ a b.
      omega (int_laws, times_parts a.count, times_parts b.count, times_parts (a.count +ℤ b.count));
  amount-neg = λ a. omega (int_laws, times_parts a.count, times_parts (pos 0 -ℤ a.count));
  sign_iff = λ a.
      chain_iff (compare_ℤ-negative_iff a.count (pos 0))
        (rw times-zero at (less_iff (pos 0) a.count));
  cmp_iff = λ a b. chain_iff (compare_ℤ_iff a.count b.count) (less_iff a.count b.count);
  milli_above = λ a. omega (arith, times_parts a.count);
  milli_below = λ a. omega (arith, times_parts a.count);
  amount-new_milli_quantity = times_parts;
}
