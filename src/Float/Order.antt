-- ===== src/Float/Order.antt =====
-- The order of fractions, and what IEEE 754 says of rounding.
use kosmos_v.Prelude.{ℕ, suc, ◌+◌, ◌-◌, ◌*◌, ◌/◌, ◌^◌, ◌≤◌, ◌<◌, ◌≡◌, arith}
use native.Mathlib.Nat.{div-mul-le_self}
use native.Mathlib.Decide.{dec_le}
use kosmos_v.Prelude.Int.{ℤ, pos, negsuc, pos_part, neg_part, ◌≤ℤ◌}
use kosmos_v.Float.{Fraction, den, Machine, of_ℤ, trunc}

infix 50 ◌≼◌
abbrev pub ◌≼◌ : Fraction → Fraction → Type 0
a ≼ b = a.plus * den b + b.minus * den a ≤ b.plus * den a + a.minus * den b

-- n / (e + 1)
abbrev pub ratio : ℕ → ℕ → Fraction
ratio n e = record { plus = n; minus = 0; den_pred = e }

-- What the planners rely on: rounding keeps the order, it keeps an integer of up to 53 bits, and it
-- raises a quotient that is no subnormal number by one part in 2 ^ 53 at most. It keeps the powers of
-- two down to the smallest that is not subnormal.
pub record IsIeee (m : Machine) : Type 0 where
  pub mono : (a b : Fraction) → a ≼ b → m.round_off a ≼ m.round_off b
  pub exact_above : (z : ℤ) → pos_part z + neg_part z ≤ 2 ^ 53 → of_ℤ z ≼ m.round_off (of_ℤ z)
  pub exact_below : (z : ℤ) → pos_part z + neg_part z ≤ 2 ^ 53 → m.round_off (of_ℤ z) ≼ of_ℤ z
  pub power_above : (k : ℕ) → k ≤ 1022 → ratio 1 (2 ^ k - 1) ≼ m.round_off (ratio 1 (2 ^ k - 1))
  pub close_above :
      (n e : ℕ)
      → e < 2 ^ 1000
      → m.round_off (ratio n e) ≼ ratio (n * (2 ^ 53 + 1)) (suc e * 2 ^ 53 - 1)

le-div_lem : (x d n : ℕ) → x * suc d ≤ n → x ≤ n / suc d
le-div_lem x d n h = grind arith

div-le_lem : (x d n : ℕ) → n ≤ x * suc d → n / suc d ≤ x
div-le_lem x d n h = grind arith

pub cancel : (a b d : ℕ) → a * suc d ≤ b * suc d → a ≤ b
cancel a b d h = grind arith

pub scale : (a b c : ℕ) → a ≤ b → a * c ≤ b * c
scale a b c h = grind arith

pub ≼_trans : (a b c : Fraction) → a ≼ b → b ≼ c → a ≼ c
≼_trans a b c h k =
    cancel (a.plus * den c + c.minus * den a) (c.plus * den a + a.minus * den c) b.den_pred
      (omega (arith, scale _ _ (den c) h, scale _ _ (den a) k))

-- An integer at or below a fraction is at or below its integer part, and so above.
pub le-trunc : (z : ℤ) (q : Fraction) → of_ℤ z ≼ q → z ≤ℤ trunc q
unfolding trunc
le-trunc (pos n) q h = ground (arith, le-div_lem n q.den_pred (q.plus - q.minus))
le-trunc (negsuc n) q h = ground (arith, div-le_lem (suc n) q.den_pred (q.minus - q.plus))

pub trunc-le : (z : ℤ) (q : Fraction) → q ≼ of_ℤ z → trunc q ≤ℤ z
unfolding trunc
trunc-le (pos n) q h = ground (arith, div-le_lem n q.den_pred (q.plus - q.minus))
trunc-le (negsuc n) q h = ground (arith, le-div_lem (suc n) q.den_pred (q.minus - q.plus))

pub trunc-of_ℤ : (z : ℤ) → trunc (of_ℤ z) ≡ z
unfolding trunc
trunc-of_ℤ (pos n) = ground arith
trunc-of_ℤ (negsuc n) = ground arith

diff_core : (x i e b : ℕ) → (i + x) * e ≤ b + i * e → x * e ≤ b
diff_core x i e b h = omega arith

diff_le : (p i e b : ℕ) → p * e ≤ b + i * e → (p - i) * e ≤ b
diff_le p i e b h = elim (dec_le i p) [
  | yes le ↦ let same : i + (p - i) ≡ p = omega arith in diff_core (p - i) i e b (rw same h)
  | no gt ↦ let none : p - i ≡ 0 = omega arith in rw none (omega arith)
]

portion_core : (t f x e n : ℕ) → t * f ≤ x → x * e ≤ n * f → t * e * f ≤ n * f
portion_core t f x e n h k = omega (arith, scale _ _ e h)

-- The integer part of a value that is not negative, by a bound on the value.
pub trunc-ratio : (q : Fraction) (n e : ℕ) → q ≼ ratio n e → (q.plus - q.minus) / den q * suc e ≤ n
trunc-ratio q n e h =
    let x = q.plus - q.minus in
    cancel (x / den q * suc e) n q.den_pred (
      portion_core (x / den q) (den q) x (suc e) n (div-mul-le_self x (den q))
        (diff_le q.plus q.minus (suc e) (n * den q) (omega arith)))
