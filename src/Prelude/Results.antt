-- ===== src/Prelude/Results.antt =====
-- Errors as values, and actions that change a state and may fail.
use mathlib.Core.Path.{◌≡◌, refl}
use mathlib.Core.Logic.{◌⊎◌, inl, inr}

pub data Result (E A : Type 0) : Type 0 where
  ok : A → Result E A
  err : E → Result E A

pub Result-cases :
    {E A : Type 0} (r : Result E A) → ((a : A) × (r ≡ ok a)) ⊎ ((e : E) × (r ≡ err e))
Result-cases (ok a) = inl (a, refl)
Result-cases (err e) = inr (e, refl)

-- The state outlives an error.
abbrev pub Action : Type 0 → Type 0 → Type 0 → Type 0
Action S E A = S → Result E A × S

module _ {S E : Type 0} where
  abbrev pub pure : {A : Type 0} → A → Action S E A
  pure a s = (ok a, s)

  abbrev pub fail : {A : Type 0} → E → Action S E A
  fail e s = (err e, s)

  abbrev pub and_then : {A B : Type 0} → Result E A → (A → Action S E B) → Action S E B
  and_then (ok a) f s = f a s
  and_then (err e) f s = (err e, s)

  infixl 5 ◌>>=◌ ◌>>◌
  abbrev pub ◌>>=◌ : {A B : Type 0} → Action S E A → (A → Action S E B) → Action S E B
  ◌>>=◌ m f s = and_then (m s).0 f (m s).1

  abbrev pub ◌>>◌ : {A B : Type 0} → Action S E A → Action S E B → Action S E B
  m >> n = m >>= λ _. n
