-- ===== src/Prelude/Branches.antt =====
-- A property of every branch of a case distinction holds of its outcome. The branches know the
-- value that led to them.
use mathlib.Core.Path.{◌≡◌, refl, sym, subst}
use mathlib.Core.Bool.{Bool, true, false}
use mathlib.Core.Option.{Option, none, some}
use mathlib.Core.List.{List, [], ◌∷◌}
use kosmos_v.Prelude.Tests.{if◌then◌else◌}
use kosmos_v.Prelude.Results.{Result, ok, err}

pub test_branch {ℓ κ} :
    {B : Type ℓ} (P : B → Type κ) {x y : B} (b : Bool)
    → (b ≡ false → P x)
    → (b ≡ true → P y)
    → P (elim b as (λ z. B) [ false ↦ x | true ↦ y ])
test_branch P false f t = f refl
test_branch P true f t = t refl

pub if_branch {ℓ κ} :
    {B : Type ℓ} (P : B → Type κ) {x y : B} (b : Bool)
    → (b ≡ true → P x)
    → (b ≡ false → P y)
    → P (if b then x else y)
if_branch P true t f = t refl
if_branch P false t f = f refl

pub option_branch {ι ℓ κ} :
    {A : Type ι} {B : Type ℓ} (P : B → Type κ) {x : B} {f : A → B} (o : Option A)
    → (o ≡ none → P x)
    → ((a : A) → o ≡ some a → P (f a))
    → P (elim o as (λ z. B) [ none ↦ x | some a ↦ f a ])
option_branch P none n s = n refl
option_branch P (some a) n s = s a refl

pub some_branch {ι ℓ κ} :
    {A : Type ι} {B : Type ℓ} (P : B → Type κ) (z : B) (f : A → B) {o : Option A} (a : A)
    → o ≡ some a
    → P (f a)
    → P (elim o as (λ x. B) [ none ↦ z | some x ↦ f x ])
some_branch {B} P z f a e t =
    subst (λ o. P (elim o as (λ x. B) [ none ↦ z | some x ↦ f x ])) (sym e) t

pub result_branch {ℓ κ} :
    {E A : Type 0} {B : Type ℓ} (P : B → Type κ) {f : A → B} {g : E → B} (r : Result E A)
    → ((a : A) → r ≡ ok a → P (f a))
    → ((e : E) → r ≡ err e → P (g e))
    → P (elim r as (λ z. B) [ ok a ↦ f a | err e ↦ g e ])
result_branch P (ok a) s n = s a refl
result_branch P (err e) s n = n e refl

pub list_branch {ι ℓ κ} :
    {A : Type ι} {B : Type ℓ} (P : B → Type κ) {x : B} {f : A → List A → B} (l : List A)
    → (l ≡ [] → P x)
    → ((a : A) (rest : List A) → l ≡ a ∷ rest → P (f a rest))
    → P (elim l as (λ z. B) [ [] ↦ x | a ∷ rest ↦ f a rest ])
list_branch P [] n s = n refl
list_branch P (a ∷ rest) n s = s a rest refl

pub cons_branch {ι ℓ κ} :
    {A : Type ι} {B : Type ℓ} (P : B → Type κ) (z : B) (f : A → List A → B) (l : List A) (a : A)
    (rest : List A)
    → l ≡ a ∷ rest
    → P (f a rest)
    → P (elim l as (λ x. B) [ [] ↦ z | a ∷ rest ↦ f a rest ])
cons_branch {B} P z f l a rest e t =
    subst (λ l. P (elim l as (λ x. B) [ [] ↦ z | a ∷ rest ↦ f a rest ])) (sym e) t
