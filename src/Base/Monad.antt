-- ===== src/Base/Monad.antt =====
-- Steps that may fail or run on: chains of `Option`, where `none` is a fault, and the outcome of
-- a loop with fuel.
use mathlib.Core.Logic.{◌⊎◌, inl, inr}
use mathlib.Core.Path.{◌≡◌, refl}
use mathlib.Core.Option.{Option, none, some}

infixl 5 ◌>>=◌
abbrev pub ◌>>=◌ {ℓ κ} : {A : Type ℓ} {B : Type κ} → Option A → (A → Option B) → Option B
none >>= f = none
some a >>= f = f a

-- `fault` stands for behaviour that C++ leaves undefined, `spin` for a loop that has used up its
-- fuel.
pub data Outcome {ℓ} (A : Type ℓ) : Type ℓ where
  done : A → Outcome A
  fault spin : Outcome A

abbrev pub then_do {ℓ κ} : {A : Type ℓ} {B : Type κ} → Outcome A → (A → Outcome B) → Outcome B
then_do (done a) f = f a
then_do fault f = fault
then_do spin f = spin

abbrev pub or_fault {ℓ} : {A : Type ℓ} → Option A → Outcome A
or_fault none = fault
or_fault (some a) = done a

-- Inversion of a step that is followed by another.
module _ {ℓ κ} {A : Type ℓ} {B : Type κ} where
  pub then_do-eq-done :
      (m : Outcome A) (f : A → Outcome B) {b : B}
      → then_do m f ≡ done b
      → (a : A) × (m ≡ done a) × (f a ≡ done b)
  then_do-eq-done (done a) f h = (a, refl, h)
  then_do-eq-done fault f h = cc
  then_do-eq-done spin f h = cc

  pub then_do-eq-spin :
      (m : Outcome A) (f : A → Outcome B)
      → then_do m f ≡ spin
      → (m ≡ spin) ⊎ ((a : A) × (m ≡ done a) × (f a ≡ spin))
  then_do-eq-spin (done a) f h = inr (a, refl, h)
  then_do-eq-spin fault f h = cc
  then_do-eq-spin spin f h = inl refl

pub Outcome-cases {ℓ} :
    {A : Type ℓ} (o : Outcome A) → (o ≡ fault) ⊎ (o ≡ spin) ⊎ ((a : A) × (o ≡ done a))
Outcome-cases (done a) = inr (inr (a, refl))
Outcome-cases fault = inl refl
Outcome-cases spin = inr (inl refl)

-- A chain that gives a value: so does its first step.
pub bind-eq-some {ℓ κ} :
    {A : Type ℓ} {B : Type κ}
    → (m : Option A) (f : A → Option B) {b : B} → (m >>= f) ≡ some b
    → (a : A) × (m ≡ some a) × (f a ≡ some b)
bind-eq-some none f h = cc
bind-eq-some (some a) f h = (a, refl, h)
