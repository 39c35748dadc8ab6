-- ===== src/Prelude/Outcomes.antt =====
-- A `Result` with the error first, and `?` on it.
use mathlib.Core.Bool.{Bool, true, false}
use mathlib.Core.Path.{◌≡◌, refl}
use mathlib.Core.Logic.{◌⊎◌, inl, inr}

pub data Outcome {ℓ κ} (E : Type κ) (A : Type ℓ) : Type (ℓ ⊔ κ) where
  success : A → Outcome E A
  failure : E → Outcome E A

pub Outcome-cases {ℓ κ} :
    {E : Type κ} {A : Type ℓ} (o : Outcome E A)
    → ((a : A) × (o ≡ success a)) ⊎ ((e : E) × (o ≡ failure e))
Outcome-cases (success a) = inl (a, refl)
Outcome-cases (failure e) = inr (e, refl)

abbrev pub is_success {ℓ κ} : {E : Type κ} {A : Type ℓ} → Outcome E A → Bool
is_success (success a) = true
is_success (failure e) = false
