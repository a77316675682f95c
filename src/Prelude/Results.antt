-- ===== src/Prelude/Results.antt =====
-- The results of loops that may not end.
use mathlib.Core.Path.{◌≡◌, refl}
use mathlib.Core.Logic.{◌⊎◌, inl, inr}

-- What a loop on fuel comes to: a result, undefined behaviour, or no end within the fuel.
pub data Outcome {ℓ} (A : Type ℓ) : Type ℓ where
  returned : A → Outcome A
  fault running : Outcome A

pub Outcome-cases {ℓ} :
    {A : Type ℓ} (o : Outcome A) → (o ≡ fault) ⊎ (o ≡ running) ⊎ ((a : A) × (o ≡ returned a))
Outcome-cases fault = inl refl
Outcome-cases running = inr (inl refl)
Outcome-cases (returned a) = inr (inr (a, refl))
