-- ===== src/Base/Errors.antt =====
-- Go's pair of a value and an error, where exactly one of the two is there.
use mathlib.Core.Path.{◌≡◌, refl}
use mathlib.Core.Logic.{◌⊎◌, inl, inr}

pub data Result {ℓ} (E A : Type ℓ) : Type ℓ where
  ok : A → Result E A
  err : E → Result E A

module _ {ℓ} {E A : Type ℓ} where
  pub Result-cases : (r : Result E A) → ((a : A) × (r ≡ ok a)) ⊎ ((e : E) × (r ≡ err e))
  Result-cases (ok a) = inl (a, refl)
  Result-cases (err e) = inr (e, refl)

-- How a call that acts on a world can come back.
pub Call-cases {ℓ} :
    {E A W : Type ℓ} (c : Result E A × W)
    → ((a : A) × (w : W) × (c ≡ (ok a, w))) ⊎ ((e : E) × (w : W) × (c ≡ (err e, w)))
Call-cases (ok a, w) = inl (a, w, refl)
Call-cases (err e, w) = inr (e, w, refl)
