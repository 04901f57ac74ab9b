-- ===== src/Prelude/Results.antt =====
-- A Go result `(value, err)`: a value with a nil error, or an error.
use mathlib.Core.Logic.{inr, inl, ◌⊎◌}
use mathlib.Core.Path.{◌≡◌, refl}
use mathlib.Core.Bool.{Bool, true, false}

pub data Result {ℓ} (E A : Type ℓ) : Type ℓ where
  ok : A → Result E A
  err : E → Result E A

-- `err == nil`
abbrev pub succeeds {ℓ} : {E A : Type ℓ} → Result E A → Bool
succeeds (ok a) = true
succeeds (err e) = false

pub Result-cases {ℓ} :
    {E A : Type ℓ} (r : Result E A) → ((a : A) × (r ≡ ok a)) ⊎ ((e : E) × (r ≡ err e))
Result-cases (ok a) = inl (a, refl)
Result-cases (err e) = inr (e, refl)

pub ok_injective {ℓ} : {E A : Type ℓ} (a b : A) → ◌≡◌ {A = Result E A} (ok a) (ok b) → a ≡ b
ok_injective a b e = cc
