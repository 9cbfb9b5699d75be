-- ===== src/Base/Results.antt =====
-- `Result` of std and anyhow, and a call that may also panic.
use mathlib.Core.Path.{◌≡◌, refl}
use mathlib.Core.Logic.{◌⊎◌, inl, inr}
use native.Mathlib.Omega.{arith}

pub data Result {ℓ κ} (E : Type ℓ) (A : Type κ) : Type (ℓ ⊔ κ) where
  ok : A → Result E A
  err : E → Result E A

-- A panic unwinds through every caller; no code of the engine catches one.
pub data Outcome {ℓ} (A : Type ℓ) : Type ℓ where
  returned : A → Outcome A
  panicked : Outcome A

module _ {ℓ κ} {E : Type ℓ} {A : Type κ} where
  abbrev pub map_err {μ} : {F : Type μ} → (E → F) → Result E A → Result F A
  map_err f (ok a) = ok a
  map_err f (err e) = err (f e)

  abbrev pub map_ok {μ} : {B : Type μ} → (A → B) → Result E A → Result E B
  map_ok f (ok a) = ok (f a)
  map_ok f (err e) = err e

  -- The `?` operator.
  infixl 5 ◌>>=◌
  abbrev pub ◌>>=◌ {μ} : {B : Type μ} → Result E A → (A → Result E B) → Result E B
  ok a >>= f = f a
  err e >>= f = err e

  pub Result-cases : (r : Result E A) → ((a : A) × (r ≡ ok a)) ⊎ ((e : E) × (r ≡ err e))
  Result-cases (ok a) = inl (a, refl)
  Result-cases (err e) = inr (e, refl)

-- What a chain that succeeds has of its first step.
pub bind-ok {ℓ μ κ ν} :
    {E : Type ℓ} {F : Type μ} {A : Type κ} {B : Type ν} (wrap : E → F) (r : Result E A)
    (f : A → Result F B) (b : B)
    → map_err wrap r >>= f ≡ ok b
    → (a : A) × (r ≡ ok a) × (f a ≡ ok b)
bind-ok wrap (ok a) f b e = (a, refl, e)
bind-ok wrap (err x) f b e = ground arith

pub map_err-ok {ℓ μ ν} :
    {E : Type ℓ} {F : Type μ} {B : Type ν} (wrap : E → F) (r : Result E B) (b : B)
    → map_err wrap r ≡ ok b
    → r ≡ ok b
map_err-ok wrap (ok a) b e = ground arith
map_err-ok wrap (err x) b e = ground arith
