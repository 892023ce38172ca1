-- ===== src/Prelude/Results.antt =====
-- A call that returns or raises, with the value that it raises.
use mathlib.Core.Path.{◌≡◌}
use mathlib.Core.Logic.{◌⊎◌, inl, inr}
use mathlib.Core.Path.{refl}
use native.Mathlib.Omega.{arith}

pub data Result {ℓ} (E A : Type ℓ) : Type ℓ where
  ok : A → Result E A
  err : E → Result E A

infixl 5 ◌>>=◌
abbrev pub ◌>>=◌ {ℓ} : {E A B : Type ℓ} → Result E A → (A → Result E B) → Result E B
ok a >>= f = f a
err e >>= f = err e

pub Result-cases {ℓ} :
    {E A : Type ℓ} (r : Result E A) → ((a : A) × (r ≡ ok a)) ⊎ ((e : E) × (r ≡ err e))
Result-cases (ok a) = inl (a, refl)
Result-cases (err e) = inr (e, refl)

pub bind-ok {ℓ} :
    {E A B : Type ℓ} (r : Result E A) (f : A → Result E B) (b : B)
    → (r >>= f) ≡ ok b
    → (a : A) × ((r ≡ ok a) × (f a ≡ ok b))
bind-ok (ok a) f b h = (a, (refl, h))
bind-ok (err e) f b h = ground (arith, h)
