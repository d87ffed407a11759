-- ===== src/Prelude/Attempts.antt =====
-- A computation that may throw `std::runtime_error`, with the text of its `what()`.
use Prim.Native.String.{String}
use mathlib.Core.Path.{◌≡◌, refl}
use mathlib.Core.Logic.{◌⊎◌, inl, inr}

pub data Attempt {ℓ} (A : Type ℓ) : Type ℓ where
  ok : A → Attempt A
  throw : String → Attempt A

infixl 5 ◌>>=◌
abbrev pub ◌>>=◌ {ℓ κ} : {A : Type ℓ} {B : Type κ} → Attempt A → (A → Attempt B) → Attempt B
ok a >>= f = f a
throw e >>= f = throw e

pub Attempt-cases {ℓ} :
    {A : Type ℓ} (x : Attempt A) → ((a : A) × (x ≡ ok a)) ⊎ ((e : String) × (x ≡ throw e))
Attempt-cases (ok a) = inl (a, refl)
Attempt-cases (throw e) = inr (e, refl)
