-- ===== src/Prelude/Outcome.antt =====
-- A Go call that may panic, with the value that it returns.
use mathlib.Core.Path.{◌≡◌, refl}

-- `panic` is a run-time panic: the call returns nothing.
pub data Outcome {ℓ} (A : Type ℓ) : Type ℓ where
  ok : A → Outcome A
  panic : Outcome A

infixl 5 ◌>>=◌
abbrev pub ◌>>=◌ {ℓ κ} : {A : Type ℓ} {B : Type κ} → Outcome A → (A → Outcome B) → Outcome B
ok a >>= f = f a
panic >>= f = panic

-- Where a chain returns, its first step has returned.
pub first_step {ℓ κ} :
    {X : Type ℓ} {Y : Type κ} (first : Outcome X) (rest : X → Outcome Y) {y : Y}
    → (first >>= rest) ≡ ok y
    → (x : X) × (first ≡ ok x) × (rest x ≡ ok y)
first_step panic rest returned = cc
first_step (ok x) rest returned = (x, refl, returned)
