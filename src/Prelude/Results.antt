-- ===== src/Prelude/Results.antt =====
-- The outcome of kernel code: a value, a call of panic() (kernel/printf.c), a fault of the
-- machine such as a load through a null pointer, or fuel that ran out in a modelled loop.

pub data Outcome {ℓ} (A : Type ℓ) : Type ℓ where
  ok : A → Outcome A
  panic : Outcome A
  fault : Outcome A
  no_fuel : Outcome A

infixl 5 ◌>>=◌
abbrev pub ◌>>=◌ {ℓ κ} : {A : Type ℓ} {B : Type κ} → Outcome A → (A → Outcome B) → Outcome B
ok a >>= f = f a
panic >>= f = panic
fault >>= f = fault
no_fuel >>= f = no_fuel
