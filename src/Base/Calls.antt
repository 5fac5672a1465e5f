-- ===== src/Base/Calls.antt =====
-- How a C call ends: it returns, `assert` or `abort` stops the program, or the fuel of a loop of
-- the model runs out.
use mathlib.Core.Path.{◌≡◌, refl}

pub data Outcome {ℓ} (A : Type ℓ) : Type ℓ where
  returned : A → Outcome A
  aborted : Outcome A
  out_of_fuel : Outcome A

infixl 5 ◌>>=◌
abbrev pub ◌>>=◌ {ℓ κ} : {A : Type ℓ} {B : Type κ} → Outcome A → (A → Outcome B) → Outcome B
returned a >>= f = f a
aborted >>= f = aborted
out_of_fuel >>= f = out_of_fuel

-- The call returns, and what it returns satisfies `P`.
pub data Returns {ℓ κ} {A : Type ℓ} (P : A → Type κ) : Outcome A → Type (ℓ ⊔ κ) where
  ends : {a : A} → P a → Returns P (returned a)

pub Returns-bind {ℓ κ μ ν} :
    {A : Type ℓ} {B : Type μ} {P : A → Type κ} {Q : B → Type ν} {m : Outcome A} {f : A → Outcome B}
    → Returns P m
    → ((a : A) → P a → Returns Q (f a))
    → Returns Q (m >>= f)
Returns-bind (ends p) next = next _ p

pub Returns-map {ℓ κ ν} :
    {A : Type ℓ} {P : A → Type κ} {Q : A → Type ν} {m : Outcome A}
    → ((a : A) → P a → Q a)
    → Returns P m
    → Returns Q m
Returns-map f (ends p) = ends (f _ p)

pub Returns-bind_twice {ℓ κ μ ν ξ} :
    {A : Type ℓ} {B : Type μ} {C : Type ξ} {P : A → Type κ} {Q : C → Type ν} {m : Outcome A}
    (f : A → Outcome B) (g : B → Outcome C)
    → Returns P m
    → ((a : A) → P a → Returns Q (f a >>= g))
    → Returns Q (m >>= f >>= g)
Returns-bind_twice f g (ends p) next = next _ p

pub Returns-result {ℓ κ} :
    {A : Type ℓ} {P : A → Type κ} {m : Outcome A} → Returns P m → (a : A) × (m ≡ returned a) × P a
Returns-result (ends {a} p) = (a, refl, p)
