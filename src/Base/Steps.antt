-- ===== src/Base/Steps.antt =====
-- What a function takes and gives back, in order, and what that leaves held. Each resource that is
-- given back is the latest that was taken.
use Prim.Native.Nat.{ℕ}
use mathlib.Core.List.{List, [], ◌∷◌, ◌++◌}
use mathlib.Core.Option.{Option, none, some}

pub data Step {ℓ} (R : Type ℓ) : Type ℓ where
  acquire release : R → Step R

-- What is held, the latest first, after the steps; a step may only give back the latest.
pub data Leaves {ℓ} {R : Type ℓ} : List R → List (Step R) → List R → Type ℓ where
  done : {held : List R} → Leaves held [] held
  takes :
      {r : R} {held rest : List R} {steps : List (Step R)}
      → Leaves (r ∷ held) steps rest
      → Leaves held (acquire r ∷ steps) rest
  gives :
      {r : R} {held rest : List R} {steps : List (Step R)}
      → Leaves held steps rest
      → Leaves (r ∷ held) (release r ∷ steps) rest

-- A positive value, or an error.
pub data Answer : Type 0 where
  given failed : ℕ → Answer

-- The first of several results that is an error.
abbrev pub first_error {ℓ} : {A : Type ℓ} → List (Option A) → Option A
first_error [] = none
first_error (none ∷ results) = first_error results
first_error (some e ∷ results) = some e

pub Leaves-append {ℓ} :
    {R : Type ℓ} {held mid rest : List R} {steps more : List (Step R)}
    → Leaves held steps mid
    → Leaves mid more rest
    → Leaves held (steps ++ more) rest
Leaves-append done q = q
Leaves-append (takes p) q = takes (Leaves-append p q)
Leaves-append (gives p) q = gives (Leaves-append p q)
