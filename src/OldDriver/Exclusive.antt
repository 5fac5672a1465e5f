-- ===== src/OldDriver/Exclusive.antt =====
-- One file at a time has the first driver's device open (driver/strela_driver.c, `strela_open`,
-- `strela_release`).
use strela_pynq.Base.{ℕ, suc, ◌≡◌, refl, sym, subst, arith, Bool, true, false, none, some}
use strela_pynq.OldDriver.{OldDevice, ebusy, strela_open, strela_release}

-- The device and the number of files that have it open, through the calls of any processes; the
-- kernel releases a file once, and only one that was opened.
pub data Runs {C : Type 0} : OldDevice C → ℕ → Type 0 where
  probed : (d : OldDevice C) → d.in_use ≡ false → Runs d 0
  opened :
      (d : OldDevice C) (n : ℕ)
      → Runs d n
      → (strela_open d).0 ≡ none
      → Runs (strela_open d).1 (suc n)
  turned_away :
      (d : OldDevice C) (n : ℕ)
      → Runs d n
      → (strela_open d).0 ≡ some ebusy
      → Runs (strela_open d).1 n
  released : (d : OldDevice C) (n : ℕ) → Runs d (suc n) → Runs (strela_release d).1 n

-- The flag says whether there is a file.
pub data InUse : Bool → ℕ → Type 0 where
  closed : InUse false 0
  in_use : InUse true 1

open-InUse :
    {C : Type 0} (d : OldDevice C) (b : Bool) (n : ℕ)
    → d.in_use ≡ b
    → InUse b n
    → (strela_open d).0 ≡ none
    → InUse (strela_open d).1.in_use (suc n)
unfolding strela_open
open-InUse d b n e closed ok = simp (e) in_use
open-InUse d b n e in_use ok = absurd (ground (arith, e, ok))

busy-InUse :
    {C : Type 0} (d : OldDevice C) (b : Bool) (n : ℕ)
    → d.in_use ≡ b
    → InUse b n
    → (strela_open d).0 ≡ some ebusy
    → InUse (strela_open d).1.in_use n
unfolding strela_open
busy-InUse d b n e closed ok = absurd (ground (arith, e, ok))
busy-InUse d b n e in_use ok = simp (e) in_use

close-InUse : (b : Bool) (m n : ℕ) → InUse b m → m ≡ suc n → InUse false n
close-InUse b m n closed e = absurd (omega (arith, e))
close-InUse b m n in_use e = subst (λ k. InUse false k) {x = 0} (omega (arith, e)) closed

-- Whatever opens and closes were made of a device that was free at first, its flag is set exactly
-- while a file has it open, and there is at most one.
pub Runs-InUse : {C : Type 0} {d : OldDevice C} {n : ℕ} → Runs d n → InUse d.in_use n
unfolding strela_release
Runs-InUse (probed d e) = subst (λ b. InUse b 0) (sym e) closed
Runs-InUse (opened d n r ok) = open-InUse d d.in_use n refl (Runs-InUse r) ok
Runs-InUse (turned_away d n r ok) = busy-InUse d d.in_use n refl (Runs-InUse r) ok
Runs-InUse (released d n r) = close-InUse d.in_use (suc n) n (Runs-InUse r) refl
