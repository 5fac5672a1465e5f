-- ===== src/Align/PowerOfTwo.antt =====
-- `x != 0 && (x & (x - 1)) == 0` finds exactly the powers of two.
use native.Mathlib.Nat.{one-le-pow, mod_self, two-pow-succ}
use strela_pynq.Base.{
  ℕ, zero, suc, ◌-◌, ◌/◌, ◌%◌, ◌^◌, ◌≤◌, ◌<◌, ◌≡◌, ◌↔◌, true, bit_and, arith, sub64, ◌∙◌, ap, inl,
  inr, ◌⊎◌,
}
use strela_pynq.Bits.{and-mask, and_halves, and_self}
use strela_pynq.Align.{is_power_of_two}

abbrev pub IsPow2 : ℕ → Type 0
IsPow2 a = (k : ℕ) × (a ≡ 2 ^ k)

-- Clearing the lowest set bit of `x` leaves 0 only for a power of two.
IsPow2-of_and : (n x : ℕ) → x ≤ n → 0 < x → bit_and x (x - 1) ≡ 0 → IsPow2 x
IsPow2-of_and zero x h pos e = absurd (omega arith)
IsPow2-of_and (suc n) x h pos e = elim (parity x) [
  | inl even ↦ double even (IsPow2-of_and n (x / 2) (omega arith) (omega arith) (halved even))
  | inr odd ↦ (0, omega (arith, alone odd))
]
  where
    parity : (x : ℕ) → (x % 2 ≡ 0) ⊎ (x % 2 ≡ 1)
    parity x = omega arith

    halved : x % 2 ≡ 0 → bit_and (x / 2) (x / 2 - 1) ≡ 0
    halved even =
        let same : (x - 1) / 2 ≡ x / 2 - 1 = omega arith in
        rw (← same) (omega (arith, and_halves x (x - 1)))

    alone : x % 2 ≡ 1 → x / 2 ≡ 0
    alone odd =
        let same : (x - 1) / 2 ≡ x / 2 = omega arith in
        omega (arith, and_self (x / 2), rw same at (and_halves x (x - 1)))

    double : x % 2 ≡ 0 → IsPow2 (x / 2) → IsPow2 x
    double even (k, p) = (suc k, omega (arith, two-pow-succ k))

pub and-pow2 : (k : ℕ) → bit_and (2 ^ k) (2 ^ k - 1) ≡ 0
and-pow2 k = and-mask k (2 ^ k) ∙ mod_self (2 ^ k)

pub sub64-one : (a : ℕ) → 0 < a → a < 2 ^ 64 → sub64 a 1 ≡ a - 1
sub64-one a lo hi = omega arith

pub pow2-pos : {a : ℕ} → IsPow2 a → 0 < a
pow2-pos (k, p) = omega (arith, one-le-pow k 2 (omega arith))

cleared : (x : ℕ) → 0 < x → x < 2 ^ 64 → bit_and x (sub64 x 1) ≡ bit_and x (x - 1)
cleared x pos small = ap (bit_and x) (sub64-one x pos small)

-- On a 64-bit word `is_power_of_two` answers true exactly at the powers of two.
pub is_power_of_two_iff : (x : ℕ) → x < 2 ^ 64 → (is_power_of_two x ≡ true) ↔ IsPow2 x
unfolding is_power_of_two
is_power_of_two_iff x small = (
  λ h.
      let pos : 0 < x = ground arith in
      IsPow2-of_and x x (omega arith) pos (ground (arith, cleared x pos small)),
  λ (k, p).
      let pos : 0 < x = pow2-pos (k, p) in
      let none_left : bit_and x (x - 1) ≡ 0 = rw p (and-pow2 k) in
      ground (arith, cleared x pos small),
)

-- A power of two from 16 on is a multiple of 16, and so are its multiples.
pub pow2-mod_16 : {a : ℕ} → IsPow2 a → 16 ≤ a → a % 16 ≡ 0
pow2-mod_16 {a = a} (k, p) h = by_exponent k a p h
  where
    by_exponent : (k a : ℕ) → a ≡ 2 ^ k → 16 ≤ a → a % 16 ≡ 0
    by_exponent zero a p h = absurd (omega arith)
    by_exponent (suc zero) a p h = absurd (omega arith)
    by_exponent (suc (suc zero)) a p h = absurd (omega arith)
    by_exponent (suc (suc (suc zero))) a p h = absurd (omega arith)
    by_exponent (suc (suc (suc (suc j)))) a p h = omega (
      arith,
      two-pow-succ (suc (suc (suc j))),
      two-pow-succ (suc (suc j)),
      two-pow-succ (suc j),
      two-pow-succ j,
    )
