-- ===== src/Align/Laws.antt =====
-- The alignment helpers against plain arithmetic.
use native.Mathlib.Nat.{mod-lt, div-add-mod', mul-mod_left}
use strela_pynq.Base.{
  ℕ, ◌+◌, ◌-◌, ◌*◌, ◌/◌, ◌%◌, ◌^◌, ◌≤◌, ◌<◌, ◌==◌, ◌≡◌, inl, inr, bit_and, arith, returned, aborted,
  Outcome, sub64, if◌then◌else◌, ◌∙◌, ap, Bool-cases,
}
use strela_pynq.Bits.{and-mask}
use strela_pynq.Align.{is_power_of_two, bump_to, align_forward_uintptr, align_forward_size}
use strela_pynq.Align.PowerOfTwo.{IsPow2, pow2-pos, sub64-one, is_power_of_two_iff}

-- `p & (a - 1)` is `p % a` at a power of two.
pub and-pred-mod : (p a : ℕ) → IsPow2 a → a < 2 ^ 64 → bit_and p (sub64 a 1) ≡ p % a
and-pred-mod p a (k, e) small =
    ap (bit_and p) (sub64-one a (pow2-pos (k, e)) small) ∙ rw e (and-mask k p)

-- `r` is the first multiple of `a` from `p` on.
pub record IsAligned (p a r : ℕ) : Type 0 where
  pub from : p ≤ r
  pub near : r < p + a
  pub multiple : r % a ≡ 0

pub next-multiple : (p a : ℕ) → 0 < a → (p + (a - p % a)) % a ≡ 0
next-multiple p a pos = ap (λ (t : ℕ). t % a) reach ∙ mul-mod_left (p / a + 1) a
  where
    reach : p + (a - p % a) ≡ (p / a + 1) * a
    reach = omega (arith, div-add-mod' p a, mod-lt p pos)

bump_to-mod :
    (p a : ℕ)
    → IsPow2 a
    → a < 2 ^ 64
    → p + a ≤ 2 ^ 64
    → bump_to p a ≡ (if p % a == 0 then p else p + (a - p % a))
unfolding bump_to
bump_to-mod p a two small fits = rw (and-pred-mod p a two small) (ground (arith, mod-lt p pos))
  where
    pos : 0 < a
    pos = pow2-pos two

pub bump_to-IsAligned :
    (p a : ℕ) → IsPow2 a → a < 2 ^ 64 → p + a ≤ 2 ^ 64 → IsAligned p a (bump_to p a)
bump_to-IsAligned p a two small fits =
    rw (bump_to-mod p a two small fits)
      (ground (arith, mod-lt p (pow2-pos two), next-multiple p a (pow2-pos two)))

pub data Aligns (p a : ℕ) : Outcome ℕ → Type 0 where
  reached : {r : ℕ} → IsPow2 a → IsAligned p a r → Aligns p a (returned r)
  refused : ¬ IsPow2 a → Aligns p a aborted

-- `align_forward_uintptr` returns the first multiple of `align` from `ptr` on when `align` is a
-- power of two, and its `assert` fails when it is not. The first multiple must fit the word.
pub align_forward_uintptr-Aligns :
    (p a : ℕ) → a < 2 ^ 64 → p + a ≤ 2 ^ 64 → Aligns p a (align_forward_uintptr p a)
unfolding align_forward_uintptr
align_forward_uintptr-Aligns p a small fits = elim (Bool-cases (is_power_of_two a)) [
  | inl good ↦
      let two = (is_power_of_two_iff a small).0 good in
      rw good (reached two (bump_to-IsAligned p a two small fits))
  | inr bad ↦ rw bad (refused (λ two. cc ((is_power_of_two_iff a small).1 two)))
]

pub align_forward_uintptr-pow2 :
    (p a : ℕ) → IsPow2 a → a < 2 ^ 64 → align_forward_uintptr p a ≡ returned (bump_to p a)
unfolding align_forward_uintptr
align_forward_uintptr-pow2 p a two small = rw ((is_power_of_two_iff a small).1 two)

pub align_forward_size-pow2 :
    (p a : ℕ) → IsPow2 a → a < 2 ^ 64 → align_forward_size p a ≡ returned (bump_to p a)
unfolding align_forward_size
align_forward_size-pow2 p a two small = rw ((is_power_of_two_iff a small).1 two)
