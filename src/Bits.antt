-- ===== src/Bits.antt =====
-- `&` with a mask of low bits and `|` of disjoint fields, as arithmetic. The library gives the
-- native operations a meaning by binary digits; the laws here follow by recursion on the width.
mod Digits
pub use Digits.{and_halves, or_halves}
use native.Mathlib.Nat.{
  two-pow-succ, one-le-pow, mul-add-mod_self_right, mod-eq_of_lt, mod-lt, div-add-mod',
}
use strela_pynq.Base.{ℕ, zero, suc, ◌+◌, ◌-◌, ◌*◌, ◌/◌, ◌%◌, ◌^◌, ◌<◌, ◌≤◌, bit_and, bit_or}
use strela_pynq.Base.{◌≡◌, refl, arith, ap, ◌∙◌}

and-zero_below : (n a : ℕ) → a ≤ n → bit_and a 0 ≡ 0
and-zero_below zero zero h = refl
and-zero_below zero (suc a) h = absurd (omega arith)
and-zero_below (suc n) zero h = refl
and-zero_below (suc n) (suc a) h =
    omega (arith, and_halves (suc a) 0, and-zero_below n (suc a / 2) (omega arith))

or-zero_below : (n a : ℕ) → a ≤ n → bit_or a 0 ≡ a
or-zero_below zero zero h = refl
or-zero_below zero (suc a) h = absurd (omega arith)
or-zero_below (suc n) zero h = refl
or-zero_below (suc n) (suc a) h =
    omega (arith, or_halves (suc a) 0, or-zero_below n (suc a / 2) (omega arith))

and_self_below : (n a : ℕ) → a ≤ n → bit_and a a ≡ a
and_self_below zero zero h = refl
and_self_below zero (suc a) h = absurd (omega arith)
and_self_below (suc n) zero h = refl
and_self_below (suc n) (suc a) h =
    omega (arith, and_halves (suc a) (suc a), and_self_below n (suc a / 2) (omega arith))

pub and_self : (a : ℕ) → bit_and a a ≡ a
and_self a = and_self_below a a (omega arith)

-- Halving takes a remainder by `2 ^ suc k` to one by `2 ^ k`.
mod-pow_halves : (k x : ℕ) → x % 2 ^ suc k ≡ x / 2 % 2 ^ k * 2 + x % 2
mod-pow_halves k x =
    ap (λ (t : ℕ). t % 2 ^ suc k) split
    ∙ mul-add-mod_self_right q (2 ^ suc k) c
    ∙ mod-eq_of_lt small
  where
    q : ℕ
    q = x / 2 / 2 ^ k

    c : ℕ
    c = x / 2 % 2 ^ k * 2 + x % 2

    split : x ≡ q * 2 ^ suc k + c
    split = omega (
      arith,
      div-add-mod' (x / 2) (2 ^ k),
      two-pow-succ k,
      ap (λ (t : ℕ). q * t) (two-pow-succ k),
    )

    small : c < 2 ^ suc k
    small = omega (arith, two-pow-succ k, mod-lt (x / 2) (one-le-pow k 2 (omega arith)))

-- `x & (2 ^ k - 1)` is the remainder by `2 ^ k`.
pub and-mask : (k x : ℕ) → bit_and x (2 ^ k - 1) ≡ x % 2 ^ k
and-mask zero x = omega (arith, and-zero_below x x (omega arith))
and-mask (suc k) x =
    and_halves x (2 ^ suc k - 1)
    ∙ rw (half, odd, and-mask k (x / 2)) (omega (arith, mod-pow_halves k x))
  where
    half : (2 ^ suc k - 1) / 2 ≡ 2 ^ k - 1
    half = omega (arith, two-pow-succ k, one-le-pow k 2 (omega arith))

    odd : (2 ^ suc k - 1) % 2 ≡ 1
    odd = omega (arith, two-pow-succ k, one-le-pow k 2 (omega arith))

-- `(q << k) | r` is a sum where `r` fits in `k` bits.
pub or-fields : (k q r : ℕ) → r < 2 ^ k → bit_or (q * 2 ^ k) r ≡ q * 2 ^ k + r
or-fields zero q r h = ground (arith, or-zero_below q q)
or-fields (suc k) q r h =
    or_halves (q * 2 ^ suc k) r
    ∙ rw (half, or-fields k q (r / 2) (omega (arith, two-pow-succ k))) (omega (arith, doubled))
  where
    doubled : q * 2 ^ suc k ≡ 2 * (q * 2 ^ k)
    doubled = omega (arith, ap (λ (t : ℕ). q * t) (two-pow-succ k))

    half : q * 2 ^ suc k / 2 ≡ q * 2 ^ k
    half = omega (arith, doubled)
