-- ===== src/Align.antt =====
-- Alignment of addresses and sizes (lib/allocators.c, `is_power_of_two` and `align_forward_*`).
pub mod Laws
pub mod PowerOfTwo
use strela_pynq.Base.{
  ℕ, ◌+◌, ◌-◌, ◌==◌, Bool, true, false, not, ◌&&◌, if◌then◌else◌, bit_and, add64, sub64, Outcome,
  returned, aborted,
}

-- `assert(e)`, in front of what follows it.
infix 1 assert◌then◌
abbrev pub assert◌then◌ {ℓ} : {A : Type ℓ} → Bool → Outcome A → Outcome A
assert b then rest = if b then rest else aborted

unfoldable pub is_power_of_two : ℕ → Bool
is_power_of_two x = not (x == 0) && (bit_and x (sub64 x 1) == 0)

-- The body of `align_forward_uintptr` behind its `assert`.
unfoldable pub bump_to : ℕ → ℕ → ℕ
bump_to ptr align =
    let modulo = bit_and ptr (sub64 align 1) in
    if not (modulo == 0) then add64 ptr (sub64 align modulo) else ptr

unfoldable pub align_forward_uintptr : ℕ → ℕ → Outcome ℕ
unfolding bump_to
align_forward_uintptr ptr align = assert is_power_of_two align then returned (bump_to ptr align)

-- The same code again, at `size_t`.
unfoldable pub align_forward_size : ℕ → ℕ → Outcome ℕ
unfolding bump_to
align_forward_size ptr align = assert is_power_of_two align then returned (bump_to ptr align)
