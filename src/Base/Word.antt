-- ===== src/Base/Word.antt =====
-- The integer types of the LP64 build: `uintptr_t`, `size_t` and `u64` have 64 bits, `u32` has 32.
use Prim.Native.Nat.{ℕ, ◌+◌, ◌-◌, ◌*◌, ◌%◌, ◌^◌}

abbrev pub w64 : ℕ → ℕ
w64 n = n % 2 ^ 64

abbrev pub add64 : ℕ → ℕ → ℕ
add64 a b = w64 (a + b)

abbrev pub sub64 : ℕ → ℕ → ℕ
sub64 a b = w64 (a + 2 ^ 64 - b)

abbrev pub mul64 : ℕ → ℕ → ℕ
mul64 a b = w64 (a * b)

abbrev pub u32 : ℕ → ℕ
u32 n = n % 2 ^ 32
