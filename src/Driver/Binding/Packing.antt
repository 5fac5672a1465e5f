-- ===== src/Driver/Binding/Packing.antt =====
-- The size register: stride in the high half, bytes in the low half.
use strela_pynq.Base.{ℕ, ◌+◌, ◌*◌, ◌/◌, ◌%◌, ◌^◌, ◌≤◌, ◌<◌, ◌≡◌, ◌≢◌, arith, ap, ◌∙◌, u32, bit_or}
use strela_pynq.Bits.{or-fields}
use strela_pynq.Uapi.{StridedBinding, word_size}
use strela_pynq.Driver.Binding.{
  max_column_bytes, stride_or_one, strela_input_size, strela_binding_check,
}
use strela_pynq.Driver.Binding.Exact.{IsU32, Fits, span, strela_binding_check-Fits}
use mathlib.Core.Option.{none}
use native.Mathlib.Nat.{mul_comm}

packed :
    (hi lo : ℕ) → lo < 2 ^ 16 → hi < 2 ^ 16 → bit_or (u32 (u32 hi * 2 ^ 16)) lo ≡ hi * 2 ^ 16 + lo
packed hi lo small high =
    ap (λ (t : ℕ). bit_or t lo) (let e : u32 (u32 hi * 2 ^ 16) ≡ hi * 2 ^ 16 = omega arith in e)
    ∙ or-fields 16 hi lo small

halves :
    (hi lo : ℕ)
    → lo < 2 ^ 16
    → ((hi * 2 ^ 16 + lo) / 2 ^ 16 ≡ hi) × ((hi * 2 ^ 16 + lo) % 2 ^ 16 ≡ lo)
halves hi lo h = omega arith

-- The low half, in the order of the code's product.
low_bytes : (c s : ℕ) → c * s * 4 ≤ max_column_bytes → u32 (u32 (s * c) * word_size) ≡ c * s * 4
low_bytes c s h = omega (arith, mul_comm s c)

stride-le : (s : ℕ) → s ≤ stride_or_one s
stride-le s = ground arith

-- For a binding that passes the check and moves something, the size register reads back as the
-- binding: the stride in bytes in its high half, the bytes of the column in its low half.
pub strela_input_size-halves :
    (obj_size : ℕ) (b : StridedBinding)
    → IsU32 b
    → strela_binding_check obj_size b ≡ none
    → b.count ≢ 0
    → (strela_input_size b.count b.stride / 2 ^ 16 ≡ b.stride * 4)
      × (strela_input_size b.count b.stride % 2 ^ 16 ≡ span b)
unfolding strela_input_size
strela_input_size-halves obj_size b w h ne =
    rw
      (
        low_bytes b.count (stride_or_one b.stride) fits.packs,
        packed (b.stride * 4) (span b) low high,
      )
      (halves (b.stride * 4) (span b) low)
  where
    fits : Fits obj_size b
    fits = (strela_binding_check-Fits obj_size b w).0 h

    low : span b < 2 ^ 16
    low = omega (arith, fits.packs)

    high : b.stride * 4 < 2 ^ 16
    high = omega (arith, fits.stride_packs ne, stride-le b.stride)
