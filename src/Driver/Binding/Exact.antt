-- ===== src/Driver/Binding/Exact.antt =====
-- The 64-bit arithmetic of the check decides the claim about unbounded numbers.
use strela_pynq.Base.{
  ℕ, ◌+◌, ◌*◌, ◌^◌, ◌≤◌, ◌<◌, ◌≡◌, ◌≢◌, ◌↔◌, ◌⊎◌, inl, inr, arith, none, some, ◌==◌, Bool-cases,
  Option, mul64, add64, ltb, not, ◌&&◌, if◌then◌else◌,
}
use strela_pynq.Uapi.{StridedBinding, word_size}
use strela_pynq.Driver.Binding.{
  Errno, einval, max_column_bytes, stride_or_one, strela_binding_check,
}

-- The fields of a binding are 32-bit.
pub record IsU32 (b : StridedBinding) : Type 0 where
  pub offset : b.offset < 2 ^ 32
  pub count : b.count < 2 ^ 32
  pub stride : b.stride < 2 ^ 32

abbrev pub span : StridedBinding → ℕ
span b = b.count * stride_or_one b.stride * 4

-- What the check means, over numbers that do not wrap.
pub record Fits (obj_size : ℕ) (b : StridedBinding) : Type 0 where
  pub packs : span b ≤ max_column_bytes
  pub stride_packs : b.count ≢ 0 → stride_or_one b.stride * 4 ≤ max_column_bytes
  pub inside : b.offset * 4 + span b ≤ obj_size

-- With a stride that passes the second test, or a count of 0, no product wraps.
small_product : (c s : ℕ) → c < 2 ^ 32 → (c ≡ 0) ⊎ (s * 4 ≤ max_column_bytes) → c * s * 4 < 2 ^ 64
small_product c s hc (inl none_moved) = rw none_moved (omega arith)
small_product c s hc (inr hs) = grind arith

-- The check with the stride already rounded up to 1.
checks : (obj_size count offset stride : ℕ) → Option Errno
checks obj_size count offset stride =
    let span_bytes = mul64 (mul64 count stride) word_size in
    let end = add64 (mul64 offset word_size) span_bytes in
    if ltb max_column_bytes span_bytes
    then some einval
    else if not (count == 0) && ltb max_column_bytes (mul64 stride word_size)
    then some einval
    else if ltb obj_size end
    then some einval
    else none

module _ (size c o s : ℕ) (hc : c < 2 ^ 32) (ho : o < 2 ^ 32) (hs : s < 2 ^ 33) where
  checks_sound :
      checks size c o s ≡ none
      → (c * s * 4 ≤ max_column_bytes)
        × (c ≢ 0 → s * 4 ≤ max_column_bytes)
        × (o * 4 + c * s * 4 ≤ size)
  unfolding checks
  checks_sound h =
      let stride_small : (c ≡ 0) ⊎ (s * 4 ≤ max_column_bytes) = ground arith in
      let exact : c * s * 4 < 2 ^ 64 = small_product c s hc stride_small in
      (ground arith, λ ne. ground arith, ground arith)

  checks_complete :
      c * s * 4 ≤ max_column_bytes
      → (c ≢ 0 → s * 4 ≤ max_column_bytes)
      → o * 4 + c * s * 4 ≤ size
      → checks size c o s ≡ none
  unfolding checks
  checks_complete packs stride_packs inside = elim (Bool-cases (c == 0)) [
    | inl z ↦ ground arith
    | inr nz ↦ ground (arith, stride_packs (ground arith))
  ]

-- A 32-bit binding passes `strela_binding_check` exactly when it fits its object and the size
-- register: although the 64-bit products of the code can wrap, no binding slips through.
pub strela_binding_check-Fits :
    (obj_size : ℕ) (b : StridedBinding)
    → IsU32 b
    → (strela_binding_check obj_size b ≡ none) ↔ Fits obj_size b
unfolding strela_binding_check checks
strela_binding_check-Fits obj_size b w = (
  λ h.
      let (packs, stride_packs, inside) =
        checks_sound obj_size b.count b.offset (stride_or_one b.stride) w.count w.offset narrow h in
      record { packs = packs; stride_packs = stride_packs; inside = inside },
  λ f.
      checks_complete obj_size b.count b.offset (stride_or_one b.stride) w.count w.offset narrow
        f.packs f.stride_packs f.inside,
)
  where
    narrow : stride_or_one b.stride < 2 ^ 33
    narrow = ground arith
