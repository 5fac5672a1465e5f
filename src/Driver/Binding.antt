-- ===== src/Driver/Binding.antt =====
-- Bindings: the check at submit time (driver/strela_job.c, `strela_binding_check`), and what the
-- hardware is told of them (driver/strela_core.c, `strela_input_size`). Errors are error numbers;
-- none is 0, success.
pub mod Exact
pub mod Packing
use strela_pynq.Base.{
  ℕ, ◌+◌, ◌*◌, ◌^◌, ◌==◌, ltb, Bool, true, false, not, ◌&&◌, Option, none, some, if◌then◌else◌, u32,
  add64, mul64, bit_or,
}
use strela_pynq.Uapi.{StridedBinding, word_size}

pub data Errno : Type 0 where
  einval enoent enomem : Errno

abbrev pub max_column_bytes : ℕ
max_column_bytes = 0xFFFF

-- max(stride, 1u)
abbrev pub stride_or_one : ℕ → ℕ
stride_or_one stride = if stride == 0 then 1 else stride

unfoldable pub strela_binding_check : (obj_size : ℕ) → StridedBinding → Option Errno
strela_binding_check obj_size b =
    let stride = stride_or_one b.stride in
    let span_bytes = mul64 (mul64 b.count stride) word_size in
    let end = add64 (mul64 b.offset word_size) span_bytes in
    if ltb max_column_bytes span_bytes
    then some einval
    else if not (b.count == 0) && ltb max_column_bytes (mul64 stride word_size)
    then some einval
    else if ltb obj_size end
    then some einval
    else none

unfoldable pub strela_input_size : (count stride : ℕ) → ℕ
strela_input_size count stride =
    bit_or (u32 (u32 (stride * word_size) * 2 ^ 16))
      (u32 (u32 (stride_or_one stride * count) * word_size))
