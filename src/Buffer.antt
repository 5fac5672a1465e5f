-- ===== src/Buffer.antt =====
-- Buffers: the tensors' memory (lib/strela.c, the buffer submodule).
pub mod Data
pub mod Flush
pub mod Inval
pub mod Overflow
pub mod Lines
use strela_pynq.Base.{
  ℕ, ◌+◌, ◌-◌, ◌*◌, ◌/◌, ◌%◌, ◌^◌, ◌==◌, leb, ltb, Bool, true, false, not, ◌&&◌, ◌||◌,
  if◌then◌else◌, add64, sub64, mul64, bit_and, bit_or, Outcome, returned, aborted, ◌>>=◌,
}
use strela_pynq.Memory.{Ptr, null, Bytes, move_bytes}
use strela_pynq.Uapi.{word_size, sync_read, sync_write, sync_prep, sync_fini}
use strela_pynq.FreeList.{free_list_alloc, free_list_free, free_list_free_all, header_size}
use strela_pynq.Device.{Reply, Device, bad_arg, no_mem, tensor_memory_size, strela_dev_ok, set_err}
use strela_pynq.Kernel.{strela_sync}

pub record Buffer : Type 0 where
  pub valid : Bool
  pub offset_words_from_base : ℕ
  pub size_words : ℕ

abbrev pub no_buffer : Buffer
no_buffer = record { valid = false; offset_words_from_base = 0; size_words = 0 }

abbrev pub cacheline_size : ℕ
cacheline_size = 64

abbrev pub cacheline_words : ℕ
cacheline_words = 16

-- Behind the check that the device is fit for use; its callers have made the same check.
abbrev pub ptr_to_buffer_offset : Device → Ptr → ℕ
ptr_to_buffer_offset dev ptr = sub64 ptr dev.tensors_bo_map / word_size

unfoldable pub strela_buffer_alloc : Device → (size_words : ℕ) → Outcome (Device × Buffer)
strela_buffer_alloc dev size_words =
    if strela_dev_ok dev
    then if leb size_words (mul64 size_words word_size)
      then (free_list_alloc dev.mem dev.buffer_free_list (mul64 size_words word_size) 64
          >>= λ (mem, fl, ptr).
              let dev' = record dev { mem = mem; buffer_free_list = fl } in
              returned (
                if ptr == null then (set_err dev' no_mem, no_buffer) else (
                  dev',
                  record {
                    valid = true;
                    offset_words_from_base = ptr_to_buffer_offset dev' ptr;
                    size_words = size_words;
                  },
                )))
      else returned (set_err dev bad_arg, no_buffer)
    else returned (dev, no_buffer)

unfoldable pub strela_buffer_to_ptr : Device → Buffer → Outcome Ptr
strela_buffer_to_ptr dev buffer =
    if not buffer.valid || not (strela_dev_ok dev)
    then aborted
    else returned (add64 dev.tensors_bo_map (mul64 buffer.offset_words_from_base word_size))

-- The size comes from the header in front of the allocation.
unfoldable pub strela_buffer_from_ptr : Device → Ptr → Outcome Buffer
strela_buffer_from_ptr dev ptr =
    let orig_size = dev.mem (ptr - header_size) in
    if strela_dev_ok dev
      && (leb dev.tensors_bo_map ptr && ltb ptr (add64 dev.tensors_bo_map tensor_memory_size))
    then if orig_size % word_size == 0
      then returned (record {
        valid = true;
        offset_words_from_base = ptr_to_buffer_offset dev ptr;
        size_words = orig_size / word_size;
      })
      else aborted
    else returned no_buffer

-- The data of buffers lies in a memory of bytes; `ptr` is the caller's.
unfoldable pub strela_buffer_set_data :
    Device → Bytes → Buffer → (ptr : Ptr) → Outcome (Device × Bytes)
strela_buffer_set_data dev bytes buffer ptr =
    if strela_dev_ok dev
    then if buffer.valid
      then (strela_buffer_to_ptr dev buffer >>= λ strela_buf.
          returned (dev, move_bytes bytes strela_buf ptr (mul64 buffer.size_words word_size)))
      else returned (set_err dev bad_arg, bytes)
    else returned (dev, bytes)

unfoldable pub strela_buffer_get_data :
    Device → Bytes → Buffer → (ptr : Ptr) → Outcome (Device × Bytes)
strela_buffer_get_data dev bytes buffer ptr =
    if strela_dev_ok dev
    then if buffer.valid
      then (strela_buffer_to_ptr dev buffer >>= λ strela_buf.
          returned (dev, move_bytes bytes ptr strela_buf (mul64 buffer.size_words word_size)))
      else returned (set_err dev bad_arg, bytes)
    else returned (dev, bytes)

unfoldable pub strela_buffer_free : Device → Buffer → Outcome Device
strela_buffer_free dev buffer =
    if strela_dev_ok dev
    then if buffer.valid
      then (strela_buffer_to_ptr dev buffer >>= λ ptr.
          free_list_free dev.mem dev.buffer_free_list ptr >>= λ (mem, fl).
          returned (record dev { mem = mem; buffer_free_list = fl }))
      else returned (set_err dev bad_arg)
    else returned dev

unfoldable pub strela_buffer_free_all : Device → Device
strela_buffer_free_all dev =
    let (mem, fl) = free_list_free_all dev.mem dev.buffer_free_list in
    if strela_dev_ok dev then record dev { mem = mem; buffer_free_list = fl } else dev

abbrev pub total_words : ℕ
total_words = tensor_memory_size / word_size

-- The range check of `strela_buffer_sync`.
unfoldable pub is_bad_range : Buffer → (offset count : ℕ) → Bool
is_bad_range buffer offset count =
    not buffer.valid
    || (ltb buffer.size_words offset
        || (ltb (sub64 buffer.size_words offset) count
            || (ltb total_words buffer.offset_words_from_base
                || ltb (sub64 total_words buffer.offset_words_from_base) buffer.size_words)))

unfoldable pub strela_buffer_sync :
    Device → Buffer → (flags offset count : ℕ) → Reply (Unit {0}) → Device
strela_buffer_sync dev buffer flags offset count reply =
    let dev₁ =
      if strela_dev_ok dev && is_bad_range buffer offset count then set_err dev bad_arg else dev in
    if strela_dev_ok dev₁
    then strela_sync dev₁ dev₁.tensors_bo_handle flags (add64 buffer.offset_words_from_base offset)
        count reply
    else dev₁

-- ~(size_t) (CACHELINE_WORDS - 1)
abbrev pub cacheline_mask : ℕ
cacheline_mask = 2 ^ 64 - 1 - (cacheline_words - 1)

-- The first word of the line of `offset`, and the first word of the line behind the range.
unfoldable pub line_start : ℕ → ℕ
line_start offset = bit_and offset cacheline_mask

unfoldable pub line_end : (offset count : ℕ) → ℕ
line_end offset count =
    bit_and (sub64 (add64 (add64 offset count) cacheline_words) 1) cacheline_mask

unfoldable pub strela_buffer_flush :
    Device → Buffer → (offset count : ℕ) → Reply (Unit {0}) → Device
strela_buffer_flush dev buffer offset count reply =
    if not (count == 0)
    then strela_buffer_sync dev buffer (bit_or sync_fini sync_write) (line_start offset)
        (sub64 (line_end offset count) (line_start offset)) reply
    else dev

-- `is_aligned(words * sizeof (strela_word), CACHELINE_SIZE)`
abbrev pub is_line_aligned : ℕ → Bool
is_line_aligned words = mul64 words word_size % cacheline_size == 0

unfoldable pub strela_buffer_inval :
    Device → Buffer → (offset count : ℕ) → Reply (Unit {0}) → Device
strela_buffer_inval dev buffer offset count reply =
    let dev₁ =
      if not (is_line_aligned offset) || not (is_line_aligned count)
      then set_err dev bad_arg
      else dev in
    strela_buffer_sync dev₁ buffer (bit_or sync_prep sync_read) offset count reply
