-- ===== src/Arena.antt =====
-- The arena allocator (lib/allocators.c, `Arena`, `arena_*`, `Temp_Arena_Memory` and
-- `temp_arena_memory_*`): allocations follow one another in a buffer. The memory has a byte at each
-- address. An operation takes the memory and the arena and returns them changed. A copy to NULL that
-- is not empty stops the program, as a failed `assert` does.
pub mod Alloc
pub mod Resize
pub mod Temp
use strela_pynq.Base.{
  ℕ, ◌+◌, ◌-◌, ◌==◌, leb, ltb, Bool, true, false, not, ◌&&◌, ◌||◌, if◌then◌else◌, add64, sub64,
  Outcome, returned, aborted, ◌>>=◌,
}
use strela_pynq.Align.{assert◌then◌, is_power_of_two, align_forward_uintptr}
use strela_pynq.Memory.{Ptr, null, Bytes, clear, move_bytes}

pub record Arena : Type 0 where
  pub buf : Ptr
  pub buf_len : ℕ
  pub prev_offset : ℕ
  pub curr_offset : ℕ

-- DEFAULT_ALIGNMENT
abbrev pub default_alignment : ℕ
default_alignment = 8

unfoldable pub arena_init : (backing_buffer : Ptr) (backing_buffer_length : ℕ) → Arena
arena_init backing_buffer backing_buffer_length = record {
  buf = backing_buffer;
  buf_len = backing_buffer_length;
  prev_offset = 0;
  curr_offset = 0;
}

-- `arena_alloc_align` from the comparison on, at the aligned offset.
unfoldable pub alloc_at : Bytes → Arena → (offset size : ℕ) → Bytes × Arena × Ptr
alloc_at m a offset size =
    if leb (add64 offset size) a.buf_len
    then (
      clear m (a.buf + offset) size,
      record a { prev_offset = offset; curr_offset = add64 offset size },
      a.buf + offset,
    )
    else (m, a, null)

unfoldable pub arena_alloc_align : Bytes → Arena → (size align : ℕ) → Outcome (Bytes × Arena × Ptr)
arena_alloc_align m a size align =
    align_forward_uintptr (add64 a.buf a.curr_offset) align >>= λ start.
    returned (alloc_at m a (sub64 start a.buf) size)

unfoldable pub arena_alloc : Bytes → Arena → (size : ℕ) → Outcome (Bytes × Arena × Ptr)
arena_alloc m a size = arena_alloc_align m a size default_alignment

-- Does nothing.
unfoldable pub arena_free : Bytes → Arena → Ptr → Bytes × Arena
arena_free m a ptr = (m, a)

copy_bytes : Bytes → (dst src : Ptr) (n : ℕ) → Outcome Bytes
copy_bytes m dst src n =
    if (dst == null) && not (n == 0) then aborted else returned (move_bytes m dst src n)

-- The last allocation is resized in its place.
resize_last : Bytes → Arena → Ptr → (old_size new_size : ℕ) → Bytes × Arena × Ptr
resize_last m a old old_size new_size =
    if ltb a.buf_len (add64 a.prev_offset new_size) then (m, a, null) else (
      (if ltb old_size new_size
          then clear m (a.buf + (a.prev_offset + old_size)) (new_size - old_size)
          else m),
      record a { curr_offset = add64 a.prev_offset new_size },
      old,
    )

-- Any other is copied to a new one.
resize_moved : Bytes → Arena → Ptr → (old_size new_size align : ℕ) → Outcome (Bytes × Arena × Ptr)
resize_moved m a old old_size new_size align =
    arena_alloc_align m a new_size align >>= λ (m', a', new_memory).
    copy_bytes m' new_memory old (if ltb old_size new_size then old_size else new_size) >>= λ m''.
    returned (m'', a', new_memory)

unfoldable pub arena_resize_align :
    Bytes
    → Arena
    → (old_memory : Ptr) → (old_size new_size align : ℕ) → Outcome (Bytes × Arena × Ptr)
unfolding resize_last resize_moved copy_bytes
arena_resize_align m a old_memory old_size new_size align =
    assert is_power_of_two align
    then if (old_memory == null) || (old_size == 0)
    then arena_alloc_align m a new_size align
    else if leb a.buf old_memory && ltb old_memory (a.buf + a.buf_len)
    then if a.buf + a.prev_offset == old_memory
      then returned (resize_last m a old_memory old_size new_size)
      else resize_moved m a old_memory old_size new_size align
    else aborted

unfoldable pub arena_resize :
    Bytes → Arena → (old_memory : Ptr) (old_size new_size : ℕ) → Outcome (Bytes × Arena × Ptr)
arena_resize m a old_memory old_size new_size =
    arena_resize_align m a old_memory old_size new_size default_alignment

unfoldable pub arena_free_all : Arena → Arena
arena_free_all a = record a { prev_offset = 0; curr_offset = 0 }

-- The arena that it is about is an argument of `temp_arena_memory_end`.
pub record TempArenaMemory : Type 0 where
  pub prev_offset : ℕ
  pub curr_offset : ℕ

unfoldable pub temp_arena_memory_begin : Arena → TempArenaMemory
temp_arena_memory_begin a = record { prev_offset = a.prev_offset; curr_offset = a.curr_offset }

unfoldable pub temp_arena_memory_end : TempArenaMemory → Arena → Arena
temp_arena_memory_end temp a = record a {
  prev_offset = temp.prev_offset;
  curr_offset = temp.curr_offset;
}
