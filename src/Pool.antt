-- ===== src/Pool.antt =====
-- The pool allocator (lib/allocators.c, `Pool` and `pool_*`): chunks of one size whose free ones
-- are linked through their first word. An operation takes the memory and the `Pool` and returns
-- them changed. `assert` stays on, as in the library's build.
pub mod Chain
pub mod Guards
pub mod Init
pub mod Laws
pub mod Outside
use strela_pynq.Base.{
  ℕ, zero, suc, ◌+◌, ◌-◌, ◌*◌, ◌/◌, ◌%◌, ◌==◌, leb, ltb, Bool, true, false, not, ◌&&◌,
  if◌then◌else◌, sub64, mul64, Outcome, returned, aborted, ◌>>=◌,
}
use strela_pynq.Align.{assert◌then◌, align_forward_uintptr, align_forward_size}
use strela_pynq.Memory.{Ptr, null, Mem, store, clear}

pub record Pool : Type 0 where
  pub buf : Ptr
  pub buf_len : ℕ
  pub chunk_size : ℕ
  pub head : Ptr

-- sizeof (Pool_Free_Node)
abbrev pub node_size : ℕ
node_size = 8

-- The loop of `pool_free_all`, with `rounds` rounds left and `i` behind it.
pub free_all_loop : ℕ → ℕ → Mem → Pool → Mem × Pool
free_all_loop zero i m p = (m, p)
free_all_loop (suc rounds) i m p =
    let ptr = p.buf + mul64 i p.chunk_size in
    free_all_loop rounds (suc i) (store m ptr p.head) (record p { head = ptr })

unfoldable pub pool_free_all : Mem → Pool → Mem × Pool
unfolding free_all_loop
pool_free_all m p = free_all_loop (p.buf_len / p.chunk_size) 0 m (record p { head = null })

unfoldable pub pool_init :
    Mem → Ptr → (backing_buffer_length chunk_size chunk_alignment : ℕ) → Outcome (Mem × Pool)
pool_init m backing_buffer backing_buffer_length chunk_size chunk_alignment = do
  start ← align_forward_uintptr backing_buffer chunk_alignment
  let len = sub64 backing_buffer_length (sub64 start backing_buffer)
  size ← align_forward_size chunk_size chunk_alignment
  assert leb node_size size
      then assert leb size len
      then returned
          (pool_free_all m (record { buf = start; buf_len = len; chunk_size = size; head = null }))

unfoldable pub pool_alloc : Mem → Pool → Mem × Pool × Ptr
pool_alloc m p =
    let node = p.head in
    if node == null
    then (m, p, null)
    else (clear m node p.chunk_size, record p { head = m node }, node)

unfoldable pub pool_free : Mem → Pool → Ptr → Outcome (Mem × Pool)
pool_free m p ptr =
    if ptr == null
    then returned (m, p)
    else if not (leb p.buf ptr && ltb ptr (p.buf + p.buf_len))
    then aborted
    else if not ((ptr - p.buf) % p.chunk_size == 0)
    then aborted
    else returned (store m ptr p.head, record p { head = ptr })
