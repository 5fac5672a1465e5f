-- ===== src/Pool/Guards.antt =====
-- Which pointers `pool_free` takes.
use native.Mathlib.Nat.{mul-mod_left, div-add-mod'}
use strela_pynq.Base.{ℕ, ◌+◌, ◌-◌, ◌*◌, ◌/◌, ◌%◌, ◌≤◌, ◌<◌, ◌≡◌, ◌≢◌, ◌↔◌, arith, ap, ◌∙◌, returned}
use strela_pynq.Memory.{Ptr, null, Mem, store}
use strela_pynq.Pool.{Pool, pool_free}
use strela_pynq.Pool.Laws.{chunk_of, IsSized}

-- In a pool with the bounds of `pool_init`, `pool_free` takes a pointer other than NULL exactly when it stands a whole number of chunks
-- behind the start of the buffer and inside it: the incomplete chunk at the end of a buffer that
-- is no multiple of the chunk size is taken too.
pub pool_free-returned_iff :
    (m : Mem) (p : Pool) (ptr : Ptr)
    → IsSized p
    → ptr ≢ null
    → ((r : Mem × Pool) × (pool_free m p ptr ≡ returned r))
      ↔ ((i : ℕ) × (ptr ≡ chunk_of p i) × (i * p.chunk_size < p.buf_len))
unfolding pool_free
pool_free-returned_iff m p ptr z ne = (
  λ (r, e).
      let in_buf : (p.buf ≤ ptr) × (ptr < p.buf + p.buf_len) × ((ptr - p.buf) % p.chunk_size ≡ 0) =
        ground arith in
      (
        (ptr - p.buf) / p.chunk_size,
        omega (arith, in_buf, div-add-mod' (ptr - p.buf) p.chunk_size),
        omega (arith, in_buf, div-add-mod' (ptr - p.buf) p.chunk_size),
      ),
  λ (i, at, lt).
      let steps : (ptr - p.buf) % p.chunk_size ≡ 0 =
        ap (λ (t : ℕ). t % p.chunk_size) (let d : ptr - p.buf ≡ i * p.chunk_size = omega arith in d)
        ∙ mul-mod_left i p.chunk_size in
      ((store m ptr p.head, record p { head = ptr }), ground arith),
)
