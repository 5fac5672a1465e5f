-- ===== src/Pool/Init.antt =====
-- `pool_init`: from a backing buffer to a pool whose chunks are all free.
use strela_pynq.Base.{ℕ, ◌+◌, ◌*◌, ◌≤◌, ◌<◌, ◌^◌, ◌≡◌, arith, returned, sub64, leb}
use strela_pynq.Memory.{null, Mem}
use strela_pynq.Align.{bump_to, assert◌then◌}
use strela_pynq.Align.PowerOfTwo.{IsPow2}
use strela_pynq.Align.Laws.{
  IsAligned, bump_to-IsAligned, align_forward_uintptr-pow2, align_forward_size-pow2,
}
use strela_pynq.Pool.{Pool, pool_init, pool_free_all, node_size}
use strela_pynq.Pool.Laws.{IsSized, IsPool, below, chunk_count, pool_free_all-IsPool}

-- The numbers given to `pool_init` fit the word, and leave room for one chunk behind the
-- alignment of the buffer and of the chunk.
pub record Fits (b len c a : ℕ) : Type 0 where
  pub power : IsPow2 a
  pub not_null : 0 < b
  pub ends : b + len < 2 ^ 64
  pub node : 8 ≤ c
  pub room : c + 2 * a ≤ len

pub record Initial (b len c a : ℕ) (r : Mem × Pool) : Type 0 where
  pub pool : IsPool r.0 r.1 (below (chunk_count r.1))
  pub start : IsAligned b a r.1.buf
  pub end : r.1.buf + r.1.buf_len ≡ b + len
  pub size : IsAligned c a r.1.chunk_size

-- Where the numbers fit the word, the alignment is a power of two and the buffer has room for one
-- chunk behind the alignment, `pool_init` returns a pool whose buffer starts at the first aligned address of the backing
-- buffer and ends where that ends, whose chunk size is the size rounded up to the alignment, and
-- all of whose chunks are free.
pub pool_init-Initial :
    (m : Mem) (b len c a : ℕ)
    → Fits b len c a
    → (r : Mem × Pool) × (pool_init m b len c a ≡ returned r) × Initial b len c a r
unfolding pool_init
pool_init-Initial m b len c a f = (
  pool_free_all m pool,
  rw (align_forward_uintptr-pow2 b a f.power small, align_forward_size-pow2 c a f.power small)
      checks,
  record {
    pool = rw (filled.2, filled.3) filled.0;
    start = rw filled.1 start_at;
    end = omega (arith, filled, length_left);
    size = rw filled.3 size_at;
  },
)
  where
    small : a < 2 ^ 64
    small = omega arith

    start_at : IsAligned b a (bump_to b a)
    start_at = bump_to-IsAligned b a f.power small (omega arith)

    size_at : IsAligned c a (bump_to c a)
    size_at = bump_to-IsAligned c a f.power small (omega arith)

    pool : Pool
    pool = record {
      buf = bump_to b a;
      buf_len = sub64 len (sub64 (bump_to b a) b);
      chunk_size = bump_to c a;
      head = null;
    }

    length_left : pool.buf_len + bump_to b a ≡ b + len
    length_left = omega (arith, start_at)

    sized : IsSized pool
    sized = record {
      room = omega (arith, size_at);
      not_null = omega (arith, start_at);
      fits = omega (arith, length_left);
    }

    filled :
        IsPool (pool_free_all m pool).0 (pool_free_all m pool).1 (below (chunk_count pool))
        × ((pool_free_all m pool).1.buf ≡ pool.buf)
        × ((pool_free_all m pool).1.buf_len ≡ pool.buf_len)
        × ((pool_free_all m pool).1.chunk_size ≡ pool.chunk_size)
    filled = pool_free_all-IsPool m pool sized

    checks :
        (assert leb node_size pool.chunk_size
          then assert leb pool.chunk_size pool.buf_len
          then returned (pool_free_all m pool))
        ≡ returned (pool_free_all m pool)
    checks = ground (arith, size_at, length_left, start_at)
