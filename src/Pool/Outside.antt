-- ===== src/Pool/Outside.antt =====
-- What `pool_free_all` leaves alone.
use strela_pynq.Base.{ℕ, zero, suc, ◌+◌, ◌*◌, ◌≤◌, ◌<◌, ◌≡◌, ◌≢◌, ◌⊎◌, refl, ◌∙◌, arith, mul64}
use strela_pynq.Memory.{Ptr, null, Mem, store_ne}
use strela_pynq.Pool.{Pool, pool_free_all, free_all_loop}
use strela_pynq.Pool.Chain.{chunk_within}
use strela_pynq.Pool.Laws.{IsSized, chunk_count}

-- Outside its buffer, a pool's memory stays as it is.
free_all_loop-outside :
    (rounds i : ℕ) (m : Mem) (p : Pool) (a : Ptr)
    → IsSized p
    → rounds + i ≡ chunk_count p
    → (a < p.buf) ⊎ (p.buf + p.buf_len ≤ a)
    → (free_all_loop rounds i m p).0 a ≡ m a
unfolding free_all_loop
free_all_loop-outside zero i m p a z e out = refl
free_all_loop-outside (suc rounds) i m p a z e out =
    free_all_loop-outside rounds (suc i) _ _ a
      (record { room = z.room; not_null = z.not_null; fits = z.fits }) (omega arith) out
    ∙ store_ne m _ p.head a apart
  where
    inside : i * p.chunk_size + p.chunk_size ≤ p.buf_len
    inside = chunk_within p.buf_len p.chunk_size i (omega arith) (omega arith)

    apart : a ≢ p.buf + mul64 i p.chunk_size
    apart = omega (arith, inside, out)

pub pool_free_all-outside :
    (m : Mem) (p : Pool) (a : Ptr)
    → IsSized p
    → (a < p.buf) ⊎ (p.buf + p.buf_len ≤ a)
    → (pool_free_all m p).0 a ≡ m a
unfolding pool_free_all
pool_free_all-outside m p a z out =
    free_all_loop-outside (chunk_count p) 0 m (record p { head = null }) a
      (record { room = z.room; not_null = z.not_null; fits = z.fits }) (omega arith) out
