-- ===== src/Tests/Pools.antt =====
-- The pool and the alignment helpers at concrete numbers.
use strela_pynq.Base.{ℕ, ◌≡◌, ◌↔◌, arith, [], ◌∷◌, returned, ◌*◌, ◌<◌}
use strela_pynq.Memory.{Mem}
use strela_pynq.Pool.{Pool, pool_alloc, pool_free, pool_free_all}
use strela_pynq.Pool.Laws.{IsSized, Allocates, chunk_of, pool_alloc-Allocates, pool_free_all-IsPool}
use strela_pynq.Pool.Guards.{pool_free-returned_iff}

abbrev blank : Mem
blank = λ a. 0

-- Three chunks of 320 bytes and 40 bytes behind them.
abbrev three : Pool
three = record { buf = 4096; buf_len = 1000; chunk_size = 320; head = 0 }

three-IsSized : IsSized three
three-IsSized = record { room = omega arith; not_null = omega arith; fits = omega arith }

pool_alloc-Allocates_example :
    Allocates
      (pool_free_all blank three).0
      (pool_free_all blank three).1
      2
      (1 ∷ 0 ∷ [])
      (pool_alloc (pool_free_all blank three).0 (pool_free_all blank three).1)
pool_alloc-Allocates_example =
    pool_alloc-Allocates (pool_free_all blank three).0 (pool_free_all blank three).1 2 (1 ∷ 0 ∷ [])
      (pool_free_all-IsPool blank three three-IsSized).0

pool_free-returned_iff_example :
    ((r : Mem × Pool) × (pool_free blank three 5056 ≡ returned r))
    ↔ ((i : ℕ) × (5056 ≡ chunk_of three i) × (i * 320 < 1000))
pool_free-returned_iff_example =
    pool_free-returned_iff blank three 5056 three-IsSized (λ e. omega arith)
