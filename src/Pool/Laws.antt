-- ===== src/Pool/Laws.antt =====
-- The pool against the set of its free chunks: a stack of chunk numbers.
use native.Mathlib.Nat.{mul-mod_left}
use strela_pynq.Base.{
  ℕ, zero, suc, ◌+◌, ◌-◌, ◌*◌, ◌/◌, ◌%◌, ◌≤◌, ◌<◌, ◌^◌, ◌≡◌, ◌≢◌, ◌⊎◌, List, [], ◌∷◌, arith, refl,
  ap, returned, sym, ◌∙◌, mul64, ◌==◌, false, true, subst, NotIn,
}
use strela_pynq.Memory.{
  Ptr, null, Mem, store, clear, store_self, store_ne, clear_outside, clear_inside,
}
use strela_pynq.Pool.{Pool, pool_alloc, pool_free, pool_free_all, free_all_loop}
use strela_pynq.Pool.Chain.{chunk, Chain, chunks_apart, chunk_injective, chunk_within, Chain-frame}

abbrev pub chunk_of : Pool → ℕ → Ptr
chunk_of p i = chunk p.buf p.chunk_size i

abbrev pub chunk_count : Pool → ℕ
chunk_count p = p.buf_len / p.chunk_size

-- The bounds that `pool_init` establishes.
pub record IsSized (p : Pool) : Type 0 where
  pub room : 8 ≤ p.chunk_size
  pub not_null : 0 < p.buf
  pub fits : p.buf + p.buf_len ≤ 2 ^ 64

-- `free` lists the numbers of the free chunks, the next one to be handed out first.
pub record IsPool (m : Mem) (p : Pool) (free : List ℕ) : Type 0 where
  pub sized : IsSized p
  pub chain : Chain m p.buf p.chunk_size (chunk_count p) p.head free

-- What `pool_alloc` promises when chunk `i` is the next free one.
pub record Allocates (m : Mem) (p : Pool) (i : ℕ) (is : List ℕ) (r : Mem × Pool × Ptr)
    : Type 0 where
  pub gives : r.2 ≡ chunk_of p i
  pub number : i < chunk_count p
  pub geometry : (r.1.buf ≡ p.buf) × (r.1.buf_len ≡ p.buf_len) × (r.1.chunk_size ≡ p.chunk_size)
  pub pool : IsPool r.0 r.1 is
  pub zeroed : (a : Ptr) → chunk_of p i ≤ a → a < chunk_of p i + p.chunk_size → r.0 a ≡ 0
  pub spared : (a : Ptr) → (a < chunk_of p i) ⊎ (chunk_of p i + p.chunk_size ≤ a) → r.0 a ≡ m a

-- With a free chunk, `pool_alloc` hands out the first on the list, zeroed; it changes no other
-- memory, and the others stay free.
pub pool_alloc-Allocates :
    (m : Mem) (p : Pool) (i : ℕ) (is : List ℕ)
    → IsPool m p (i ∷ is)
    → Allocates m p i is (pool_alloc m p)
unfolding pool_alloc
pool_alloc-Allocates m p i is v = rw taken (record {
  gives = at;
  number = lt;
  geometry = (refl, refl, refl);
  pool = record {
    sized = record { room = v.sized.room; not_null = v.sized.not_null; fits = v.sized.fits };
    chain = rw at (
        Chain-frame p.buf p.chunk_size (chunk_count p) i m (clear m (chunk_of p i) p.chunk_size)
          (m (chunk_of p i)) is kept fresh rest);
  };
  zeroed = λ a lo hi. rw at (clear_inside m (chunk_of p i) p.chunk_size a lo hi);
  spared = λ a out. rw at (clear_outside m (chunk_of p i) p.chunk_size a out);
})
  where
    at : p.head ≡ chunk_of p i
    at = v.chain.0

    lt : i < chunk_count p
    lt = v.chain.1

    fresh : NotIn i is
    fresh = v.chain.2

    rest : Chain m p.buf p.chunk_size (chunk_count p) (m (chunk_of p i)) is
    rest = v.chain.3

    taken : (p.head == null) ≡ false
    taken = ground arith

    kept : (j : ℕ) → j ≢ i → clear m (chunk_of p i) p.chunk_size (chunk_of p j) ≡ m (chunk_of p j)
    kept j ne =
        clear_outside m (chunk_of p i) p.chunk_size (chunk_of p j)
          (chunks_apart p.buf p.chunk_size i j (omega arith) (λ e. ne (sym e)))

-- With no free chunk `pool_alloc` returns NULL and changes nothing.
pool_alloc-nil : (m : Mem) (p : Pool) → IsPool m p [] → pool_alloc m p ≡ (m, p, null)
unfolding pool_alloc
pool_alloc-nil m p v = rw taken
  where
    taken : (p.head == null) ≡ true
    taken = ground arith

-- `pool_free` of a chunk that is not free is accepted and puts it in front of the free chunks.
pub pool_free-IsPool :
    (m : Mem) (p : Pool) (i : ℕ) (is : List ℕ)
    → IsPool m p is
    → i < chunk_count p
    → NotIn i is
    → (pool_free m p (chunk_of p i)
        ≡ returned (store m (chunk_of p i) p.head, record p { head = chunk_of p i }))
      × IsPool (store m (chunk_of p i) p.head) (record p { head = chunk_of p i }) (i ∷ is)
unfolding pool_free
pool_free-IsPool m p i is v lt fresh = (
  accepted,
  record {
    sized = record { room = v.sized.room; not_null = v.sized.not_null; fits = v.sized.fits };
    chain = (
      refl,
      lt,
      fresh,
      rw (store_self m (chunk_of p i) p.head) (
          Chain-frame p.buf p.chunk_size (chunk_count p) i m (store m (chunk_of p i) p.head) p.head
            is kept fresh v.chain),
    );
  },
)
  where
    within : i * p.chunk_size + p.chunk_size ≤ p.buf_len
    within = chunk_within p.buf_len p.chunk_size i (omega arith) lt

    aligned : (chunk_of p i - p.buf) % p.chunk_size ≡ 0
    aligned = ap (λ (t : ℕ). t % p.chunk_size) (omega arith) ∙ mul-mod_left i p.chunk_size

    accepted :
        pool_free m p (chunk_of p i)
        ≡ returned (store m (chunk_of p i) p.head, record p { head = chunk_of p i })
    accepted = ground (arith, within, aligned)

    kept : (j : ℕ) → j ≢ i → store m (chunk_of p i) p.head (chunk_of p j) ≡ m (chunk_of p j)
    kept j ne =
        store_ne m (chunk_of p i) p.head (chunk_of p j)
          (chunk_injective p.buf p.chunk_size i j (omega arith) (λ e. ne (sym e)))

-- All chunk numbers below `n`, the highest first.
abbrev pub below : ℕ → List ℕ
below zero = []
below (suc n) = n ∷ below n

below-NotIn : (n i : ℕ) → n ≤ i → NotIn i (below n)
below-NotIn zero i h = tt
below-NotIn (suc n) i h = (omega arith, below-NotIn n i (omega arith))

-- What `pool_free_all` leaves.
pub record Refilled (p : Pool) (n : ℕ) (r : Mem × Pool) : Type 0 where
  pub geometry : (r.1.buf ≡ p.buf) × (r.1.buf_len ≡ p.buf_len) × (r.1.chunk_size ≡ p.chunk_size)
  pub chain : Chain r.0 p.buf p.chunk_size n r.1.head (below n)

free_all_loop-Refilled :
    (rounds i n : ℕ) (m : Mem) (p : Pool)
    → IsSized p
    → rounds + i ≡ n
    → n ≡ chunk_count p
    → Chain m p.buf p.chunk_size n p.head (below i)
    → Refilled p n (free_all_loop rounds i m p)
unfolding free_all_loop
free_all_loop-Refilled zero i n m p z e en c = record {
  geometry = (refl, refl, refl);
  chain =
      subst (λ k. Chain m p.buf p.chunk_size n p.head (below k))
        (let done : i ≡ n = omega arith in done) c;
}
free_all_loop-Refilled (suc rounds) i n m p z e en c = rw here (
    let rest =
      free_all_loop-Refilled rounds (suc i) n (store m ptr p.head) (record p { head = ptr })
        (record { room = z.room; not_null = z.not_null; fits = z.fits }) (omega arith) en
        (refl, omega arith, below-NotIn i i (omega arith), rw (store_self m ptr p.head) pushed) in
    record { geometry = rest.geometry; chain = rest.chain })
  where
    ptr : Ptr
    ptr = chunk_of p i

    here : mul64 i p.chunk_size ≡ i * p.chunk_size
    here = omega (arith, chunk_within p.buf_len p.chunk_size i (omega arith) (omega arith))

    kept : (j : ℕ) → j ≢ i → store m ptr p.head (chunk_of p j) ≡ m (chunk_of p j)
    kept j ne =
        store_ne m ptr p.head (chunk_of p j)
          (chunk_injective p.buf p.chunk_size i j (omega arith) (λ e. ne (sym e)))

    pushed : Chain (store m ptr p.head) p.buf p.chunk_size n p.head (below i)
    pushed =
        Chain-frame p.buf p.chunk_size n i m (store m ptr p.head) p.head (below i) kept
          (below-NotIn i i (omega arith)) c

SameGeometry-IsPool :
    (m : Mem) (p q : Pool) (is : List ℕ)
    → q.buf ≡ p.buf
    → q.buf_len ≡ p.buf_len
    → q.chunk_size ≡ p.chunk_size
    → IsSized p
    → Chain m p.buf p.chunk_size (chunk_count p) q.head is
    → IsPool m q is
SameGeometry-IsPool m p q is eb el es z c = record {
  sized = record { room = omega arith; not_null = omega arith; fits = omega arith };
  chain = simp (eb, el, es) c;
}

-- In a pool with the bounds of `pool_init`, `pool_free_all` makes every chunk free, whatever was free before, the last chunk first. It
-- leaves the buffer, its length and the chunk size as they are.
pub pool_free_all-IsPool :
    (m : Mem) (p : Pool)
    → IsSized p
    → IsPool (pool_free_all m p).0 (pool_free_all m p).1 (below (chunk_count p))
      × ((pool_free_all m p).1.buf ≡ p.buf)
      × ((pool_free_all m p).1.buf_len ≡ p.buf_len)
      × ((pool_free_all m p).1.chunk_size ≡ p.chunk_size)
unfolding pool_free_all
pool_free_all-IsPool m p z =
    let r =
      free_all_loop-Refilled (chunk_count p) 0 (chunk_count p) m (record p { head = null })
        (record { room = z.room; not_null = z.not_null; fits = z.fits }) (omega arith) refl refl in
    (
      SameGeometry-IsPool _ p _ _ r.geometry.0 r.geometry.1 r.geometry.2 z r.chain,
      r.geometry.0,
      r.geometry.1,
      r.geometry.2,
    )
