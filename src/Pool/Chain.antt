-- ===== src/Pool/Chain.antt =====
-- What the linked free chunks stand for: a list of chunk numbers. A chain is stated over the
-- three numbers that fix the chunks: the buffer, the chunk size and the number of chunks.
use strela_pynq.Base.{
  ℕ, ◌+◌, ◌*◌, ◌/◌, ◌≤◌, ◌<◌, ◌≡◌, ◌≢◌, ◌⊎◌, List, [], ◌∷◌, arith, subst, sym, NotIn,
}
use strela_pynq.Memory.{Ptr, null, Mem}

abbrev pub chunk : (b s i : ℕ) → Ptr
chunk b s i = b + i * s

-- From `ptr` the first words lead through the chunks `is`, each once, to NULL.
abbrev pub Chain : Mem → (b s n : ℕ) → Ptr → List ℕ → Type 0
Chain m b s n ptr [] = ptr ≡ null
Chain m b s n ptr (i ∷ is) =
    (ptr ≡ chunk b s i) × (i < n) × NotIn i is × Chain m b s n (m (chunk b s i)) is

-- Different chunks lie apart.
stride : (s i j : ℕ) → i < j → i * s + s ≤ j * s
stride s i j h = grind arith

pub chunks_apart :
    (b s i j : ℕ) → 0 < s → i ≢ j → (chunk b s j < chunk b s i) ⊎ (chunk b s i + s ≤ chunk b s j)
chunks_apart b s i j pos ne = ground (arith, stride s i j, stride s j i)

pub chunk_injective : (b s i j : ℕ) → 0 < s → i ≢ j → chunk b s j ≢ chunk b s i
chunk_injective b s i j pos ne = omega (arith, chunks_apart b s i j pos ne)

pub chunk_within : (len s i : ℕ) → 0 < s → i < len / s → i * s + s ≤ len
chunk_within len s i pos h = grind arith

module _ (b s n i : ℕ) where
  -- Writing to chunk `i` keeps a chain that `i` is not on.
  pub Chain-frame :
      (m g : Mem) (ptr : Ptr) (is : List ℕ)
      → ((j : ℕ) → j ≢ i → g (chunk b s j) ≡ m (chunk b s j))
      → NotIn i is
      → Chain m b s n ptr is
      → Chain g b s n ptr is
  Chain-frame m g ptr [] same out c = c
  Chain-frame m g ptr (j ∷ js) same (ne, out) (at, lt, fresh, rest) = (
    at,
    lt,
    fresh,
    Chain-frame m g (g (chunk b s j)) js same out
        (subst (λ q. Chain m b s n q js) (sym (same j (λ e. ne (sym e)))) rest),
  )
