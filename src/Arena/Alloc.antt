-- ===== src/Arena/Alloc.antt =====
-- What an allocation from an arena gives (lib/allocators.c, `arena_alloc_align`).
use strela_pynq.Base.{
  ℕ, ◌+◌, ◌*◌, ◌^◌, ◌≤◌, ◌<◌, ◌≡◌, ◌⊎◌, inl, inr, refl, subst, arith, leb, Bool-cases, add64, sub64,
  Returns, ends,
}
use strela_pynq.Memory.{Bytes, Ptr, null, clear_inside, clear_outside}
use strela_pynq.Align.{bump_to}
use strela_pynq.Align.PowerOfTwo.{IsPow2}
use strela_pynq.Align.Laws.{IsAligned, bump_to-IsAligned, align_forward_uintptr-pow2}
use strela_pynq.Arena.{Arena, alloc_at, arena_alloc_align}

-- The buffer lies in the addresses of a process, and what is allocated in the buffer.
pub record IsArena (a : Arena) : Type 0 where
  pub not_null : 0 < a.buf
  pub fits : a.buf + a.buf_len < 2 ^ 63
  pub inside : a.curr_offset ≤ a.buf_len
  pub last : a.prev_offset ≤ a.curr_offset

-- What an allocation of `size` bytes makes of `m` and `a`; `start` is the first aligned address
-- behind what is allocated.
pub data Allocates (m : Bytes) (a : Arena) (size start : ℕ) : Bytes × Arena × Ptr → Type 0 where
  full : a.buf + a.buf_len < start + size → Allocates m a size start (m, a, null)
  allocated :
      {m' : Bytes} {a' : Arena}
      → start + size ≤ a.buf + a.buf_len
      → IsArena a'
      → (a'.buf ≡ a.buf) × (a'.buf_len ≡ a.buf_len)
      → (a'.buf + a'.prev_offset ≡ start) × (a'.buf + a'.curr_offset ≡ start + size)
      → ((x : ℕ) → start ≤ x → x < start + size → m' x ≡ 0)
      → ((x : ℕ) → (x < start) ⊎ (start + size ≤ x) → m' x ≡ m x)
      → Allocates m a size start (m', a', start)

alloc_at-Allocates :
    (m : Bytes) (a : Arena) (offset size : ℕ)
    → IsArena a
    → a.curr_offset ≤ offset
    → offset < 3 * 2 ^ 62
    → size < 2 ^ 62
    → Allocates m a size (a.buf + offset) (alloc_at m a offset size)
unfolding alloc_at
alloc_at-Allocates m a offset size v le small small' =
    elim (Bool-cases (leb (add64 offset size) a.buf_len)) [
      | inl room ↦ rw room (
          allocated (ground (arith, room))
            (record {
              not_null = v.not_null;
              fits = v.fits;
              inside = ground (arith, room);
              last = omega arith;
            })
            (refl, refl) (refl, omega arith)
            (λ x lo hi. clear_inside m (a.buf + offset) size x lo hi)
            (λ x out. clear_outside m (a.buf + offset) size x out))
      | inr none ↦ rw none (full (ground (arith, none)))
    ]

-- With an alignment that is a power of two and sizes below 2^62, an allocation returns: the first
-- aligned address behind what is allocated, if the size fits the buffer from there, or NULL, and
-- then nothing changes. The bytes are zeroed, no others change, and all that was allocated before
-- lies in front of them.
pub arena_alloc_align-Allocates :
    (m : Bytes) (a : Arena) (size align : ℕ)
    → IsArena a
    → IsPow2 align
    → align < 2 ^ 62
    → size < 2 ^ 62
    → (start : Ptr) × IsAligned (a.buf + a.curr_offset) align start
      × Returns (Allocates m a size start) (arena_alloc_align m a size align)
unfolding arena_alloc_align
arena_alloc_align-Allocates m a size align v two small small' =
    let p = a.buf + a.curr_offset in
    let at : IsAligned p align (bump_to p align) =
      bump_to-IsAligned p align two (omega arith) (omega (arith, v.fits, v.inside)) in
    let whole : add64 a.buf a.curr_offset ≡ p = omega (arith, v.fits, v.inside) in
    let offset : a.buf + sub64 (bump_to p align) a.buf ≡ bump_to p align =
      omega (arith, at, v.fits, v.inside) in
    (
      bump_to p align,
      at,
      rw (whole, align_forward_uintptr-pow2 p align two (omega arith))
          (ends (
            subst (λ s. Allocates m a size s (alloc_at m a (sub64 (bump_to p align) a.buf) size))
              offset
              (alloc_at-Allocates m a (sub64 (bump_to p align) a.buf) size v
                (omega (arith, offset, at)) (omega (arith, offset, at, v.fits, v.inside))
                (omega arith)))),
    )
