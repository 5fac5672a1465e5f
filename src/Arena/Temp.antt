-- ===== src/Arena/Temp.antt =====
-- A temporary use of an arena (lib/allocators.c, `temp_arena_memory_begin`, `temp_arena_memory_end`).
use strela_pynq.Base.{
  ℕ, ◌+◌, ◌^◌, ◌<◌, ◌≤◌, ◌≡◌, refl, ◌∙◌, arith, List, [], ◌∷◌, Outcome, returned, ◌>>=◌, Returns,
  ends, Returns-bind, Returns-result,
}
use strela_pynq.Memory.{Bytes, Ptr}
use strela_pynq.Align.PowerOfTwo.{IsPow2}
use strela_pynq.Arena.{Arena, arena_alloc_align, temp_arena_memory_begin, temp_arena_memory_end}
use strela_pynq.Arena.Alloc.{IsArena, Allocates, full, allocated, arena_alloc_align-Allocates}

-- Allocations one after the other, each by its size and its alignment; a refused one is left out.
pub alloc_each : Bytes → Arena → List (ℕ × ℕ) → Outcome (Bytes × Arena)
alloc_each m a [] = returned (m, a)
alloc_each m a ((size, align) ∷ requests) =
    arena_alloc_align m a size align >>= λ (m', a', ptr). alloc_each m' a' requests

-- Requests with alignments and sizes as `arena_alloc_align` takes them.
abbrev pub AreRequests : List (ℕ × ℕ) → Type 0
AreRequests [] = Unit {0}
AreRequests ((size, align) ∷ requests) =
    IsPow2 align × (align < 2 ^ 62) × (size < 2 ^ 62) × AreRequests requests

-- The same buffer, as far as `first` in use at least, whose bytes there are as they were.
pub record Extends (m : Bytes) (a : Arena) (m' : Bytes) (a' : Arena) : Type 0 where
  pub arena : IsArena a'
  pub buf : a'.buf ≡ a.buf
  pub buf_len : a'.buf_len ≡ a.buf_len
  pub more : a.curr_offset ≤ a'.curr_offset
  pub kept : (x : ℕ) → x < a.buf + a.curr_offset → m' x ≡ m x

Allocates-Extends :
    (m : Bytes) (a : Arena) (size start : ℕ) (r : Bytes × Arena × Ptr)
    → IsArena a
    → a.buf + a.curr_offset ≤ start
    → Allocates m a size start r
    → Extends m a r.0 r.1
Allocates-Extends m a size start r v le (full none) = record {
  arena = v;
  buf = refl;
  buf_len = refl;
  more = omega arith;
  kept = λ x lt. refl;
}
Allocates-Extends m a size start r v le (allocated room v' geometry at zeroed kept) = record {
  arena = v';
  buf = geometry.0;
  buf_len = geometry.1;
  more = omega (arith, geometry, at);
  kept = λ x lt. kept x (ground (arith, lt, le));
}

Extends-trans :
    {m m' m'' : Bytes} {a a' a'' : Arena}
    → Extends m a m' a'
    → Extends m' a' m'' a''
    → Extends m a m'' a''
Extends-trans p q = record {
  arena = q.arena;
  buf = q.buf ∙ p.buf;
  buf_len = q.buf_len ∙ p.buf_len;
  more = omega (arith, p.more, q.more);
  kept = λ x lt. q.kept x (omega (arith, p.buf, p.more, lt)) ∙ p.kept x lt;
}

alloc_each-Extends :
    (requests : List (ℕ × ℕ)) (m : Bytes) (a : Arena)
    → IsArena a
    → AreRequests requests
    → Returns (λ r. Extends m a r.0 r.1) (alloc_each m a requests)
unfolding alloc_each
alloc_each-Extends [] m a v good =
    ends (record { arena = v; buf = refl; buf_len = refl; more = omega arith; kept = λ x lt. refl })
alloc_each-Extends ((size, align) ∷ requests) m a v (two, small, small', good) =
    let (start, at, call) = arena_alloc_align-Allocates m a size align v two small small' in
    Returns-bind call (λ r c.
      let first = Allocates-Extends m a size start r v at.from c in
      let (r', is, rest) = Returns-result (alloc_each-Extends requests r.0 r.1 first.arena good) in
      rw is (ends (Extends-trans first rest)))

-- Whatever is allocated between the beginning and the end of a temporary use, the end gives the
-- arena of the beginning back, and the bytes that were allocated then are as they were. The
-- alignments are powers of two, and they and the sizes lie below 2^62.
pub temp_arena_memory_end-begin :
    (requests : List (ℕ × ℕ)) (m : Bytes) (a : Arena)
    → IsArena a
    → AreRequests requests
    → Returns
        (λ r.
          (temp_arena_memory_end (temp_arena_memory_begin a) r.1 ≡ a)
          × ((x : ℕ) → x < a.buf + a.curr_offset → r.0 x ≡ m x))
        (alloc_each m a requests)
unfolding temp_arena_memory_end temp_arena_memory_begin
temp_arena_memory_end-begin requests m a v good =
    let (r, is, e) = Returns-result (alloc_each-Extends requests m a v good) in
    rw is (ends (simp (e.buf, e.buf_len) refl, e.kept))
