-- ===== src/Arena/Resize.antt =====
-- What resizing an allocation of an arena does (lib/allocators.c, `arena_resize_align`), and what a
-- temporary use of an arena leaves.
use strela_pynq.Base.{
  ℕ, ◌+◌, ◌==◌, ◌^◌, ◌≤◌, ◌<◌, ◌≡◌, ◌≢◌, ◌⊎◌, inl, inr, refl, ◌∙◌, subst, arith, true, false, not,
  leb, ltb, Bool-cases, if◌then◌else◌, add64, Outcome, returned, aborted, ◌>>=◌, Returns-result,
}
use strela_pynq.Memory.{Ptr, null, Bytes, clear, move_inside, move_outside}
use strela_pynq.Align.{assert◌then◌, is_power_of_two}
use strela_pynq.Align.Laws.{IsAligned}
use strela_pynq.Align.PowerOfTwo.{IsPow2, is_power_of_two_iff}
use strela_pynq.Arena.{Arena, arena_resize_align, resize_last, resize_moved, copy_bytes}
use strela_pynq.Arena.Alloc.{IsArena, Allocates, full, allocated, arena_alloc_align-Allocates}

-- `old_size` bytes at `old` are allocated in the arena, and not the last allocation's.
pub record IsBlock (a : Arena) (old old_size : ℕ) : Type 0 where
  pub from : a.buf ≤ old
  pub some_bytes : 0 < old_size
  pub inside : old + old_size ≤ a.buf + a.curr_offset

abbrev pub shorter : ℕ → ℕ → ℕ
shorter old_size new_size = if ltb old_size new_size then old_size else new_size

-- The allocation at `old` has become one at `new`, with the bytes that both have; what the new one
-- has more is zeroed.
pub record Resized (m : Bytes) (a : Arena) (old old_size new_size : ℕ) (r : Bytes × Arena × Ptr)
    : Type 0 where
  pub arena : IsArena r.1
  pub buf : r.1.buf ≡ a.buf
  pub buf_len : r.1.buf_len ≡ a.buf_len
  pub at : r.1.buf + r.1.prev_offset ≡ r.2
  pub end : r.1.buf + r.1.curr_offset ≡ r.2 + new_size
  pub same : (i : ℕ) → i < shorter old_size new_size → r.0 (r.2 + i) ≡ m (old + i)
  pub zeroed : (i : ℕ) → old_size ≤ i → i < new_size → r.0 (r.2 + i) ≡ 0
  pub kept : (x : ℕ) → (x < r.2) ⊎ (r.2 + new_size ≤ x) → r.0 x ≡ m x

-- The last allocation: resized in its place, or NULL and unchanged where the buffer ends.
resize_last-Resized :
    (m : Bytes) (a : Arena) (old_size new_size : ℕ)
    → IsArena a
    → a.prev_offset + old_size ≤ a.curr_offset
    → new_size < 2 ^ 62
    → ((resize_last m a (a.buf + a.prev_offset) old_size new_size ≡ (m, a, null))
        × (a.buf_len < a.prev_offset + new_size))
      ⊎ (Resized m a
            (a.buf + a.prev_offset)
            old_size
            new_size
            (resize_last m a (a.buf + a.prev_offset) old_size new_size)
          × (a.prev_offset + new_size ≤ a.buf_len)
          × ((resize_last m a (a.buf + a.prev_offset) old_size new_size).2 ≡ a.buf + a.prev_offset))
unfolding resize_last clear
resize_last-Resized m a old_size new_size v block small =
    elim (Bool-cases (ltb a.buf_len (add64 a.prev_offset new_size))) [
      | inl none ↦ inl (rw none refl, ground (arith, none, v.fits))
      | inr room ↦ rw room (
          inr (
            record {
              arena = record {
                not_null = v.not_null;
                fits = v.fits;
                inside = ground (arith, room);
                last = omega (arith, v.fits, v.inside, v.last);
              };
              buf = refl;
              buf_len = refl;
              at = refl;
              end = omega (arith, v.fits, v.inside, v.last);
              same = λ i lt. ground (arith, lt);
              zeroed = λ i lo hi. ground (arith, lo, hi);
              kept = λ x out. ground (arith, out);
            },
            ground (arith, room, v.fits),
            refl,
          ))
    ]

-- How resizing ends. `start` is the first aligned address behind what is allocated.
pub data Resizes (m : Bytes) (a : Arena) (old old_size new_size align : ℕ)
    : Outcome (Bytes × Arena × Ptr) → Type 0 where
  in_place :
      {r : Bytes × Arena × Ptr}
      → a.buf + a.prev_offset ≡ old
      → old + new_size ≤ a.buf + a.buf_len
      → r.2 ≡ old
      → Resized m a old old_size new_size r
      → Resizes m a old old_size new_size align (returned r)
  no_room :
      a.buf + a.prev_offset ≡ old
      → a.buf + a.buf_len < old + new_size
      → Resizes m a old old_size new_size align (returned (m, a, null))
  moved :
      {r : Bytes × Arena × Ptr} (start : Ptr)
      → a.buf + a.prev_offset ≢ old
      → IsAligned (a.buf + a.curr_offset) align start
      → start + new_size ≤ a.buf + a.buf_len
      → r.2 ≡ start
      → Resized m a old old_size new_size r
      → Resizes m a old old_size new_size align (returned r)
  stopped :
      (start : Ptr)
      → a.buf + a.prev_offset ≢ old
      → IsAligned (a.buf + a.curr_offset) align start
      → a.buf + a.buf_len < start + new_size
      → Resizes m a old old_size new_size align aborted

module _ (m : Bytes) (a : Arena) (old old_size new_size align : ℕ)
    (b : IsBlock a old old_size) where
  -- The copy, behind an allocation.
  copy-Resizes :
      (start : Ptr) (r : Bytes × Arena × Ptr)
      → 0 < new_size
      → a.buf + a.prev_offset ≢ old
      → 0 < a.buf
      → IsAligned (a.buf + a.curr_offset) align start
      → Allocates m a new_size start r
      → Resizes m a old old_size new_size align
          (copy_bytes r.0 r.2 old (shorter old_size new_size) >>= λ m''. returned (m'', r.1, r.2))
  unfolding copy_bytes
  copy-Resizes start r some ne above first (full none) =
      let nonempty : not (shorter old_size new_size == 0) ≡ true =
        ground (arith, b.some_bytes, some) in
      simp (nonempty) (stopped start ne first none)
  copy-Resizes start (m', a', new) some ne above first (allocated room v geometry at zeroed kept) =
      let there : (new == null) ≡ false = ground (arith, above, first) in
      let before : (i : ℕ) → i < old_size → m' (old + i) ≡ m (old + i) =
        λ i lt. kept (old + i) (inl (omega (arith, b.inside, first, lt))) in
      simp (there) (
        moved start ne first room refl (record {
          arena = v;
          buf = geometry.0;
          buf_len = geometry.1;
          at = at.0;
          end = at.1;
          same = λ i lt.
              move_inside m' start old (shorter old_size new_size) i lt
              ∙ before i (ground (arith, lt));
          zeroed = λ i lo hi.
              move_outside m' start old (shorter old_size new_size) (start + i)
                (inr (ground (arith, lo)))
              ∙ zeroed (start + i) (omega arith) (omega (arith, hi));
          kept = λ x out.
              move_outside m' start old (shorter old_size new_size) x (ground (arith, out))
              ∙ kept x out;
        }))

module _ (m : Bytes) (a : Arena) (old old_size new_size align : ℕ) where
  moved-Resizes :
      IsArena a
      → IsBlock a old old_size
      → IsPow2 align
      → align < 2 ^ 62
      → new_size < 2 ^ 62
      → 0 < new_size
      → a.buf + a.prev_offset ≢ old
      → Resizes m a old old_size new_size align (resize_moved m a old old_size new_size align)
  unfolding resize_moved
  moved-Resizes v b two small small' some ne =
      let (start, at, call) = arena_alloc_align-Allocates m a new_size align v two small small' in
      let (r, is, c) = Returns-result call in
      simp (is) (copy-Resizes m a old old_size new_size align b start r some ne v.not_null at c)

  last-Resizes :
      IsArena a
      → IsBlock a old old_size
      → a.buf + a.prev_offset ≡ old
      → new_size < 2 ^ 62
      → Resizes m a old old_size new_size align (returned (resize_last m a old old_size new_size))
  last-Resizes v b at small =
      subst
        (λ o.
          Resizes m a o old_size new_size align (returned (resize_last m a o old_size new_size)))
        at
        (elim (resize_last-Resized m a old_size new_size v (omega (arith, b.inside, at)) small) [
          | inl (is, none) ↦ simp (is) (no_room refl (omega (arith, none)))
          | inr (r, fits, stays) ↦ in_place refl (omega (arith, fits)) stays r
        ])

  -- Resizing an allocation of the arena, with an alignment that is a power of two, sizes below 2^62
  -- and a new size that is not 0. The last allocation is resized in its place where the new size fits
  -- the buffer from there; otherwise NULL is returned and nothing changes. Any other is moved to the
  -- first aligned address behind what is allocated where the new size fits from there; otherwise the
  -- copy goes to NULL and the program stops. Where an allocation is returned, it has the bytes that
  -- the old and the new one have in common, the rest zeroed; it is the last of the arena, whose buffer
  -- stays where it is, and no other byte changes.
  pub arena_resize_align-Resizes :
      IsArena a
      → IsBlock a old old_size
      → IsPow2 align
      → align < 2 ^ 62
      → new_size < 2 ^ 62
      → 0 < new_size
      → Resizes m a old old_size new_size align (arena_resize_align m a old old_size new_size align)
  unfolding arena_resize_align
  arena_resize_align-Resizes v b two small small' some =
      let power : is_power_of_two align ≡ true = (is_power_of_two_iff align (omega arith)).1 two in
      let not_null : (old == null) ≡ false = ground (arith, v.not_null, b.from) in
      let not_empty : (old_size == 0) ≡ false = ground (arith, b.some_bytes) in
      let from : leb a.buf old ≡ true = ground (arith, b.from) in
      let to : ltb old (a.buf + a.buf_len) ≡ true =
        ground (arith, b.inside, b.some_bytes, v.inside) in
      simp (power, not_null, not_empty, from, to)
        (elim (Bool-cases (a.buf + a.prev_offset == old)) [
          | inl last ↦ rw last (last-Resizes v b (ground (arith, last)) small')
          | inr other ↦ rw other (moved-Resizes v b two small small' some (ground (arith, other)))
        ])
