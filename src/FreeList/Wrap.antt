-- ===== src/FreeList/Wrap.antt =====
-- An allocation whose size wraps to 0 when it is rounded up to the alignment.
use strela_pynq.Base.{
  ℕ, suc, ◌+◌, ◌-◌, ◌^◌, ◌<◌, ◌≤◌, ◌≡◌, ◌≢◌, ◌==◌, refl, ap, ◌∙◌, true, false, arith, returned, leb,
  add64, Outcome,
}
use strela_pynq.Memory.{Mem, null, Ptr}
use strela_pynq.Align.{align_forward_size, bump_to}
use strela_pynq.Align.PowerOfTwo.{IsPow2}
use strela_pynq.Align.Laws.{align_forward_size-pow2, and-pred-mod}
use strela_pynq.FreeList.{
  FreeList, PlacementPolicy, find_best, Found, at_least, find_first, header_size, block_size_of,
  padding_with_header, free_list_find, free_list_find_first, find_first_loop, free_list_alloc,
  free_list_carve,
}
use strela_pynq.FreeList.Padding.{IsPadding, padding_with_header-IsPadding, calc_padding-returned}

cache_line : IsPow2 64
cache_line = (6, refl)

bump_to-wraps : (n : ℕ) → 2 ^ 64 - 64 < n → n < 2 ^ 64 → bump_to n 64 ≡ 0
unfolding bump_to
bump_to-wraps n lo hi = rw (and-pred-mod n 64 cache_line (omega arith)) (ground arith)

-- Rounding up past the word's end gives 0.
align_forward_size-wraps :
    (n : ℕ) → 2 ^ 64 - 64 < n → n < 2 ^ 64 → align_forward_size n 64 ≡ returned 0
align_forward_size-wraps n lo hi =
    align_forward_size-pow2 n 64 cache_line (omega arith) ∙ ap returned (bump_to-wraps n lo hi)

-- The search for a block of 0 bytes ends at the first node.
find_first_loop-zero :
    (fuel : ℕ) (m : Mem) (node prev : Ptr) (padding : ℕ)
    → node ≢ null
    → node + 24 + 128 < 2 ^ 64
    → 88 ≤ block_size_of m node
    → find_first_loop (suc fuel) m 0 64 node prev padding
      ≡ returned
          (record { node = node; prev = prev; padding = padding_with_header node 64 header_size })
unfolding find_first_loop
find_first_loop-zero fuel m node prev padding some_node small room =
    simp (not_null, calc_padding-returned 64 cache_line (omega arith) node header_size, enough)
  where
    pad : IsPadding node 64 24 (padding_with_header node 64 24)
    pad = padding_with_header-IsPadding 64 cache_line (omega arith) node 24 (omega arith)

    not_null : (node == null) ≡ false
    not_null = ground (arith, some_node)

    enough : leb (add64 0 (padding_with_header node 64 24)) (block_size_of m node) ≡ true
    enough = ground (arith, pad, room)

-- The head of the free list is a block that a small allocation fits.
pub record HasRoom (m : Mem) (fl : FreeList) : Type 0 where
  pub first : fl.policy ≡ find_first
  pub some_node : fl.head ≢ null
  pub small : fl.head + 24 + 128 < 2 ^ 64
  pub room : 88 ≤ block_size_of m fl.head

-- The whole of the head, as a search for 0 bytes finds it.
abbrev pub head_found : FreeList → Found
head_found fl = record {
  node = fl.head;
  prev = null;
  padding = padding_with_header fl.head 64 header_size;
}

free_list_find-zero :
    (m : Mem) (fl : FreeList) (policy : PlacementPolicy)
    → policy ≡ find_first
    → HasRoom m fl
    → free_list_find policy m fl 0 64 ≡ returned (head_found fl)
unfolding free_list_find free_list_find_first
free_list_find-zero m fl find_best first h = cc
free_list_find-zero m fl find_first first h =
    ap from (fuel) ∙ find_first_loop-zero fl.size m fl.head null 0 h.some_node h.small h.room
  where
    from : ℕ → Outcome Found
    from k = find_first_loop k m 0 64 fl.head null 0

    fuel : fl.size + 1 ≡ suc fl.size
    fuel = omega arith

pub free_list_alloc-wraps :
    (m : Mem) (fl : FreeList) (n : ℕ)
    → HasRoom m fl
    → 2 ^ 64 - 64 < n
    → n < 2 ^ 64
    → free_list_alloc m fl n 64 ≡ returned (free_list_carve m fl (head_found fl) 0 n)
unfolding free_list_alloc
free_list_alloc-wraps m fl n h lo hi =
    simp (size, align_forward_size-wraps n lo hi)
      (simp (free_list_find-zero m fl fl.policy h.first h, not_null))
  where
    size : at_least 16 n ≡ n
    size = ground arith

    not_null : (fl.head == null) ≡ false
    not_null = ground (arith, h.some_node)
