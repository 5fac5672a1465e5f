-- ===== src/FreeList/Alloc.antt =====
-- Allocation from the free list (lib/allocators.c, `free_list_alloc`) against its blocks.
use strela_pynq.Base.{
  ℕ, ◌+◌, ◌-◌, ◌*◌, ◌%◌, ◌^◌, ◌≤◌, ◌<◌, ◌≡◌, ◌⊎◌, inl, inr, refl, subst, ◌∙◌, List, ◌∷◌, ◌++◌,
  arith, Bool-cases, leb, true, false, sub64, add64,
}
use strela_pynq.Memory.{Ptr, null, Mem, store}
use strela_pynq.FreeList.{
  FreeList, Found, header_size, node_size, write_header, padding_with_header, free_list_node_remove,
  free_list_carve,
}
use strela_pynq.FreeList.Blocks.{
  Block, Seg, Outside, leftover, total, last_of, Within-le, Within-lower, Within-append,
  Within-split, total-append, Seg-append, Seg-split, Seg-frame, Outside-at, Outside-last,
}
use strela_pynq.FreeList.Padding.{IsPadding}
use strela_pynq.FreeList.Search.{needed, AreSmall}
use strela_pynq.FreeList.State.{IsFreeList, end_of}
use strela_pynq.FreeList.Carve.{Placed, Cut, whole-Cut, removed, split-Cut}

-- The header in front of `ptr`.
pub record IsHeader (m : Mem) (ptr orig_size block_size padding : ℕ) : Type 0 where
  pub above : 24 ≤ ptr
  pub orig : m (ptr - 24) ≡ orig_size
  pub taken : m (ptr - 24 + 8) ≡ block_size
  pub pad : m (ptr - 24 + 16) ≡ padding

pub Placed-of :
    (m : Mem) (fl : FreeList) (before : List Block) (a s : ℕ) (behind : List Block)
    → IsFreeList m fl (before ++ (a, s) ∷ behind)
    → Placed m fl.head before a s behind fl.area (end_of fl)
Placed-of m fl before a s behind ok =
    let w = Within-split before a s behind fl.area (end_of fl) ok.within in
    let (r, low, at) = Seg-split before ((a, s) ∷ behind) m fl.head null ok.chain in
    record {
      low = w.0;
      aligned = w.1;
      room = w.2;
      high = w.3;
      not_null = ok.not_null;
      ends = ok.ends;
      chain_low = subst (λ x. Seg before m fl.head x) at.0 low;
      size = at.1;
      chain_high = at.2;
    }

-- What an allocation of `need` bytes at `alignment` does. Either no block has room and nothing
-- changes, or the first block with room loses its first `taken` bytes to the allocation.
pub data Allocates (m : Mem) (fl : FreeList) (bs : List Block) (orig_size size alignment : ℕ)
    (r : Mem × FreeList × Ptr) : Type 0 where
  full :
      r ≡ (m, fl, null) → AreSmall bs size alignment → Allocates m fl bs orig_size size alignment r
  cut :
      (before : List Block) (a s : ℕ) (behind : List Block) (taken : ℕ)
      → bs ≡ before ++ (a, s) ∷ behind
      → AreSmall before size alignment
      → a + padding_with_header a alignment header_size ≡ r.2
      → r.2 % alignment ≡ 0
      → r.2 + size ≤ a + taken
      → taken ≤ s
      → IsHeader r.0 r.2 orig_size taken (r.2 - 24 - a)
      → IsFreeList r.0 r.1 (before ++ leftover (a + taken) (s - taken) behind)
      → r.1.used ≡ fl.used + taken
      → ((x : Ptr) → 0 < x → Outside bs x → r.0 x ≡ m x)
      → Allocates m fl bs orig_size size alignment r

module _ (g : Mem) (h orig taken pad : ℕ) where
  write_header-outside :
      (x : Ptr) → (x < h) ⊎ (h + 24 ≤ x) → write_header g h orig taken pad x ≡ g x
  unfolding store
  write_header-outside x out = ground (arith, out)

  write_header-IsHeader :
      (ptr : ℕ) → ptr ≡ h + 24 → IsHeader (write_header g h orig taken pad) ptr orig taken pad
  unfolding store
  write_header-IsHeader ptr at = record {
    above = omega arith;
    orig = ground (arith, at);
    taken = ground (arith, at);
    pad = ground (arith, at);
  }

module _ (m : Mem) (fl : FreeList) (before : List Block) (a s : ℕ) (behind : List Block)
    (ok : IsFreeList m fl (before ++ (a, s) ∷ behind)) where
  -- The header lies in what the list gives up, so the list stays as the cut left it.
  write_header-IsFreeList :
      (need taken orig h pad : ℕ) (rest : List Block) (g : Mem) (fl' : FreeList)
      → Cut m fl before a s need rest fl.area (end_of fl) g fl'
      → a ≤ h
      → h + 24 ≤ a + need
      → taken + total rest ≡ s + total behind
      → IsFreeList
          (write_header g h orig taken pad)
          (record fl' { used = add64 fl'.used taken })
          (before ++ rest)
  write_header-IsFreeList need taken orig h pad rest g fl' c low high sum =
      let p = Placed-of m fl before a s behind ok in
      let before' =
        Seg-frame g (write_header g h orig taken pad) before fl.area a fl'.head c.first p.low
          (λ x lo hi. write_header-outside g h orig taken pad x (inl (omega arith))) c.chain_low in
      let rest' =
        Seg-frame g (write_header g h orig taken pad) rest (a + need) (end_of fl) c.first null
          c.high (λ x lo hi. write_header-outside g h orig taken pad x (inr (omega arith)))
          c.chain_rest in
      record {
        not_null = omega (arith, ok.not_null, c.kept.area);
        ends = omega (arith, ok.ends, c.kept.area, c.kept.size);
        within =
            rw (c.kept.area, c.kept.size)
              (Within-append before rest fl.area a (end_of fl) p.low
                (Within-lower rest (a + need) a (end_of fl) (omega arith) c.high));
        chain = Seg-append before rest _ fl'.head c.first null before' rest';
        counted = omega (
          arith,
          ok.counted,
          ok.ends,
          c.kept.size,
          c.kept.used,
          total-append before rest,
          total-append before ((a, s) ∷ behind),
        );
      }

  module _ (size orig alignment : ℕ) (small_before : AreSmall before size alignment)
      (fits : end_of fl + size + 24 + 2 * alignment < 2 ^ 64)
      (pad : IsPadding a alignment 24 (padding_with_header a alignment 24))
      (room : needed size alignment a ≤ s) (whole : needed size alignment a % 16 ≡ 0) where
    abbrev pub found : Found
    found = record {
      node = a;
      prev = last_of before null;
      padding = padding_with_header a alignment header_size;
    }

    p : Placed m fl.head before a s behind fl.area (end_of fl)
    p = Placed-of m fl before a s behind ok

    below : a + s ≤ end_of fl
    below = Within-le behind (a + s) (end_of fl) p.high

    abbrev lead : ℕ
    lead = padding_with_header a alignment header_size

    abbrev need : ℕ
    need = needed size alignment a

    -- What `free_list_carve` makes of a memory and a list with the node cut out.
    abbrev finish : ℕ → Mem × FreeList → Mem × FreeList × Ptr
    finish taken r = (
      write_header r.0 (a + (lead - 24)) orig taken (lead - 24),
      record r.1 { used = add64 r.1.used taken },
      a + (lead - 24) + 24,
    )

    exact : add64 size lead ≡ need
    exact = omega (arith, below, room)

    remaining : sub64 s need ≡ s - need
    remaining = omega (arith, below, room)

    pad_less : sub64 lead 24 ≡ lead - 24
    pad_less = omega (arith, below, room, pad)

    some_need : 16 ≤ need
    some_need = omega (arith, pad)

    is_more : leb (node_size + node_size) (s - need) ≡ true → need + 32 ≤ s
    is_more splits = ground (arith, splits)

    carve-split :
        leb (node_size + node_size) (s - need) ≡ true
        → (more : need + 32 ≤ s)
        → free_list_carve m fl found size orig
          ≡ finish need
              (removed m fl before a s behind fl.area (end_of fl) p need some_need whole more)
    unfolding free_list_carve
    carve-split splits more = simp (exact, p.size, remaining, splits, pad_less)

    carve-whole :
        leb (node_size + node_size) (s - need) ≡ false
        → free_list_carve m fl found size orig
          ≡ finish s (free_list_node_remove m fl (last_of before null) a)
    unfolding free_list_carve
    carve-whole less = simp (exact, p.size, remaining, less, pad_less)

    finish-Allocates :
        (taken : ℕ) (r : Mem × FreeList) (rest : List Block)
        → Cut m fl before a s taken rest fl.area (end_of fl) r.0 r.1
        → need ≤ taken
        → taken ≤ s
        → rest ≡ leftover (a + taken) (s - taken) behind
        → taken + total rest ≡ s + total behind
        → Allocates m fl (before ++ (a, s) ∷ behind) orig size alignment (finish taken r)
    finish-Allocates taken r rest c enough le left sum =
        cut before a s behind taken refl small_before (omega (arith, pad))
          (subst (λ x. x % alignment ≡ 0) {x = a + lead} (omega (arith, pad)) pad.aligned)
          (omega (arith, pad)) le
          (subst (IsHeader (finish taken r).0 (finish taken r).2 orig taken) {x = lead - 24}
            (omega (arith, pad))
            (write_header-IsHeader r.0 (a + (lead - 24)) orig taken (lead - 24) _ refl))
          (subst (λ bs. IsFreeList (finish taken r).0 (finish taken r).1 (before ++ bs)) left
            (write_header-IsFreeList taken taken orig (a + (lead - 24)) (lead - 24) rest r.0 r.1 c
              (omega arith) (omega (arith, pad)) sum))
          (omega
            (arith, below, c.kept.used, ok.counted, ok.ends, total-append before ((a, s) ∷ behind)))
          (λ x pos out.
            write_header-outside r.0 (a + (lead - 24)) orig taken (lead - 24) x
              (omega (arith, pad, Outside-at before a s behind x out))
            ∙ c.spared x (Outside-at before a s behind x out)
                (Outside-last before ((a, s) ∷ behind) x null fl.area a p.low (omega arith) out))

    pub free_list_carve-Allocates :
        Allocates m fl
          (before ++ (a, s) ∷ behind)
          orig
          size
          alignment
          (free_list_carve m fl found size orig)
    free_list_carve-Allocates = elim (Bool-cases (leb (node_size + node_size) (s - need))) [
      | inl more ↦ rw (carve-split more (is_more more)) (
          finish-Allocates need _ ((a + need, s - need) ∷ behind)
            (split-Cut m fl before a s behind fl.area (end_of fl) p need some_need whole
              (is_more more))
            (omega arith) room (ground arith) (omega arith))
      | inr less ↦ rw (carve-whole less) (
          finish-Allocates s _ behind (whole-Cut m fl before a s behind fl.area (end_of fl) p) room
            (omega arith) (ground arith) refl)
    ]
