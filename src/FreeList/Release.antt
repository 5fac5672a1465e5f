-- ===== src/FreeList/Release.antt =====
-- `free_list_free` from its argument to the state after it (lib/allocators.c).
use strela_pynq.Base.{
  ℕ, zero, suc, ◌+◌, ◌-◌, ◌%◌, ◌≤◌, ◌<◌, ◌≡◌, ◌⊎◌, inl, inr, refl, sym, subst, ◌∙◌, List, [], ◌∷◌,
  ◌++◌, arith, false, sub64, ◌==◌, returned, Returns, ends, length,
}
use strela_pynq.Memory.{Ptr, null, Mem, store}
use strela_pynq.FreeList.{
  FreeList, set_block_size, set_next, block_size_of, free_list_node_insert, free_list_coalescence,
  find_place, fuel_of, free_list_free,
}
use strela_pynq.FreeList.Blocks.{
  Block, Seg, Within, Outside, Outside-at, Outside-last, last_of, last_of-below, Within-le,
  Within-total, Within-append, total-append, Seg-append, Seg-split, Seg-frame, Seg-relink,
  Seg-LeadsTo,
}
use strela_pynq.FreeList.State.{IsFreeList, end_of}
use strela_pynq.FreeList.Nodes.{Inserts, node_insert-Inserts}
use strela_pynq.FreeList.Search.{length-le-total}
use strela_pynq.FreeList.Alloc.{IsHeader}
use strela_pynq.FreeList.Join.{joined}
use strela_pynq.FreeList.Free.{coalescence-IsFreeList, coalescence-KeepsOutside}

-- The walk stops at the first node behind the freed block, if its fuel is more than the number of
-- blocks before it.
find_place_lem :
    (m : Mem) (before : List Block) (fuel f node q prev lo : ℕ)
    → length before < fuel
    → 0 < lo
    → Within before lo f
    → Seg before m node q
    → (q ≡ null) ⊎ (f < q)
    → find_place fuel m f node prev ≡ returned (last_of before prev)
unfolding find_place
find_place_lem m before zero f node q prev lo h pos w s stop = absurd (omega arith)
find_place_lem m [] (suc fuel) f node q prev lo h pos w s stop = ground (arith, s, stop)
find_place_lem m ((a, u) ∷ before) (suc fuel) f node q prev lo h pos w s stop = ground (
  arith,
  w,
  s.0,
  Within-le before (a + u) f w.3,
  find_place_lem m before fuel f (m a) q a (a + u) (omega arith) (omega arith) w.3 s.2 stop,
)

-- What follows a gap in the list.
after_gap :
    (m : Mem) (behind : List Block) (f t q hi : ℕ)
    → 16 ≤ t
    → Within behind (f + t) hi
    → Seg behind m q null
    → (q ≡ null) ⊎ (f < q)
after_gap m [] f t q hi room w s = inl s
after_gap m ((b, u) ∷ behind) f t q hi room w s = inr (omega (arith, w.0, s.0))

-- What `free_list_free` leaves: the block is back among the others, and joined with its neighbours.
pub record Frees (m : Mem) (fl : FreeList) (before : List Block) (f t : ℕ) (behind : List Block)
    (r : Mem × FreeList) : Type 0 where
  pub list : IsFreeList r.0 r.1 (joined before f t behind)
  pub area : r.1.area ≡ fl.area
  pub size : r.1.size ≡ fl.size
  pub used : r.1.used + t ≡ fl.used
  pub spared : (x : Ptr) → 16 ≤ x → Outside (before ++ (f, t) ∷ behind) x → r.0 x ≡ m x

module _ (m : Mem) (fl : FreeList) (before : List Block) (f t : ℕ) (behind : List Block)
    (ok : IsFreeList m fl (before ++ behind)) (low : Within before fl.area f)
    (high : Within behind (f + t) (end_of fl)) (aligned : f % 16 ≡ 0) (room : 16 ≤ t) where
  abbrev cleared : Mem
  cleared = set_next (set_block_size m f t) f null

  abbrev inserted : Mem × FreeList
  inserted = free_list_node_insert cleared fl (last_of before null) f

  cleared-spared : (x : Ptr) → (x < f) ⊎ (f + 16 ≤ x) → cleared x ≡ m x
  unfolding store
  cleared-spared x out = ground (arith, out)

  gap : (q : Ptr) × Seg before cleared fl.head q × Seg behind cleared q null
  gap =
      let (q, s, s') = Seg-split before behind m fl.head null ok.chain in
      (
        q,
        Seg-frame m cleared before fl.area f fl.head q low (λ x lo hi. cleared-spared x (inl hi)) s,
        Seg-frame m cleared behind (f + t) (end_of fl) q null high
            (λ x lo hi. cleared-spared x (inr (omega arith))) s',
      )

  below : f + t ≤ end_of fl
  below = Within-le behind (f + t) (end_of fl) high

  above : 0 < f
  above = omega (arith, ok.not_null, Within-le before fl.area f low)

  prev_node : (last_of before null ≡ 0) ⊎ (last_of before null + 16 ≤ f)
  prev_node = last_of-below before fl.area f low

  inserted-Inserts : Inserts cleared fl (last_of before null) f gap.0 inserted
  inserted-Inserts =
      node_insert-Inserts cleared fl (last_of before null) f gap.0
        (Seg-LeadsTo before cleared fl.area f fl.head gap.0 low ok.not_null gap.1)
        (λ z. omega (arith, prev_node, above))

  size_of_node : inserted.0 (f + 8) ≡ t
  unfolding store
  size_of_node =
      inserted-Inserts.spared (f + 8) (omega arith) (omega (arith, prev_node)) ∙ ground arith

  placed : find_place (fuel_of fl) cleared f fl.head null ≡ returned (last_of before null)
  placed =
      find_place_lem cleared before (fuel_of fl) f fl.head gap.0 null fl.area
        (omega
          (arith, length-le-total before fl.area f low, Within-total before fl.area f low, below))
        ok.not_null low gap.1 (after_gap cleared behind f t gap.0 (end_of fl) room high gap.2)

  held : t ≤ fl.used
  held = omega (
    arith,
    ok.counted,
    total-append before behind,
    Within-total before fl.area f low,
    Within-total behind (f + t) (end_of fl) high,
  )

  inserted-IsFreeList :
      IsFreeList inserted.0
        (record inserted.1 { used = sub64 inserted.1.used t })
        (before ++ (f, t) ∷ behind)
  inserted-IsFreeList =
      let i = inserted-Inserts in
      let k = i.links.kept in
      record {
        not_null = omega (arith, ok.not_null, k.area);
        ends = omega (arith, ok.ends, k.area, k.size);
        within =
            rw (k.area, k.size)
              (Within-append before ((f, t) ∷ behind) fl.area f (end_of fl) low
                (omega arith, aligned, room, high));
        chain =
            Seg-append before ((f, t) ∷ behind) inserted.0 inserted.1.head f null
              (Seg-relink cleared _ before fl.area f fl.head _ gap.0 f low ok.not_null
                (λ x lo hi ne. i.spared x (omega arith) ne) i.links.head i.links.linked gap.1)
              (
                refl,
                size_of_node,
                subst (λ x. Seg behind inserted.0 x null) (sym i.next)
                    (Seg-frame cleared inserted.0 behind (f + t) (end_of fl) gap.0 null high
                      (λ x lo hi. i.spared x (omega arith) (omega (arith, prev_node, above)))
                      gap.2),
              );
        counted = omega (
          arith,
          ok.counted,
          ok.ends,
          k.used,
          k.size,
          held,
          total-append before ((f, t) ∷ behind),
          total-append before behind,
        );
      }

  -- The list with the node linked in, and then its neighbours joined.
  coalesced-Frees : Frees m fl before f t behind (
      free_list_coalescence inserted.0
        (record inserted.1 { used = sub64 inserted.1.used (block_size_of inserted.0 f) })
        (last_of before null)
        f)
  coalesced-Frees =
      let fl' : FreeList = record inserted.1 { used = sub64 inserted.1.used t } in
      let c = coalescence-KeepsOutside inserted.0 fl' before f t behind fl.area low room in
      let k = inserted-Inserts.links.kept in
      simp (size_of_node) (record {
        list = coalescence-IsFreeList inserted.0 fl' before f t behind inserted-IsFreeList;
        area = c.kept.area ∙ k.area;
        size = c.kept.size ∙ k.size;
        used = omega (arith, c.kept.used, k.used, held, ok.counted, ok.ends);
        spared = λ x up out.
            c.spared x up out
            ∙ inserted-Inserts.spared x (omega (arith, Outside-at before f t behind x out, room))
                (Outside-last before ((f, t) ∷ behind) x null fl.area f low (omega arith) out)
            ∙ cleared-spared x (omega (arith, Outside-at before f t behind x out, room));
      })

-- Freeing an allocation returns, whatever the list: `ptr` is behind the header of `t` bytes from `f`
-- on, between the free blocks `before` and the free blocks `behind`. Afterwards the list is well
-- formed and has the block in its place, as one block with the free neighbours that touch it;
-- its bytes count as free, and no word outside the free blocks and this one changes.
pub free_list_free-Frees :
    (m : Mem) (fl : FreeList) (before : List Block) (f t : ℕ) (behind : List Block)
    (ptr orig pad : ℕ)
    → IsFreeList m fl (before ++ behind)
    → Within before fl.area f
    → Within behind (f + t) (end_of fl)
    → f % 16 ≡ 0
    → 16 ≤ t
    → IsHeader m ptr orig t pad
    → f + pad + 24 ≡ ptr
    → Returns (Frees m fl before f t behind) (free_list_free m fl ptr)
unfolding free_list_free
free_list_free-Frees m fl before f t behind ptr orig pad ok low high aligned room header at =
    simp
      (
        not_null,
        header.taken,
        header.pad,
        start,
        placed m fl before f t behind ok low high aligned room,
      )
      (ends (coalesced-Frees m fl before f t behind ok low high aligned room))
  where
    not_null : (ptr == null) ≡ false
    not_null = ground (arith, at)

    start : ptr - 24 - pad ≡ f
    start = omega (arith, at)
