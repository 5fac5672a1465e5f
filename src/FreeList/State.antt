-- ===== src/FreeList/State.antt =====
-- The free list's invariant, and the list that `free_list_init` makes.
use strela_pynq.Base.{
  ℕ, ◌+◌, ◌%◌, ◌^◌, ◌≤◌, ◌<◌, ◌≡◌, refl, List, [], ◌∷◌, arith, returned, sub64, add64, ltb, true,
}
use strela_pynq.Memory.{null, Mem, store}
use strela_pynq.Align.{bump_to}
use strela_pynq.Align.PowerOfTwo.{IsPow2}
use strela_pynq.Align.Laws.{IsAligned, bump_to-IsAligned, align_forward_uintptr-pow2}
use strela_pynq.FreeList.{FreeList, node_size, free_list_free_all, free_list_init}
use strela_pynq.FreeList.Blocks.{Block, Seg, Within, total}

-- The end of the area. Addresses of a process lie below 2 ^ 63.
abbrev pub end_of : FreeList → ℕ
end_of fl = fl.area + fl.size

-- The list in memory stands for the free blocks `bs`: they lie in the area, and every byte of it
-- is free or in use.
pub record IsFreeList (m : Mem) (fl : FreeList) (bs : List Block) : Type 0 where
  pub not_null : 0 < fl.area
  pub ends : end_of fl < 2 ^ 63
  pub within : Within bs fl.area (end_of fl)
  pub chain : Seg bs m fl.head null
  pub counted : fl.used + total bs ≡ fl.size

-- `free_list_free_all` makes the whole area one free block, whatever the list was.
pub free_list_free_all-IsFreeList :
    (m : Mem) (fl : FreeList)
    → 0 < fl.area
    → fl.area % 16 ≡ 0
    → 16 ≤ fl.size
    → end_of fl < 2 ^ 63
    → IsFreeList (free_list_free_all m fl).0 (free_list_free_all m fl).1 ((fl.area, fl.size) ∷ [])
unfolding free_list_free_all store
free_list_free_all-IsFreeList m fl pos aligned room ends = record {
  not_null = pos;
  ends = ends;
  within = ground arith;
  chain = (refl, ground arith, ground arith);
  counted = omega arith;
}

-- `free_list_init` of an area with room for a node behind the alignment makes one free block that
-- starts at the first multiple of 16 and ends where the area ends.
pub free_list_init-IsFreeList :
    (m : Mem) (fl : FreeList) (area size : ℕ)
    → 0 < area
    → 32 ≤ size
    → area + size < 2 ^ 63
    → (m' : Mem) × (fl' : FreeList) × (free_list_init m fl area size ≡ returned (m', fl'))
      × IsFreeList m' fl' ((fl'.area, fl'.size) ∷ [])
      × IsAligned area 16 fl'.area
      × (end_of fl' ≡ area + size)
unfolding free_list_init free_list_free_all bump_to
free_list_init-IsFreeList m fl area size pos room ends = (
  (free_list_free_all m made).0,
  (free_list_free_all m made).1,
  rw (align_forward_uintptr-pow2 area 16 sixteen (omega arith)) (rw enough refl),
  free_list_free_all-IsFreeList m made (omega (arith, start)) start.multiple
      (omega (arith, start, left)) (omega (arith, start, left)),
  start,
  left,
)
  where
    sixteen : IsPow2 16
    sixteen = (4, refl)

    start : IsAligned area 16 (bump_to area 16)
    start = bump_to-IsAligned area 16 sixteen (omega arith) (omega arith)

    made : FreeList
    made = record fl { area = bump_to area 16; size = sub64 size (sub64 (bump_to area 16) area) }

    left : bump_to area 16 + made.size ≡ area + size
    left = omega (arith, start)

    enough : ltb (sub64 (bump_to area 16) area) (add64 size node_size) ≡ true
    enough = ground (arith, start)
