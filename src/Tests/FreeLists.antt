-- ===== src/Tests/FreeLists.antt =====
-- The free list's properties at concrete lists.
use strela_pynq.Base.{ℕ, refl, arith, [], ◌∷◌, Returns}
use strela_pynq.Memory.{Mem, store}
use strela_pynq.Align.Laws.{IsAligned}
use strela_pynq.FreeList.{
  FreeList, find_first, free_list_alloc, free_list_free, free_list_free_all, at_least, node_size,
  max_align,
}
use strela_pynq.FreeList.State.{IsFreeList, free_list_free_all-IsFreeList}
use strela_pynq.FreeList.Alloc.{Allocates, IsHeader}
use strela_pynq.FreeList.FirstFit.{free_list_alloc-Allocates}
use strela_pynq.FreeList.Release.{Frees, free_list_free-Frees}

abbrev zeros : Mem
zeros x = 0

abbrev raw : FreeList
raw = record { area = 4096; size = 4096; used = 7; head = 0; policy = find_first }

-- The area with one free block.
abbrev fresh_mem : Mem
fresh_mem = (free_list_free_all zeros raw).0

abbrev fresh : FreeList
fresh = (free_list_free_all zeros raw).1

fresh-IsFreeList : IsFreeList fresh_mem fresh ((4096, 4096) ∷ [])
fresh-IsFreeList =
    free_list_free_all-IsFreeList zeros raw (omega arith) refl (omega arith) (omega arith)

free_list_alloc-Allocates_example :
    (size' : ℕ) × IsAligned (at_least node_size 100) (at_least max_align 64) size'
    × Returns
        (Allocates fresh_mem fresh ((4096, 4096) ∷ []) 100 size' (at_least max_align 64))
        (free_list_alloc fresh_mem fresh 100 64)
unfolding free_list_free_all
free_list_alloc-Allocates_example =
    free_list_alloc-Allocates fresh_mem fresh ((4096, 4096) ∷ []) 100 64 fresh-IsFreeList refl
      (6, refl) (omega arith) (omega arith)

-- An allocation of 64 bytes at 16, and a free block behind it.
abbrev held_mem : Mem
held_mem = store (store (store zeros 16 40) 24 64) 88 48

abbrev held : FreeList
held = record { area = 16; size = 112; used = 64; head = 80; policy = find_first }

held-IsFreeList : IsFreeList held_mem held ((80, 48) ∷ [])
unfolding store
held-IsFreeList = record {
  not_null = omega arith;
  ends = omega arith;
  within = (omega arith, refl, omega arith, omega arith);
  chain = (refl, refl, refl);
  counted = refl;
}

held-IsHeader : IsHeader held_mem 40 40 64 0
unfolding store
held-IsHeader = record { above = omega arith; orig = refl; taken = refl; pad = refl }

free_list_free-Frees_example :
    Returns (Frees held_mem held [] 16 64 ((80, 48) ∷ [])) (free_list_free held_mem held 40)
free_list_free-Frees_example =
    free_list_free-Frees held_mem held [] 16 64 ((80, 48) ∷ []) 40 40 0 held-IsFreeList
      (omega arith) (omega arith, refl, omega arith, omega arith) refl (omega arith) held-IsHeader
      refl
