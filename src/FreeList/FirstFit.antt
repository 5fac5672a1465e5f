-- ===== src/FreeList/FirstFit.antt =====
-- `free_list_alloc` by first fit (lib/allocators.c), from its arguments to the state after it.
use native.Mathlib.Nat.{mod-mod_of_dvd, dvd_of_mod-eq-zero}
use strela_pynq.Base.{
  ℕ, ◌+◌, ◌*◌, ◌%◌, ◌^◌, ◌≤◌, ◌<◌, ◌≡◌, ◌≢◌, inl, inr, refl, sym, subst, ap, ◌∙◌, List, ◌∷◌, ◌++◌,
  arith, Bool-cases, ltb, false, if◌then◌else◌, Returns, ends, Returns-bind, ◌==◌,
}
use strela_pynq.Memory.{null, Mem}
use strela_pynq.Align.{bump_to}
use strela_pynq.Align.PowerOfTwo.{IsPow2, pow2-mod_16}
use strela_pynq.Align.Laws.{IsAligned, bump_to-IsAligned, align_forward_size-pow2}
use strela_pynq.FreeList.{
  FreeList, Found, find_first, header_size, max_align, node_size, at_least, padding_with_header,
  free_list_find, free_list_carve, free_list_alloc,
}
use strela_pynq.FreeList.Blocks.{Block, Within-le, last_of}
use strela_pynq.FreeList.Search.{Finds, nothing, block, IsPadding-le, free_list_find_first-Finds}
use strela_pynq.FreeList.State.{IsFreeList, end_of}
use strela_pynq.FreeList.Alloc.{Placed-of, Allocates, full, free_list_carve-Allocates}

-- A multiple of an alignment from 16 on is a multiple of 16.
multiple-mod_16 : (x alignment : ℕ) → alignment % 16 ≡ 0 → x % alignment ≡ 0 → x % 16 ≡ 0
multiple-mod_16 x alignment h e =
    sym (mod-mod_of_dvd 16 x (dvd_of_mod-eq-zero _ h)) ∙ ap (λ (y : ℕ). y % 16) e

module _ (m : Mem) (fl : FreeList) (bs : List Block) (ok : IsFreeList m fl bs)
    (orig size alignment : ℕ) (two : IsPow2 alignment) (wide : alignment % 16 ≡ 0)
    (multiple : size % alignment ≡ 0) (fits : end_of fl + size + 24 + 2 * alignment < 2 ^ 64) where
  found-Allocates :
      (found : Found)
      → Finds bs size alignment found
      → Allocates m fl bs orig size alignment
          (if found.node == null then (m, fl, null) else free_list_carve m fl found size orig)
  found-Allocates found (nothing none are) = rw none (full refl are)
  found-Allocates found (block before s behind is not_null prev pad room small) =
      rw (test_false not_null) (
        subst
          (λ bs.
            IsFreeList m fl bs
            → Allocates m fl bs orig size alignment (free_list_carve m fl found size orig))
          (sym is)
          (λ ok'.
            subst
              (λ f.
                Allocates m fl (before ++ (found.node, s) ∷ behind) orig size alignment
                  (free_list_carve m fl f size orig))
              (sym same) (carved ok'))
          ok)
    where
      test_false : found.node ≢ null → (found.node == null) ≡ false
      test_false ne = ground (arith, ne)

      same : found ≡ record {
        node = found.node;
        prev = last_of before null;
        padding = padding_with_header found.node alignment header_size;
      }
      same i = record { node = found.node; prev = prev i; padding = pad i }

      carved :
          (ok' : IsFreeList m fl (before ++ (found.node, s) ∷ behind))
          → Allocates m fl (before ++ (found.node, s) ∷ behind) orig size alignment (
              free_list_carve m fl
                (record {
                  node = found.node;
                  prev = last_of before null;
                  padding = padding_with_header found.node alignment header_size;
                })
                size
                orig)
      carved ok' =
          let p = Placed-of m fl before found.node s behind ok' in
          let below = Within-le behind (found.node + s) (end_of fl) p.high in
          let padding =
            IsPadding-le m size alignment fl.area (end_of fl) two ok'.not_null fits found.node
              (omega arith) in
          free_list_carve-Allocates m fl before found.node s behind ok' size orig alignment small
            fits padding room
            (omega (
              arith,
              p.aligned,
              multiple-mod_16 size alignment wide multiple,
              multiple-mod_16 (found.node + padding_with_header found.node alignment header_size)
                  alignment wide padding.aligned,
            ))

-- Where the addresses and the request are small enough for the word, `free_list_alloc` by first fit
-- returns, whatever the blocks are. Either no block has room for the rounded request and nothing
-- changes, or the first block that has room loses its first bytes: what is returned is a multiple
-- of the alignment with the request inside those bytes, a header in front of it tells their
-- number, the list is again well formed with the rest of the block in its place, and no word
-- outside the free blocks changes.
pub free_list_alloc-Allocates :
    (m : Mem) (fl : FreeList) (bs : List Block) (size alignment : ℕ)
    → IsFreeList m fl bs
    → fl.policy ≡ find_first
    → IsPow2 alignment
    → size < 2 ^ 62
    → alignment < 2 ^ 60
    → (size' : ℕ) × IsAligned (at_least node_size size) (at_least max_align alignment) size'
      × Returns
          (Allocates m fl bs size size' (at_least max_align alignment))
          (free_list_alloc m fl size alignment)
unfolding free_list_alloc free_list_find
free_list_alloc-Allocates m fl bs size alignment ok first two small_size small = (
  bump_to (at_least node_size size) wide,
  rounded,
  simp
      (
        align_forward_size-pow2 (at_least node_size size) wide wide_two (omega (arith, bound)),
        first,
      )
      (Returns-bind
        (free_list_find_first-Finds m (bump_to (at_least node_size size) wide) wide fl.area
          (end_of fl) wide_two ok.not_null fits fl bs (omega (arith, ok.counted)) ok.within
          ok.chain)
        (λ found f. ends (
          found-Allocates m fl bs ok size (bump_to (at_least node_size size) wide) wide wide_two
            (pow2-mod_16 wide_two large) rounded.multiple fits found f))),
)
  where
    wide : ℕ
    wide = at_least max_align alignment

    large : 16 ≤ wide
    large = ground arith

    wide_two : IsPow2 wide
    wide_two = elim (Bool-cases (ltb alignment max_align)) [
      | inl low ↦ rw low (4, refl)
      | inr high ↦ rw high two
    ]

    bound : wide < 2 ^ 60
    bound = ground arith

    rounded : IsAligned (at_least node_size size) wide (bump_to (at_least node_size size) wide)
    rounded =
        bump_to-IsAligned (at_least node_size size) wide wide_two (omega (arith, bound))
          (ground (arith, bound))

    fits : end_of fl + bump_to (at_least node_size size) wide + 24 + 2 * wide < 2 ^ 64
    fits = ground (arith, bound, rounded, ok.ends)
