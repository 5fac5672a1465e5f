-- ===== src/FreeList/Search.antt =====
-- The search for a block by first fit (lib/allocators.c, `free_list_find_first`).
use mathlib.Core.List.{append_assoc}
use strela_pynq.Base.{
  ℕ, zero, suc, ◌+◌, ◌*◌, ◌^◌, ◌≤◌, ◌<◌, ◌≡◌, ◌≢◌, refl, sym, subst, List, [], ◌∷◌, ◌++◌, arith,
  length, leb, add64, true, false, inl, inr, Bool-cases, ◌==◌, Returns, ends,
}
use strela_pynq.Memory.{null, Mem}
use strela_pynq.Align.PowerOfTwo.{IsPow2}
use strela_pynq.FreeList.{
  Found, FreeList, header_size, block_size_of, padding_with_header, find_first_loop,
  free_list_find_first,
}
use strela_pynq.FreeList.Padding.{IsPadding, padding_with_header-IsPadding, calc_padding-returned}
use strela_pynq.FreeList.Blocks.{Block, Seg, Within, total, last_of, last_of-snoc, Within-le}

-- The bytes that an allocation of `size` takes of a block at `a`.
abbrev pub needed : (size alignment a : ℕ) → ℕ
needed size alignment a = size + padding_with_header a alignment header_size

-- No block has room.
abbrev pub AreSmall : List Block → (size alignment : ℕ) → Type 0
AreSmall [] size alignment = Unit {0}
AreSmall ((a, s) ∷ bs) size alignment = (s < needed size alignment a) × AreSmall bs size alignment

-- What a search of the blocks `bs` finds: the first with room, or none.
pub data Finds (bs : List Block) (size alignment : ℕ) (found : Found) : Type 0 where
  nothing : found.node ≡ null → AreSmall bs size alignment → Finds bs size alignment found
  block :
      (before : List Block) (s : ℕ) (behind : List Block)
      → bs ≡ before ++ (found.node, s) ∷ behind
      → found.node ≢ null
      → found.prev ≡ last_of before null
      → found.padding ≡ padding_with_header found.node alignment header_size
      → needed size alignment found.node ≤ s
      → AreSmall before size alignment
      → Finds bs size alignment found

AreSmall-append :
    (xs ys : List Block) (size alignment : ℕ)
    → AreSmall xs size alignment
    → AreSmall ys size alignment
    → AreSmall (xs ++ ys) size alignment
AreSmall-append [] ys size alignment v w = w
AreSmall-append ((a, s) ∷ xs) ys size alignment v w =
    (v.0, AreSmall-append xs ys size alignment v.1 w)

-- Each block has 16 bytes at least, so there are no more of them than bytes.
pub length-le-total : (bs : List Block) (lo hi : ℕ) → Within bs lo hi → length bs ≤ total bs
length-le-total [] lo hi w = omega arith
length-le-total ((a, s) ∷ bs) lo hi w = omega (arith, length-le-total bs (a + s) hi w.3)

module _ (m : Mem) (size alignment lo hi : ℕ) (two : IsPow2 alignment) (start : 0 < lo)
    (fits : hi + size + 24 + 2 * alignment < 2 ^ 64) where
  small_of_two : alignment < 2 ^ 64
  small_of_two = omega arith

  pub IsPadding-le :
      (a : ℕ) → a ≤ hi → IsPadding a alignment 24 (padding_with_header a alignment 24)
  IsPadding-le a h = padding_with_header-IsPadding alignment two small_of_two a 24 (omega arith)

  -- The loop, with the blocks in front of `node` already looked at.
  find_first_loop-Finds :
      (rest before : List Block) (fuel : ℕ) (node prev padding from : ℕ)
      → length rest < fuel
      → 0 < from
      → Within rest from hi
      → Seg rest m node null
      → prev ≡ last_of before null
      → AreSmall before size alignment
      → Returns
          (Finds (before ++ rest) size alignment)
          (find_first_loop fuel m size alignment node prev padding)
  unfolding find_first_loop
  find_first_loop-Finds rest before zero node prev padding from h pos w s at none_yet =
      absurd (omega arith)
  find_first_loop-Finds [] before (suc fuel) node prev padding from h pos w s at none_yet =
      rw stop (ends (nothing s (AreSmall-append before [] size alignment none_yet tt)))
    where
      stop : (node == null) ≡ true
      stop = ground arith
  find_first_loop-Finds ((a, u) ∷ rest) before (suc fuel) node prev padding from h pos w s at
        none_yet =
      rw (s.0, not_null, calc_padding-returned alignment two small_of_two a 24)
        (elim (Bool-cases
          (leb (add64 size (padding_with_header a alignment 24)) (block_size_of m a))) [
            | inl room ↦ rw room (
                ends (
                  block before u rest refl (λ z. omega arith) at refl (ground (arith, pad, no_wrap))
                    none_yet))
            | inr tight ↦ rw tight (
                subst
                  (λ bs. Returns (Finds bs size alignment) (
                    find_first_loop fuel m size alignment (m a) a
                      (padding_with_header a alignment 24)))
                  (append_assoc before ((a, u) ∷ []) rest)
                  (find_first_loop-Finds rest (before ++ (a, u) ∷ []) fuel (m a) a
                    (padding_with_header a alignment 24) (a + u) (omega arith) (omega arith) w.3 s.2
                    (sym (last_of-snoc before a u null))
                    (AreSmall-append before ((a, u) ∷ []) size alignment none_yet
                      (ground (arith, no_wrap), tt))))
          ])
    where
      below : a + u ≤ hi
      below = Within-le rest (a + u) hi w.3

      pad : IsPadding a alignment 24 (padding_with_header a alignment 24)
      pad = IsPadding-le a (omega (arith, below))

      no_wrap : add64 size (padding_with_header a alignment 24) ≡ needed size alignment a
      no_wrap = omega (arith, pad, below)

      not_null : (a == null) ≡ false
      not_null = ground arith

  -- On a list that stands for the blocks, with an alignment that is a power of two, and where the
  -- addresses and the request fit the word, the search by first fit ends: with the first block that
  -- has room, its padding and the node before it, or with NULL where no block has room.
  pub free_list_find_first-Finds :
      (fl : FreeList) (bs : List Block)
      → total bs ≤ fl.size
      → Within bs lo hi
      → Seg bs m fl.head null
      → Returns (Finds bs size alignment) (free_list_find_first m fl size alignment)
  unfolding free_list_find_first
  free_list_find_first-Finds fl bs h w s =
      subst
        (λ fuel.
          Returns (Finds bs size alignment) (find_first_loop fuel m size alignment fl.head null 0))
        {x = suc fl.size} (omega arith)
        (find_first_loop-Finds bs [] (suc fl.size) fl.head null 0 lo
          (omega (arith, length-le-total bs lo hi w)) start w s refl tt)
