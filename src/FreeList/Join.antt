-- ===== src/FreeList/Join.antt =====
-- Joining blocks that touch (lib/allocators.c, `free_list_coalescence`).
use strela_pynq.Base.{
  ℕ, ◌+◌, ◌≤◌, ◌<◌, ◌≡◌, ◌⊎◌, inl, inr, refl, subst, ap, List, [], ◌∷◌, ◌++◌, arith, Bool-cases,
  Bool, false, if◌then◌else◌, add64, ◌==◌,
}
use strela_pynq.Memory.{null, Mem, store, store_ne}
use strela_pynq.FreeList.{FreeList, set_block_size, block_size_of, free_list_node_remove}
use strela_pynq.FreeList.Blocks.{
  Block, Seg, Within, Within-le, Within-append, total-append, Seg-append, Seg-frame,
}
use strela_pynq.FreeList.State.{IsFreeList, end_of}
use strela_pynq.FreeList.Carve.{Placed}
use strela_pynq.FreeList.Alloc.{Placed-of}

-- A block in front of blocks, as one with the first of them if they touch.
abbrev pub join : (a s : ℕ) → List Block → List Block
join a s [] = (a, s) ∷ []
join a s ((b, u) ∷ rest) = if a + s == b then (a, s + u) ∷ rest else (a, s) ∷ (b, u) ∷ rest

-- The blocks once `(f, t)` is among them: it is joined with the block behind it and with the last
-- of the blocks before it.
abbrev pub joined : List Block → (f t : ℕ) → List Block → List Block
joined [] f t behind = join f t behind
joined ((a, s) ∷ []) f t behind = join a s (join f t behind)
joined ((a, s) ∷ b ∷ before) f t behind = (a, s) ∷ joined (b ∷ before) f t behind

pub joined-snoc :
    (xs : List Block) (a s f t : ℕ) (behind : List Block)
    → joined (xs ++ (a, s) ∷ []) f t behind ≡ xs ++ join a s (join f t behind)
joined-snoc [] a s f t behind = refl
joined-snoc (x ∷ []) a s f t behind = refl
joined-snoc (x ∷ y ∷ xs) a s f t behind = ap (λ bs. x ∷ bs) (joined-snoc (y ∷ xs) a s f t behind)

pub data Snoc : List Block → Type 0 where
  empty : Snoc []
  snoc : (xs : List Block) (a s : ℕ) → Snoc (xs ++ (a, s) ∷ [])

pub split_last : (bs : List Block) → Snoc bs
split_last [] = empty
split_last ((a, s) ∷ bs) = further (split_last bs)
  where
    further : {bs : List Block} → Snoc bs → Snoc ((a, s) ∷ bs)
    further empty = snoc [] a s
    further (snoc xs b u) = snoc ((a, s) ∷ xs) b u

module _ (m : Mem) (fl : FreeList) (xs : List Block) (a s b u : ℕ) (rest : List Block)
    (ok : IsFreeList m fl (xs ++ (a, s) ∷ (b, u) ∷ rest)) where
  p : Placed m fl.head xs a s ((b, u) ∷ rest) fl.area (end_of fl)
  p = Placed-of m fl xs a s ((b, u) ∷ rest) ok

  abbrev pub both : Mem × FreeList
  both =
      free_list_node_remove (set_block_size m a (add64 (block_size_of m a) (block_size_of m b))) fl
        a b

  below : b + u ≤ end_of fl
  below = Within-le rest (b + u) (end_of fl) p.high.3

  above : 0 < a
  above = omega (arith, p.not_null, Within-le xs fl.area a p.low)

  abbrev rewritten : Mem
  rewritten = store (store m (a + 8) (s + u)) a (m b)

  both_lem : both ≡ (rewritten, fl)
  unfolding free_list_node_remove
  both_lem = simp (
    p.size,
    p.chain_high.1,
    sum,
    there,
    store_ne m (a + 8) (s + u) b (omega (arith, p.high, p.room)),
  )
    where
      sum : add64 s u ≡ s + u
      sum = omega (arith, below, p.high, ok.ends)

      there : (a == null) ≡ false
      there = ground (arith, above)

  elsewhere : (x : ℕ) → (x < a) ⊎ (a + 16 ≤ x) → rewritten x ≡ m x
  unfolding store
  elsewhere x out = ground (arith, out)

  rewritten-IsFreeList : a + s ≡ b → IsFreeList rewritten fl (xs ++ (a, s + u) ∷ rest)
  unfolding store
  rewritten-IsFreeList touch = record {
    not_null = ok.not_null;
    ends = ok.ends;
    within = Within-append xs ((a, s + u) ∷ rest) fl.area a (end_of fl) p.low (
      omega arith,
      p.aligned,
      omega (arith, p.room),
      subst (λ x. Within rest x (end_of fl)) {x = b + u} (omega arith) p.high.3,
    );
    chain =
        Seg-append xs ((a, s + u) ∷ rest) rewritten fl.head a null
          (Seg-frame m rewritten xs fl.area a fl.head a p.low (λ x lo hi. elsewhere x (inl hi))
            p.chain_low)
          (
            refl,
            ground arith,
            subst (λ x. Seg rest rewritten x null) {x = m b} (ground arith)
                (Seg-frame m rewritten rest (b + u) (end_of fl) (m b) null p.high.3
                  (λ x lo hi. elsewhere x (inr (omega (arith, p.high, p.room)))) p.chain_high.2),
          );
    counted = omega (
      arith,
      ok.counted,
      total-append xs ((a, s + u) ∷ rest),
      total-append xs ((a, s) ∷ (b, u) ∷ rest),
    );
  }

  -- The test decides whether the two become one.
  pub test-IsFreeList :
      (test : Bool)
      → test ≡ (a + s == b)
      → IsFreeList
          (if test then both else (m, fl)).0
          (if test then both else (m, fl)).1
          (xs ++ join a s ((b, u) ∷ rest))
  test-IsFreeList test e = elim (Bool-cases (a + s == b)) [
    | inl touch ↦ simp (e, touch, both_lem) (rewritten-IsFreeList (ground (arith, touch)))
    | inr apart ↦ simp (e, apart) ok
  ]
