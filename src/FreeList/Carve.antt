-- ===== src/FreeList/Carve.antt =====
-- Cutting an allocation out of a block (lib/allocators.c, `free_list_alloc` from the found node on).
use strela_pynq.Base.{
  ℕ, ◌+◌, ◌-◌, ◌%◌, ◌^◌, ◌≤◌, ◌<◌, ◌≡◌, ◌≢◌, ◌⊎◌, inl, inr, refl, sym, subst, ◌∙◌, List, ◌∷◌, arith,
}
use strela_pynq.Memory.{Ptr, null, Mem, store, store_self}
use strela_pynq.FreeList.{FreeList, set_block_size, free_list_node_insert, free_list_node_remove}
use strela_pynq.FreeList.Blocks.{
  Block, Seg, Within, last_of, last_of-below, Within-le, Within-lower, Seg-frame, Seg-relink,
}
use strela_pynq.FreeList.Nodes.{
  SameArea, Inserts, Removes, node_insert-Inserts, node_remove-Removes,
}

-- A block of the list in its place: the segments of the list around it.
pub record Placed (m : Mem) (head : Ptr) (before : List Block) (a s : ℕ) (behind : List Block)
    (lo hi : ℕ) : Type 0 where
  pub low : Within before lo a
  pub aligned : a % 16 ≡ 0
  pub room : 16 ≤ s
  pub high : Within behind (a + s) hi
  pub not_null : 0 < lo
  pub ends : hi < 2 ^ 63
  pub chain_low : Seg before m head a
  pub size : m (a + 8) ≡ s
  pub chain_high : Seg behind m (m a) null

-- The list once the block's node is gone: `rest` stands for what is left of the block and the
-- blocks behind it.
pub record Cut (m : Mem) (fl : FreeList) (before : List Block) (a s need : ℕ) (rest : List Block)
    (lo hi : ℕ) (g : Mem) (fl' : FreeList) : Type 0 where
  pub first : Ptr
  pub chain_low : Seg before g fl'.head first
  pub chain_rest : Seg rest g first null
  pub high : Within rest (a + need) hi
  pub kept : SameArea fl fl'
  pub spared : (x : Ptr) → (x < a) ⊎ (a + s ≤ x) → x ≢ last_of before null → g x ≡ m x

module _ (m : Mem) (fl : FreeList) (before : List Block) (a s : ℕ) (behind : List Block) (lo hi : ℕ)
    (p : Placed m fl.head before a s behind lo hi) where
  abbrev pub prev : Ptr
  prev = last_of before null

  above : 0 < a
  above = omega (arith, p.not_null, Within-le before lo a p.low)

  -- There is room for a node between the one before and the block.
  before_block : (prev ≡ 0) ⊎ (prev + 16 ≤ a)
  before_block = last_of-below before lo a p.low

  -- The node's successor takes its place.
  pub whole-Cut :
      Cut m fl before a s s behind lo hi
        (free_list_node_remove m fl prev a).0
        (free_list_node_remove m fl prev a).1
  whole-Cut =
      let r = node_remove-Removes m fl (last_of before null) a in
      record {
        first = m a;
        chain_low =
            Seg-relink m _ before lo a fl.head _ a (m a) p.low p.not_null
              (λ x lo' hi' ne. r.spared x ne) r.links.head r.links.linked p.chain_low;
        chain_rest =
            Seg-frame m _ behind (a + s) hi (m a) null p.high
              (λ x lo' hi'. r.spared x (omega (arith, before_block, above))) p.chain_high;
        high = p.high;
        kept = r.links.kept;
        spared = λ x out ne. r.spared x ne;
      }

  module _ (need : ℕ) (some_need : 16 ≤ need) (whole : need % 16 ≡ 0) (more : need + 32 ≤ s) where
    abbrev pub cut_mem : Mem
    cut_mem = set_block_size m (a + need) (s - need)

    abbrev pub inserted : Mem × FreeList
    inserted = free_list_node_insert cut_mem fl a (a + need)

    inserted-Inserts : Inserts cut_mem fl a (a + need) (m a) inserted
    unfolding store
    inserted-Inserts =
        node_insert-Inserts cut_mem fl a (a + need) (m a)
          (λ z. absurd (omega (arith, above)), λ _. ground arith) (λ z. omega arith)

    abbrev pub removed : Mem × FreeList
    removed = free_list_node_remove inserted.0 inserted.1 prev a

    removed-Removes : Removes inserted.0 inserted.1 prev (a + need) removed
    removed-Removes =
        subst
          (λ t.
            Removes inserted.0 inserted.1 prev t
              (free_list_node_remove inserted.0 inserted.1 prev a))
          (inserted-Inserts.links.linked.1 (λ z. omega (arith, above)))
          (node_remove-Removes inserted.0 inserted.1 prev a)

    split-spared : (x : Ptr) → (x < a) ⊎ (a + s ≤ x) → x ≢ prev → removed.0 x ≡ m x
    unfolding store
    split-spared x out ne =
        removed-Removes.spared x ne
        ∙ inserted-Inserts.spared x (omega (arith, out)) (omega (arith, out))
        ∙ ground (arith, out)

    -- The rest of the block is a node in its place.
    pub split-Cut :
        Cut m fl before a s need ((a + need, s - need) ∷ behind) lo hi removed.0 removed.1
    unfolding store
    split-Cut = record {
      first = a + need;
      chain_low =
          Seg-relink m _ before lo a fl.head _ a (a + need) p.low p.not_null
            (λ x lo' hi' ne. split-spared x (inl hi') ne)
            (λ z.
              removed-Removes.links.head z
              ∙ inserted-Inserts.links.head (λ e. omega (arith, above)))
            removed-Removes.links.linked p.chain_low;
      chain_rest = (
        refl,
        removed-Removes.spared (a + need + 8) (omega (arith, before_block))
            ∙ inserted-Inserts.spared (a + need + 8) (omega arith) (omega arith)
            ∙ store_self m (a + need + 8) (s - need),
        subst (λ x. Seg behind removed.0 x null)
            (sym (
              removed-Removes.spared (a + need) (omega (arith, before_block))
              ∙ inserted-Inserts.next))
            (Seg-frame m _ behind (a + s) hi (m a) null p.high
              (λ x lo' hi'. split-spared x (inr lo') (omega (arith, before_block, above)))
              p.chain_high),
      );
      high = (
        omega arith,
        omega (arith, p.aligned),
        omega arith,
        Within-lower behind _ _ hi (omega arith) p.high,
      );
      kept = record {
        area = removed-Removes.links.kept.area ∙ inserted-Inserts.links.kept.area;
        size = removed-Removes.links.kept.size ∙ inserted-Inserts.links.kept.size;
        used = removed-Removes.links.kept.used ∙ inserted-Inserts.links.kept.used;
        policy = removed-Removes.links.kept.policy ∙ inserted-Inserts.links.kept.policy;
      };
      spared = split-spared;
    }
