-- ===== src/FreeList/Free.antt =====
-- Giving an allocation back to the free list (lib/allocators.c, `free_list_free`,
-- `free_list_coalescence`) against its blocks.
use mathlib.Core.List.{append_assoc}
use strela_pynq.Base.{
  ℕ, ◌+◌, ◌≤◌, ◌<◌, ◌≡◌, ◌⊎◌, inl, inr, refl, sym, subst, ap, ◌∙◌, List, [], ◌∷◌, ◌++◌, arith,
  Bool-cases, Bool, true, false, not, ◌&&◌, if◌then◌else◌, add64, ◌==◌,
}
use strela_pynq.Memory.{Ptr, null, Mem, store_ne}
use strela_pynq.FreeList.{
  FreeList, set_block_size, block_size_of, free_list_node_remove, free_list_coalescence,
}
use strela_pynq.FreeList.Blocks.{
  Block, Within, Outside, Outside-at, Outside-last_node, last_of, last_of-snoc, Within-le,
}
use strela_pynq.FreeList.State.{IsFreeList}
use strela_pynq.FreeList.Nodes.{SameArea, SameArea-trans, node_remove-Removes}
use strela_pynq.FreeList.Alloc.{Placed-of}
use strela_pynq.FreeList.Join.{
  join, joined, joined-snoc, Snoc, empty, snoc, split_last, test-IsFreeList,
}

-- The two halves of `free_list_coalescence`: a node and `b`, which is behind it.
abbrev join_nodes : Bool → Mem → FreeList → (a b : Ptr) → Mem × FreeList
join_nodes test m fl a b =
    if test
    then free_list_node_remove (set_block_size m a (add64 (block_size_of m a) (block_size_of m b)))
        fl a b
    else (m, fl)

abbrev with_next : Mem → FreeList → (f next : Ptr) → Mem × FreeList
with_next m fl f next =
    join_nodes (not (next == null) && (f + block_size_of m f == next)) m fl f next

abbrev with_prev : Mem → FreeList → (prev f : Ptr) → Mem × FreeList
with_prev m fl prev f =
    join_nodes (not (prev == null) && (prev + block_size_of m prev == f)) m fl prev f

with_next-IsFreeList :
    (m : Mem) (fl : FreeList) (before : List Block) (f t : ℕ) (behind : List Block)
    → IsFreeList m fl (before ++ (f, t) ∷ behind)
    → IsFreeList (with_next m fl f (m f)).0 (with_next m fl f (m f)).1 (before ++ join f t behind)
with_next-IsFreeList m fl before f t [] ok =
    let p = Placed-of m fl before f t [] ok in
    subst (λ n. IsFreeList (with_next m fl f n).0 (with_next m fl f n).1 (before ++ (f, t) ∷ []))
      (sym p.chain_high) ok
with_next-IsFreeList m fl before f t ((b, u) ∷ rest) ok =
    let p = Placed-of m fl before f t ((b, u) ∷ rest) ok in
    subst
      (λ n.
        IsFreeList (with_next m fl f n).0 (with_next m fl f n).1
          (before ++ join f t ((b, u) ∷ rest)))
      (sym p.chain_high.0)
      (test-IsFreeList m fl before f t b u rest ok _ (ground (arith, p.size, p.high, p.room)))

with_prev-IsFreeList :
    (m : Mem) (fl : FreeList) (xs : List Block) (a s f t : ℕ) (behind : List Block)
    → IsFreeList m fl (xs ++ (a, s) ∷ (f, t) ∷ behind)
    → IsFreeList (with_prev m fl a f).0 (with_prev m fl a f).1 (xs ++ join a s ((f, t) ∷ behind))
with_prev-IsFreeList m fl xs a s f t behind ok =
    let p = Placed-of m fl xs a s ((f, t) ∷ behind) ok in
    test-IsFreeList m fl xs a s f t behind ok _
      (ground (arith, p.size, p.not_null, Within-le xs fl.area a p.low))

-- A block joined with what is behind it still starts where it did.
join-cons :
    (f t : ℕ) (behind : List Block)
    → (t' : ℕ) × (behind' : List Block) × (join f t behind ≡ (f, t') ∷ behind')
join-cons f t [] = (t, [], refl)
join-cons f t ((b, u) ∷ rest) = elim (Bool-cases (f + t == b)) [
  | inl touch ↦ (t + u, rest, rw touch refl)
  | inr apart ↦ (t, (b, u) ∷ rest, rw apart refl)
]

coalescence_steps :
    (m : Mem) (fl : FreeList) (prev f : Ptr)
    → free_list_coalescence m fl prev f
      ≡ with_prev (with_next m fl f (m f)).0 (with_next m fl f (m f)).1 prev f
unfolding free_list_coalescence
coalescence_steps m fl prev f = refl

pub coalescence-IsFreeList :
    (m : Mem) (fl : FreeList) (before : List Block) (f t : ℕ) (behind : List Block)
    → IsFreeList m fl (before ++ (f, t) ∷ behind)
    → IsFreeList
        (free_list_coalescence m fl (last_of before null) f).0
        (free_list_coalescence m fl (last_of before null) f).1
        (joined before f t behind)
coalescence-IsFreeList m fl before f t behind ok =
    rw (coalescence_steps m fl (last_of before null) f)
      (second (split_last before) (with_next-IsFreeList m fl before f t behind ok))
  where
    second :
        {before : List Block} {m : Mem} {fl : FreeList}
        → Snoc before
        → IsFreeList m fl (before ++ join f t behind)
        → IsFreeList
            (with_prev m fl (last_of before null) f).0
            (with_prev m fl (last_of before null) f).1
            (joined before f t behind)
    second empty ok = ok
    second {m = m} {fl = fl} (snoc xs a s) ok =
        let (t', behind', e) = join-cons f t behind in
        rw (last_of-snoc xs a s null, joined-snoc xs a s f t behind, e)
          (with_prev-IsFreeList m fl xs a s f t' behind' (
            subst (λ bs. IsFreeList m fl bs)
              (append_assoc xs ((a, s) ∷ []) _ ∙ ap (λ bs. xs ++ (a, s) ∷ bs) e) ok))

-- The record keeps the area and the number of used bytes, and only the first node changes.
record Keeps (m : Mem) (fl : FreeList) (a : Ptr) (r : Mem × FreeList) : Type 0 where
  kept : SameArea fl r.1
  spared : (x : Ptr) → (x < a) ⊎ (a + 16 ≤ x) → r.0 x ≡ m x

join_nodes-Keeps :
    (test : Bool) (m : Mem) (fl : FreeList) (a b : Ptr) → Keeps m fl a (join_nodes test m fl a b)
join_nodes-Keeps false m fl a b = record {
  kept = record { area = refl; size = refl; used = refl; policy = refl };
  spared = λ x out. refl;
}
join_nodes-Keeps true m fl a b =
    let m' = set_block_size m a (add64 (block_size_of m a) (block_size_of m b)) in
    let r = node_remove-Removes m' fl a b in
    record {
      kept = r.links.kept;
      spared =
          λ x out. r.spared x (omega (arith, out)) ∙ store_ne m (a + 8) _ x (omega (arith, out));
    }

pub record KeepsOutside (m : Mem) (fl : FreeList) (bs : List Block) (r : Mem × FreeList)
    : Type 0 where
  pub kept : SameArea fl r.1
  pub spared : (x : Ptr) → 16 ≤ x → Outside bs x → r.0 x ≡ m x

pub coalescence-KeepsOutside :
    (m : Mem) (fl : FreeList) (before : List Block) (f t : ℕ) (behind : List Block) (lo : ℕ)
    → Within before lo f
    → 16 ≤ t
    → KeepsOutside m fl
        (before ++ (f, t) ∷ behind)
        (free_list_coalescence m fl (last_of before null) f)
coalescence-KeepsOutside m fl before f t behind lo w room =
    rw (coalescence_steps m fl (last_of before null) f) (
      let r = join_nodes-Keeps (not (m f == null) && (f + block_size_of m f == m f)) m fl f (m f) in
      let (m', fl') = with_next m fl f (m f) in
      let r' =
        join_nodes-Keeps
          (not (last_of before null == null)
            && (last_of before null + block_size_of m' (last_of before null) == f))
          m' fl' (last_of before null) f in
      record {
        kept = SameArea-trans r.kept r'.kept;
        spared = λ x up out.
            r'.spared x (Outside-last_node before ((f, t) ∷ behind) x null lo f w (inr up) out)
            ∙ r.spared x (omega (arith, Outside-at before f t behind x out));
      })
