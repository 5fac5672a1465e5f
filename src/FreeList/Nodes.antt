-- ===== src/FreeList/Nodes.antt =====
-- Linking nodes in and out (lib/allocators.c, `free_list_node_insert`, `free_list_node_remove`).
use strela_pynq.Base.{◌≡◌, ◌≢◌, ◌∙◌, arith}
use strela_pynq.Memory.{Ptr, null, Mem, store}
use strela_pynq.FreeList.{FreeList, free_list_node_insert, free_list_node_remove}
use strela_pynq.FreeList.Blocks.{LeadsTo}

-- What an allocator's record keeps while nodes are linked.
pub record SameArea (fl fl' : FreeList) : Type 0 where
  pub area : fl'.area ≡ fl.area
  pub size : fl'.size ≡ fl.size
  pub used : fl'.used ≡ fl.used
  pub policy : fl'.policy ≡ fl.policy

pub record Relinks (m : Mem) (fl : FreeList) (prev t : Ptr) (g : Mem) (fl' : FreeList)
    : Type 0 where
  pub linked : LeadsTo g fl'.head prev t
  pub head : prev ≢ null → fl'.head ≡ fl.head
  pub kept : SameArea fl fl'

pub record Inserts (m : Mem) (fl : FreeList) (prev new q : Ptr) (r : Mem × FreeList) : Type 0 where
  pub next : r.0 new ≡ q
  pub links : Relinks m fl prev new r.0 r.1
  pub spared : (x : Ptr) → x ≢ new → x ≢ prev → r.0 x ≡ m x

pub node_insert-Inserts :
    (m : Mem) (fl : FreeList) (prev new q : Ptr)
    → LeadsTo m fl.head prev q
    → prev ≢ new
    → Inserts m fl prev new q (free_list_node_insert m fl prev new)
unfolding free_list_node_insert store
node_insert-Inserts m fl prev new q before ne = record {
  next = ground (arith, before.0, before.1);
  links = record {
    linked = (λ z. ground (arith, z), λ z. ground (arith, z));
    head = λ z. ground (arith, z);
    kept = ground arith;
  };
  spared = λ x n p. ground (arith, n, p);
}

pub record Removes (m : Mem) (fl : FreeList) (prev t : Ptr) (r : Mem × FreeList) : Type 0 where
  pub links : Relinks m fl prev t r.0 r.1
  pub spared : (x : Ptr) → x ≢ prev → r.0 x ≡ m x

pub node_remove-Removes :
    (m : Mem) (fl : FreeList) (prev del : Ptr)
    → Removes m fl prev (m del) (free_list_node_remove m fl prev del)
unfolding free_list_node_remove store
node_remove-Removes m fl prev del = record {
  links = record {
    linked = (λ z. ground (arith, z), λ z. ground (arith, z));
    head = λ z. ground (arith, z);
    kept = ground arith;
  };
  spared = λ x n. ground (arith, n);
}

pub SameArea-trans :
    {fl fl' fl'' : FreeList} → SameArea fl fl' → SameArea fl' fl'' → SameArea fl fl''
SameArea-trans p q = record {
  area = q.area ∙ p.area;
  size = q.size ∙ p.size;
  used = q.used ∙ p.used;
  policy = q.policy ∙ p.policy;
}
