-- ===== src/FreeList.antt =====
-- The free list allocator (lib/allocators.c, `Free_List` and `free_list_*`): free blocks of any
-- size, linked in order of address through their first words, and a header in front of each
-- allocation. The memory holds the nodes and the headers. A walk over the list takes fuel, one
-- unit for each node, since nothing in the types keeps the list from looping.
pub mod Alloc
pub mod Blocks
pub mod Carve
pub mod FirstFit
pub mod Free
pub mod Join
pub mod Nodes
pub mod Padding
pub mod Release
pub mod Search
pub mod State
pub mod Wrap
use strela_pynq.Base.{
  ℕ, zero, suc, ◌+◌, ◌-◌, ◌*◌, ◌/◌, ◌^◌, ◌==◌, leb, ltb, Bool, true, false, not, ◌&&◌, bit_and,
  if◌then◌else◌, add64, sub64, mul64, Outcome, returned, aborted, out_of_fuel, ◌>>=◌,
}
use strela_pynq.Align.{assert◌then◌, is_power_of_two, align_forward_uintptr, align_forward_size}
use strela_pynq.Memory.{Ptr, null, Mem, store}

pub data PlacementPolicy : Type 0 where
  find_first find_best : PlacementPolicy

-- `data` is `area` here.
pub record FreeList : Type 0 where
  pub area : Ptr
  pub size : ℕ
  pub used : ℕ
  pub head : Ptr
  pub policy : PlacementPolicy

-- sizeof (Free_List_Allocation_Header), sizeof (Free_List_Node), sizeof (max_align_t)
abbrev pub header_size : ℕ
header_size = 24

abbrev pub node_size : ℕ
node_size = 16

abbrev pub max_align : ℕ
max_align = 16

-- The fields of `Free_List_Node`: `next` at 0, `block_size` at 8.
abbrev pub next_of : Mem → Ptr → Ptr
next_of m node = m node

abbrev pub block_size_of : Mem → Ptr → ℕ
block_size_of m node = m (node + 8)

abbrev pub set_next : Mem → Ptr → Ptr → Mem
set_next m node v = store m node v

abbrev pub set_block_size : Mem → Ptr → ℕ → Mem
set_block_size m node v = store m (node + 8) v

-- The fields of `Free_List_Allocation_Header`: `orig_size` at 0, `block_size` at 8, `padding` at 16.
abbrev pub write_header : Mem → Ptr → (orig_size block_size padding : ℕ) → Mem
write_header m h orig_size block_size padding =
    store (store (store m h orig_size) (h + 8) block_size) (h + 16) padding

unfoldable pub free_list_free_all : Mem → FreeList → Mem × FreeList
free_list_free_all m fl = (
  set_next (set_block_size m fl.area fl.size) fl.area null,
  record fl { used = 0; head = fl.area },
)

unfoldable pub free_list_init : Mem → FreeList → Ptr → ℕ → Outcome (Mem × FreeList)
free_list_init m fl area size = do
  start ← align_forward_uintptr area max_align
  let adjustment = sub64 start area
  assert ltb adjustment (add64 size node_size)
      then returned
          (free_list_free_all m (record fl { area = start; size = sub64 size adjustment }))

-- `calc_padding_with_header` in three parts: the bytes up to the alignment, the whole alignments
-- that `needed` more bytes take, and their sum where the first leaves no room for the header.
unfoldable pub to_boundary : (p a : ℕ) → ℕ
to_boundary p a =
    let modulo = bit_and p (sub64 a 1) in if not (modulo == 0) then sub64 a modulo else 0

unfoldable pub whole_alignments : (needed a : ℕ) → ℕ
whole_alignments needed a =
    if not (bit_and needed (sub64 a 1) == 0) then mul64 a (1 + needed / a) else mul64 a (needed / a)

unfoldable pub padding_with_header : (ptr alignment header : ℕ) → ℕ
padding_with_header p a header =
    let padding = to_boundary p a in
    if ltb padding header
    then add64 padding (whole_alignments (sub64 header padding) a)
    else padding

unfoldable pub calc_padding_with_header : (ptr alignment header : ℕ) → Outcome ℕ
calc_padding_with_header ptr alignment header =
    assert is_power_of_two alignment then returned (padding_with_header ptr alignment header)

-- What a search returns: the node or NULL, the node before it, and its padding.
pub record Found : Type 0 where
  pub node : Ptr
  pub prev : Ptr
  pub padding : ℕ

-- The loop of `free_list_find_first`.
pub find_first_loop :
    ℕ → Mem → (size alignment : ℕ) → (node prev : Ptr) → (padding : ℕ) → Outcome Found
find_first_loop zero m size alignment node prev padding = out_of_fuel
find_first_loop (suc fuel) m size alignment node prev padding =
    if node == null
    then returned (record { node = node; prev = prev; padding = padding })
    else calc_padding_with_header node alignment header_size >>= λ padding'.
        let rest = find_first_loop fuel m size alignment (next_of m node) node padding' in
        if leb (add64 size padding') (block_size_of m node)
        then returned (record { node = node; prev = prev; padding = padding' })
        else rest

-- The loop of `free_list_find_best`: `best` is the best node so far.
pub find_best_loop :
    ℕ → Mem → (size alignment : ℕ) → (node prev : Ptr) → (smallest_diff : ℕ) → Found → Outcome Found
find_best_loop zero m size alignment node prev smallest_diff best = out_of_fuel
find_best_loop (suc fuel) m size alignment node prev smallest_diff best =
    if node == null
    then returned best
    else calc_padding_with_header node alignment header_size >>= λ padding.
        let required_space = add64 size padding in
        let diff = block_size_of m node - required_space in
        let better = leb required_space (block_size_of m node) && ltb diff smallest_diff in
        find_best_loop fuel m size alignment (next_of m node) node
          (if better then diff else smallest_diff)
          (if better then record { node = node; prev = prev; padding = padding } else best)

-- Every node is at least one byte of the area, so the walks need no more than this.
abbrev pub fuel_of : FreeList → ℕ
fuel_of fl = fl.size + 1

unfoldable pub free_list_find_first : Mem → FreeList → (size alignment : ℕ) → Outcome Found
unfolding find_first_loop
free_list_find_first m fl size alignment =
    find_first_loop (fuel_of fl) m size alignment fl.head null 0

unfoldable pub free_list_find_best : Mem → FreeList → (size alignment : ℕ) → Outcome Found
unfolding find_best_loop
free_list_find_best m fl size alignment =
    find_best_loop (fuel_of fl) m size alignment fl.head null (2 ^ 64 - 1)
      (record { node = null; prev = null; padding = 0 })

unfoldable pub free_list_node_insert : Mem → FreeList → (prev_node new_node : Ptr) → Mem × FreeList
free_list_node_insert m fl prev_node new_node =
    if prev_node == null
    then (set_next m new_node fl.head, record fl { head = new_node })
    else if next_of m prev_node == null
    then (set_next (set_next m prev_node new_node) new_node null, fl)
    else (set_next (set_next m new_node (next_of m prev_node)) prev_node new_node, fl)

unfoldable pub free_list_node_remove : Mem → FreeList → (prev_node del_node : Ptr) → Mem × FreeList
free_list_node_remove m fl prev_node del_node =
    if prev_node == null
    then (m, record fl { head = next_of m del_node })
    else (set_next m prev_node (next_of m del_node), fl)

-- The larger of two numbers, for the two lower limits of `free_list_alloc`.
abbrev pub at_least : ℕ → ℕ → ℕ
at_least low n = if ltb n low then low else n

free_list_find : PlacementPolicy → Mem → FreeList → (size alignment : ℕ) → Outcome Found
free_list_find find_best m fl size alignment = free_list_find_best m fl size alignment
free_list_find find_first m fl size alignment = free_list_find_first m fl size alignment

-- `free_list_alloc` from the found node on: cut the block, unlink the node, write the header.
unfoldable pub free_list_carve :
    Mem → FreeList → Found → (size orig_size : ℕ) → Mem × FreeList × Ptr
free_list_carve m fl found size orig_size =
    let node = found.node in
    let alignment_padding = sub64 found.padding header_size in
    let required_space = add64 size found.padding in
    let remaining = sub64 (block_size_of m node) required_space in
    let new_node = node + required_space in
    let split = leb (node_size + node_size) remaining in
    let required_space' = if split then required_space else block_size_of m node in
    let (m₁, fl₁) =
      if split
      then free_list_node_insert (set_block_size m new_node remaining) fl node new_node
      else (m, fl) in
    let (m₂, fl₂) = free_list_node_remove m₁ fl₁ found.prev node in
    let header = node + alignment_padding in
    (
      write_header m₂ header orig_size required_space' alignment_padding,
      record fl₂ { used = add64 fl₂.used required_space' },
      header + header_size,
    )

-- NULL where the list has no room.
unfoldable pub free_list_alloc :
    Mem → FreeList → (size alignment : ℕ) → Outcome (Mem × FreeList × Ptr)
unfolding free_list_find
free_list_alloc m fl size alignment =
    let alignment' = at_least max_align alignment in
    align_forward_size (at_least node_size size) alignment' >>= λ size'.
    free_list_find fl.policy m fl size' alignment' >>= λ found.
    returned (if found.node == null then (m, fl, null) else free_list_carve m fl found size' size)

unfoldable pub free_list_coalescence : Mem → FreeList → (prev_node free_node : Ptr) → Mem × FreeList
free_list_coalescence m fl prev_node free_node =
    let next = next_of m free_node in
    let (m₁, fl₁) =
      if not (next == null) && (free_node + block_size_of m free_node == next)
      then free_list_node_remove
          (set_block_size m free_node (add64 (block_size_of m free_node) (block_size_of m next))) fl
          free_node next
      else (m, fl) in
    if not (prev_node == null) && (prev_node + block_size_of m₁ prev_node == free_node)
    then free_list_node_remove
        (set_block_size m₁ prev_node
          (add64 (block_size_of m₁ prev_node) (block_size_of m₁ free_node)))
        fl₁ prev_node free_node
    else (m₁, fl₁)

-- The loop of `free_list_free`: the nodes at which it ends, the one before it too. At a hit the
-- C code inserts before it leaves the loop; both ends insert with the same arguments.
pub find_place : ℕ → Mem → (free_node node prev : Ptr) → Outcome Ptr
find_place zero m free_node node prev = out_of_fuel
find_place (suc fuel) m free_node node prev =
    let rest = find_place fuel m free_node (next_of m node) node in
    if node == null then returned prev else if ltb free_node node then returned prev else rest

unfoldable pub free_list_free : Mem → FreeList → Ptr → Outcome (Mem × FreeList)
unfolding find_place
free_list_free m fl ptr =
    if ptr == null
    then returned (m, fl)
    else (let header = ptr - header_size in
        let free_node = header - m (header + 16) in
        let m₁ = set_next (set_block_size m free_node (m (header + 8))) free_node null in
        find_place (fuel_of fl) m₁ free_node fl.head null >>= λ prev.
        let (m₂, fl₂) = free_list_node_insert m₁ fl prev free_node in
        returned (
          free_list_coalescence m₂
            (record fl₂ { used = sub64 fl₂.used (block_size_of m₂ free_node) }) prev free_node))
