-- ===== src/Tests/Allocators.antt =====
-- Runs of the allocators.
use strela_pynq.Base.{ℕ, ◌+◌, ◌≡◌, refl, Outcome, returned, ◌>>=◌}
use strela_pynq.Memory.{store}
use strela_pynq.Align.{align_forward_uintptr, align_forward_size, is_power_of_two, bump_to}
use strela_pynq.FreeList.{
  FreeList, find_first, free_list_init, free_list_alloc, free_list_free, calc_padding_with_header,
  padding_with_header, free_list_free_all, free_list_carve, free_list_coalescence,
  free_list_node_insert, free_list_node_remove, free_list_find_first, free_list_find_best,
  to_boundary, whole_alignments,
}

abbrev blank : FreeList
blank = record { area = 0; size = 0; used = 0; head = 0; policy = find_first }

-- Two allocations of 100 bytes; their addresses, and the list after both are freed.
two_allocations : Outcome (ℕ × ℕ × ℕ × ℕ × ℕ × ℕ)
unfolding store free_list_init free_list_alloc free_list_free calc_padding_with_header
    padding_with_header free_list_free_all free_list_carve free_list_coalescence
    free_list_node_insert free_list_node_remove free_list_find_first free_list_find_best to_boundary
    whole_alignments align_forward_uintptr align_forward_size is_power_of_two bump_to
two_allocations = free_list_init (λ _. 0) blank 4096 4096 >>= λ (m, fl).
    free_list_alloc m fl 100 64 >>= λ (m, fl, a). free_list_alloc m fl 100 64 >>= λ (m, fl, b).
    free_list_free m fl a >>= λ (m, fl).
    free_list_free m fl b >>= λ (m, fl). returned (a, b, fl.head, fl.used, m 4096, m (4096 + 8))

two_allocations_run : two_allocations ≡ returned (4160, 4352, 4096, 0, 0, 4096)
unfolding two_allocations
two_allocations_run = refl
