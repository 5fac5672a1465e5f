-- ===== src/Tests/Arenas.antt =====
-- The arena at concrete buffers.
use strela_pynq.Base.{◌+◌, refl, arith, Returns}
use strela_pynq.Memory.{Ptr, Bytes}
use strela_pynq.Align.Laws.{IsAligned}
use strela_pynq.Arena.{Arena, arena_alloc_align, arena_resize_align}
use strela_pynq.Arena.Alloc.{IsArena, Allocates, arena_alloc_align-Allocates}
use strela_pynq.Arena.Resize.{Resizes, arena_resize_align-Resizes}

abbrev numbered : Bytes
numbered a = a

-- A hundred bytes, of which 45 are in use; the last allocation has the last five.
abbrev in_use : Arena
in_use = record { buf = 4096; buf_len = 100; prev_offset = 40; curr_offset = 45 }

in_use-IsArena : IsArena in_use
in_use-IsArena = record {
  not_null = omega arith;
  fits = omega arith;
  inside = omega arith;
  last = omega arith;
}

arena_alloc_align-Allocates_example :
    (start : Ptr) × IsAligned (in_use.buf + in_use.curr_offset) 8 start
    × Returns (Allocates numbered in_use 20 start) (arena_alloc_align numbered in_use 20 8)
arena_alloc_align-Allocates_example =
    arena_alloc_align-Allocates numbered in_use 20 8 in_use-IsArena (3, refl) (omega arith)
      (omega arith)

-- The first forty bytes do not fit a second time.
arena_resize_align-Resizes_example :
    Resizes numbered in_use 4096 40 60 8 (arena_resize_align numbered in_use 4096 40 60 8)
arena_resize_align-Resizes_example =
    arena_resize_align-Resizes numbered in_use 4096 40 60 8 in_use-IsArena
      (record { from = omega arith; some_bytes = omega arith; inside = omega arith }) (3, refl)
      (omega arith) (omega arith) (omega arith)
