-- ===== src/Tests/Buffers.antt =====
-- Buffers of a device in use.
use strela_pynq.Base.{
  returned, bit_or, ◌-◌, ◌<◌, ◌∷◌, ◌^◌, ◌*◌, ◌+◌, ◌%◌, ◌≡◌, ◌≤◌, refl, arith, [], pos, true, false,
}
use strela_pynq.Uapi.{sync_prep, sync_read}
use strela_pynq.FreeList.{find_first}
use strela_pynq.Device.{Device, no_job, done, gem_sync, strela_dev_ok, set_err, log_call, bad_arg}
use strela_pynq.Buffer.{Buffer, strela_buffer_flush, strela_buffer_inval, strela_buffer_alloc}
use strela_pynq.Buffer.Flush.{
  IsPlaced, first_word, last_word, flush_request, strela_buffer_flush-request,
  strela_buffer_flush-partial_line,
}
use strela_pynq.Buffer.Inval.{strela_buffer_inval-request}
use strela_pynq.Buffer.Overflow.{strela_buffer_alloc-IsHuge}
use strela_pynq.Kernel.{strela_kernel_alloc}
use strela_pynq.Kernel.Handles.{HasKernels, strela_kernel_alloc-HasKernels}
use strela_pynq.Pool.{pool_free_all}
use strela_pynq.Pool.Laws.{IsSized, below, pool_free_all-IsPool}
use strela_pynq.Sticky.{Frozen, strela_dev_ok-Frozen}

abbrev pub in_use : Device
in_use = record {
  tensors_bo_handle = 2;
  tensors_bo_map = 2 ^ 32;
  kernels_bo_handle = 1;
  kernels_bo_map = 2 ^ 16;
  backward_compat_job = no_job;
  initialized = true;
  errnum = pos 0;
  kernel_pool = record { buf = 2 ^ 16; buf_len = 40960; chunk_size = 320; head = 0 };
  buffer_free_list = record {
    area = 2 ^ 32;
    size = 52428800;
    used = 0;
    head = 2 ^ 32;
    policy = find_first;
  };
  jobs = [];
  mem = λ a. 0;
  calls = [];
}

abbrev whole_lines : Buffer
whole_lines = record { valid = true; offset_words_from_base = 32; size_words = 64 }

abbrev ten_words : Buffer
ten_words = record { valid = true; offset_words_from_base = 32; size_words = 10 }

in_use_fit : strela_dev_ok in_use ≡ true
unfolding strela_dev_ok
in_use_fit = refl

whole_lines-IsPlaced : IsPlaced whole_lines
whole_lines-IsPlaced = record { valid = refl; inside = omega arith }

ten_words-IsPlaced : IsPlaced ten_words
ten_words-IsPlaced = record { valid = refl; inside = omega arith }

strela_buffer_flush-request_example :
    (strela_buffer_flush in_use whole_lines 20 10 (done tt)
      ≡ log_call in_use (gem_sync (flush_request in_use whole_lines 20 10)))
    × (first_word 20 ≤ 20)
    × ((32 + first_word 20) * 4 % 64 ≡ 0)
    × ((last_word 20 10 - first_word 20) * 4 % 64 ≡ 0)
    × (20 < first_word 20 + 16)
    × (30 ≤ last_word 20 10)
    × (last_word 20 10 < 30 + 16)
    × (last_word 20 10 ≤ 64)
strela_buffer_flush-request_example =
    strela_buffer_flush-request in_use whole_lines in_use_fit whole_lines-IsPlaced 20 10 refl refl
      (λ e. omega arith) (omega arith)

strela_buffer_flush-partial_line_example :
    strela_buffer_flush in_use ten_words 0 10 (done tt) ≡ set_err in_use bad_arg
strela_buffer_flush-partial_line_example =
    strela_buffer_flush-partial_line in_use ten_words in_use_fit ten_words-IsPlaced 0 10 (done tt)
      (λ e. omega arith) (λ e. omega arith) refl

in_error : strela_dev_ok (set_err in_use bad_arg) ≡ false
unfolding strela_dev_ok
in_error = refl

strela_dev_ok-Frozen_example : Frozen (set_err in_use bad_arg)
strela_dev_ok-Frozen_example = strela_dev_ok-Frozen (set_err in_use bad_arg) in_error

strela_buffer_inval-request_example :
    strela_buffer_inval in_use whole_lines 16 32 (done tt)
    ≡ log_call in_use (
        gem_sync (record {
          handle = 2;
          flags = bit_or sync_prep sync_read;
          offset = (32 + 16) * 4;
          length = 32 * 4;
        }))
strela_buffer_inval-request_example =
    strela_buffer_inval-request in_use whole_lines 16 32 in_use_fit whole_lines-IsPlaced refl refl
      (λ e. omega arith) (omega arith)

-- Every word of the memory reads as the size of the whole area, the free block's among them.
abbrev with_block : Device
with_block = record in_use { mem = λ a. 52428800 }

with_block_fit : strela_dev_ok with_block ≡ true
unfolding strela_dev_ok
with_block_fit = refl

strela_buffer_alloc-IsHuge_example :
    (dev' : Device) × (b : Buffer) × (strela_buffer_alloc with_block (2 ^ 62 - 1)
      ≡ returned (dev', b))
    × (b.valid ≡ true)
    × (b.size_words ≡ 2 ^ 62 - 1)
strela_buffer_alloc-IsHuge_example =
    strela_buffer_alloc-IsHuge with_block (2 ^ 62 - 1) with_block_fit
      (record { above = omega arith; below = omega arith })
      (record {
        first = refl;
        some_node = λ e. omega arith;
        small = omega arith;
        room = omega arith;
      })

-- All kernels are free.
abbrev with_kernels : Device
with_kernels = record in_use {
  mem = (pool_free_all in_use.mem in_use.kernel_pool).0;
  kernel_pool = (pool_free_all in_use.mem in_use.kernel_pool).1;
}

in_use-IsSized : IsSized in_use.kernel_pool
in_use-IsSized = record { room = omega arith; not_null = omega arith; fits = omega arith }

with_kernels-HasKernels : HasKernels with_kernels (127 ∷ below 127)
unfolding strela_dev_ok
with_kernels-HasKernels =
    let filled = pool_free_all-IsPool in_use.mem in_use.kernel_pool in_use-IsSized in
    record { fit = refl; pool = filled.0; length = filled.2; chunk = filled.3 }

strela_kernel_alloc-HasKernels_example :
    (dev' : Device) × (strela_kernel_alloc with_kernels
      ≡ returned (dev', record { valid = true; handle = 127 }))
    × HasKernels dev' (below 127)
    × (127 < 128)
strela_kernel_alloc-HasKernels_example =
    strela_kernel_alloc-HasKernels with_kernels 127 (below 127) with_kernels-HasKernels
