-- ===== src/Tests/BufferData.antt =====
-- Data through a concrete buffer.
use strela_pynq.Base.{refl, arith, true, inl, [], pos, Returns, ◌>>=◌}
use strela_pynq.Memory.{Bytes}
use strela_pynq.FreeList.{find_first}
use strela_pynq.Device.{Device, no_job, strela_dev_ok}
use strela_pynq.Buffer.{Buffer, strela_buffer_set_data, strela_buffer_get_data}
use strela_pynq.Buffer.Data.{IsStored, Copied, strela_buffer_get_data-set_data}

abbrev fit : Device
fit = record {
  tensors_bo_handle = 2;
  tensors_bo_map = 0x20000000;
  kernels_bo_handle = 1;
  kernels_bo_map = 0x10000000;
  backward_compat_job = no_job;
  initialized = true;
  errnum = pos 0;
  kernel_pool = record { buf = 0; buf_len = 0; chunk_size = 0; head = 0 };
  buffer_free_list = record { area = 0; size = 0; used = 0; head = 0; policy = find_first };
  jobs = [];
  mem = λ a. 0;
  calls = [];
}

abbrev sixteen_words : Buffer
sixteen_words = record { valid = true; offset_words_from_base = 8; size_words = 16 }

abbrev numbered : Bytes
numbered a = a

sixteen_words-IsStored : IsStored fit sixteen_words
unfolding strela_dev_ok
sixteen_words-IsStored = record {
  fit = refl;
  valid = refl;
  inside = omega arith;
  ends = omega arith;
}

strela_buffer_get_data-set_data_example : Returns (Copied fit numbered sixteen_words 4096 8192) (
    strela_buffer_set_data fit numbered sixteen_words 4096 >>= λ (dev, m).
    strela_buffer_get_data dev m sixteen_words 8192)
strela_buffer_get_data-set_data_example =
    strela_buffer_get_data-set_data fit numbered sixteen_words 4096 8192 sixteen_words-IsStored
      (inl (omega arith)) (inl (omega arith))
