-- ===== src/Tests/Contexts.antt =====
-- Starting and ending a device context, on a concrete system.
use strela_pynq.Base.{
  ℕ, ◌==◌, ◌≡◌, refl, arith, true, false, [], ◌∷◌, pos, minus_one, if◌then◌else◌, Returns, release,
}
use strela_pynq.Memory.{Ptr}
use strela_pynq.Device.{Reply, done, fail, no_job, finished, kernel_memory_size, tensor_memory_size}
use strela_pynq.Job.{zeroed_slot, zeroed_slots}
use strela_pynq.Context.{System, Context, descriptor, mapping, strela_dev_init, strela_dev_deinit}
use strela_pynq.Context.Close.{IsSystem}
use strela_pynq.Context.Init.{Inits, strela_dev_init-Inits}
use strela_pynq.Context.Deinit.{strela_dev_deinit-in_error}
use strela_pynq.FreeList.{find_first}

abbrev bases : (length offset : ℕ) → Reply Ptr
bases length offset =
    if length == kernel_memory_size
    then done 0x10000000
    else if length == tensor_memory_size
    then done 0x20000000
    else fail 12

-- One device, opened as descriptor 5.
abbrev one_device : System
one_device = record {
  opendir = done (record {
    entries = record { dotted = false; opens = done 5; is_strela = done true } ∷ [];
    end_errno = 0;
  });
  gem_new = λ size. done (record { handle = 1; offset = 0 });
  mmap = bases;
  munmap = λ base length. true;
  close = λ fd. true;
  job_release = λ i. record { wait = done tt; close = done tt; destroy = done tt };
}

one_device-IsSystem : IsSystem one_device
one_device-IsSystem = record {
  gem_new_errno = λ n e. ground (arith, e);
  mmap_errno = λ l o e. ground (arith, e);
  page = λ l o p e. ground (arith, e);
  apart = λ o u p q e f. ground (arith, e, f);
  unmaps = λ p l. refl;
  closes = λ fd. refl;
}

abbrev blank : Context
blank = record {
  fd = 0;
  dev = record {
    tensors_bo_handle = 0;
    tensors_bo_map = 0;
    kernels_bo_handle = 0;
    kernels_bo_map = 0;
    backward_compat_job = no_job;
    initialized = false;
    errnum = pos 0;
    kernel_pool = record { buf = 0; buf_len = 0; chunk_size = 0; head = 0 };
    buffer_free_list = record { area = 0; size = 0; used = 0; head = 0; policy = find_first };
    jobs = zeroed_slots 16;
    mem = λ a. 0;
    calls = [];
  };
}

strela_dev_init-Inits_example : Returns (Inits one_device 0) (strela_dev_init one_device 0 blank)
strela_dev_init-Inits_example =
    strela_dev_init-Inits one_device 0 blank one_device-IsSystem (omega arith) refl

-- In error, with a done job that holds descriptor 9.
abbrev in_error : Context
in_error = record {
  fd = 5;
  dev = record blank.dev {
    initialized = true;
    errnum = minus_one;
    tensors_bo_map = 0x20000000;
    kernels_bo_map = 0x10000000;
    jobs = record zeroed_slot { phase = finished; fence_fd = pos 9 } ∷ zeroed_slots 15;
  };
}

strela_dev_deinit-in_error_example :
    Returns
      (λ c.
        (c.0.dev.calls ≡ [])
        × (c.0.dev.jobs ≡ zeroed_slots 16)
        × (c.1
            ≡ release (mapping 0x20000000 tensor_memory_size)
              ∷ release (mapping 0x10000000 kernel_memory_size)
              ∷ release (descriptor 5)
              ∷ []))
      (strela_dev_deinit one_device in_error)
strela_dev_deinit-in_error_example =
    strela_dev_deinit-in_error one_device in_error one_device-IsSystem refl refl
      (omega arith, omega arith) (omega arith, omega arith)
