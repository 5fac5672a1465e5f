-- ===== src/Context.antt =====
-- The start and the end of a device context (lib/strela.c, `strela_dev_deinit_internal`,
-- `strela_dev_init`, `strela_dev_deinit`). What the system answers is an argument. The mappings and
-- the device's descriptor that are taken and given back are recorded in order; those of the search
-- for the device are in Discovery.
pub mod Close
pub mod Deinit
pub mod Init
pub mod Open
pub mod Refill
pub mod Settle
use strela_pynq.Base.{
  ℕ, ◌*◌, ◌^◌, ◌-◌, ◌==◌, leb, Bool, true, false, not, ◌||◌, List, [], ◌∷◌, ◌++◌, Option, none,
  some, ℤ, pos, is_zero, if◌then◌else◌, Outcome, returned, aborted, ◌>>=◌, Step, acquire, release,
}
use strela_pynq.Memory.{Ptr, null, Mem}
use strela_pynq.Align.{assert◌then◌}
use strela_pynq.Pool.{Pool, pool_init}
use strela_pynq.FreeList.{FreeList, find_first, free_list_init}
use strela_pynq.Device.{
  Reply, done, fail, no_job, Device, err_ok, strela_kernel_size, kernel_memory_size,
  tensor_memory_size, jobs_max,
}
use strela_pynq.Discovery.{Dir, find_device}
use strela_pynq.Job.{ReleaseReplies, zeroed_slots, strela_job_free_all}
use strela_pynq.Buffer.{strela_buffer_free_all}
use strela_pynq.Kernel.{strela_kernel_free_all}

-- STRELA_DEVICE_MAX
abbrev pub device_max : ℕ
device_max = 8

abbrev pub map_failed : Ptr
map_failed = 2 ^ 64 - 1

abbrev pub enodev : ℕ
enodev = 19

-- What is held of the system for a device.
pub data Held : Type 0 where
  descriptor : ℕ → Held
  mapping : (base : Ptr) (length : ℕ) → Held

-- What DRM_IOCTL_STRELA_GEM_NEW writes.
pub record NewBo : Type 0 where
  pub handle : ℕ
  pub offset : ℕ

-- What the calls answer; munmap and close, whether they succeed.
pub record System : Type 0 where
  pub opendir : Reply Dir
  pub gem_new : (size : ℕ) → Reply NewBo
  pub mmap : (length offset : ℕ) → Reply Ptr
  pub munmap : (base : Ptr) (length : ℕ) → Bool
  pub close : (fd : ℕ) → Bool
  pub job_release : ℕ → ReleaseReplies

-- The device with the descriptor that it keeps.
pub record Context : Type 0 where
  pub fd : ℕ
  pub dev : Device

unmap : System → (base : Ptr) (length : ℕ) → Outcome (List (Step Held))
unmap sys base length =
    if (base == null) || (base == map_failed)
    then returned []
    else if sys.munmap base length
    then returned (release (mapping base length) ∷ [])
    else aborted

close_device : System → Option ℕ → Outcome (List (Step Held))
close_device sys none = returned []
close_device sys (some fd) =
    if sys.close fd then returned (release (descriptor fd) ∷ []) else aborted

-- A descriptor of -1 is none.
unfoldable pub strela_dev_deinit_internal :
    System
    → (tensors_base : Ptr) (tensors_size : ℕ) (kernels_base : Ptr) (kernels_size : ℕ)
    → (device_fd : Option ℕ) → Outcome (List (Step Held))
unfolding unmap close_device
strela_dev_deinit_internal sys tensors_base tensors_size kernels_base kernels_size device_fd =
    unmap sys tensors_base tensors_size >>= λ tensors.
    unmap sys kernels_base kernels_size >>= λ kernels.
    close_device sys device_fd >>= λ closed. returned (tensors ++ (kernels ++ closed))

abbrev pub no_bo : NewBo
no_bo = record { handle = 0; offset = 0 }

-- The local variables of `strela_dev_init` behind the search, and `dev->res.errnum`.
pub record Opening : Type 0 where
  pub errnum : ℤ
  pub fd : Option ℕ
  pub kernels : NewBo
  pub tensors : NewBo
  pub kernels_base : Ptr
  pub tensors_base : Ptr
  pub steps : List (Step Held)

abbrev pub opening_at : ℤ → Option ℕ → List (Step Held) → Opening
opening_at errnum fd steps = record {
  errnum = errnum;
  fd = fd;
  kernels = no_bo;
  tensors = no_bo;
  kernels_base = null;
  tensors_base = null;
  steps = steps;
}

found_device : Option ℕ → Opening
found_device none = opening_at (pos enodev) none []
found_device (some fd) = opening_at err_ok (some fd) (acquire (descriptor fd) ∷ [])

abbrev gem_new_kernels : Reply NewBo → Opening → Opening
gem_new_kernels (done bo) o = record o { kernels = bo }
gem_new_kernels (fail e) o = record o { errnum = pos e }

abbrev mmap_kernels : Reply Ptr → Opening → Opening
mmap_kernels (done p) o = record o {
  kernels_base = p;
  steps = o.steps ++ (acquire (mapping p kernel_memory_size) ∷ []);
}
mmap_kernels (fail e) o = record o { kernels_base = map_failed; errnum = pos e }

abbrev gem_new_tensors : Reply NewBo → Opening → Opening
gem_new_tensors (done bo) o = record o { tensors = bo }
gem_new_tensors (fail e) o = record o { errnum = pos e }

abbrev mmap_tensors : Reply Ptr → Opening → Opening
mmap_tensors (done p) o = record o {
  tensors_base = p;
  steps = o.steps ++ (acquire (mapping p tensor_memory_size) ∷ []);
}
mmap_tensors (fail e) o = record o { tensors_base = map_failed; errnum = pos e }

-- A step is made only where there is no error yet.
unfoldable pub if_ok : (Opening → Opening) → Opening → Opening
if_ok step o = if is_zero o.errnum then step o else o

-- From the search to the second mapping.
unfoldable pub open_device : System → Option ℕ → Opening
unfolding found_device
open_device sys found =
    let o₁ = if_ok (λ o. gem_new_kernels (sys.gem_new kernel_memory_size) o) (found_device found) in
    let o₂ = if_ok (λ o. mmap_kernels (sys.mmap kernel_memory_size o.kernels.offset) o) o₁ in
    let o₃ = if_ok (λ o. gem_new_tensors (sys.gem_new tensor_memory_size) o) o₂ in
    if_ok (λ o. mmap_tensors (sys.mmap tensor_memory_size o.tensors.offset) o) o₃

-- The device with the descriptor, the mappings and the two allocators.
abbrev pub set_fields : Opening → (fd : ℕ) → Device → Mem → Pool → FreeList → Context
set_fields o fd dev mem pool fl = record {
  fd = fd;
  dev = record dev {
    initialized = true;
    errnum = o.errnum;
    tensors_bo_handle = o.tensors.handle;
    tensors_bo_map = o.tensors_base;
    kernels_bo_handle = o.kernels.handle;
    kernels_bo_map = o.kernels_base;
    kernel_pool = pool;
    buffer_free_list = fl;
    backward_compat_job = no_job;
    jobs = zeroed_slots jobs_max;
    mem = mem;
  };
}

-- The branch without an error, for a descriptor that is not -1.
unfoldable pub set_up : Opening → (fd : ℕ) → Device → Outcome Context
set_up o fd dev =
    pool_init dev.mem o.kernels_base kernel_memory_size (4 * strela_kernel_size) 4
    >>= λ (mem, pool).
        free_list_init mem dev.buffer_free_list o.tensors_base tensor_memory_size >>= λ (mem', fl).
        returned (set_fields o fd dev mem' pool fl)

-- The other branch: what was taken is given back.
unfoldable pub give_up : System → Opening → Context → Outcome (Context × List (Step Held))
give_up sys o ctx =
    if ctx.dev.initialized
    then aborted
    else strela_dev_deinit_internal sys o.tensors_base tensor_memory_size o.kernels_base
        kernel_memory_size o.fd
      >>= λ steps.
          returned (record ctx { dev = record ctx.dev { errnum = o.errnum } }, o.steps ++ steps)

finish_opening : System → Opening → Context → Option ℕ → Outcome (Context × List (Step Held))
finish_opening sys o ctx none = give_up sys o ctx
finish_opening sys o ctx (some fd) =
    if is_zero o.errnum
    then (set_up o fd ctx.dev >>= λ ctx'. returned (ctx', o.steps))
    else give_up sys o ctx

-- Where the device is initialised, everything that was allocated from it is freed.
unfoldable pub reset_all : System → Context → Outcome Context
reset_all sys ctx =
    if ctx.dev.initialized
    then assert is_zero ctx.dev.errnum
    then (strela_job_free_all ctx.dev sys.job_release >>= λ dev.
        returned (record ctx { dev = strela_kernel_free_all (strela_buffer_free_all dev) }))
    else returned ctx

-- `initialized` is the device's: one that is not is searched for and opened.
open_unless : (initialized : Bool) → System → ℕ → Context → Outcome (Context × List (Step Held))
open_unless true sys which_strela ctx = returned (ctx, [])
open_unless false sys which_strela ctx =
    find_device sys.opendir which_strela >>= λ r. finish_opening sys (open_device sys r.1) ctx r.1

-- The end of `strela_dev_init`: the device has an error exactly if it is not initialised.
unfoldable pub reset_and_check :
    System → Context × List (Step Held) → Outcome (Context × List (Step Held))
reset_and_check sys (ctx, steps) = reset_all sys ctx >>= λ ctx'.
    assert (if ctx'.dev.initialized then is_zero ctx'.dev.errnum else not (is_zero ctx'.dev.errnum))
    then returned (ctx', steps)

unfoldable pub strela_dev_init :
    System → (which_strela : ℕ) → Context → Outcome (Context × List (Step Held))
unfolding finish_opening open_unless
strela_dev_init sys which_strela ctx =
    if leb device_max which_strela
    then aborted
    else open_unless ctx.dev.initialized sys which_strela
        (record ctx { dev = record ctx.dev { errnum = err_ok } })
      >>= reset_and_check sys

-- memset(dev, 0, sizeof *dev): what the memory holds and the calls made are not of the struct.
abbrev pub zeroed_device : Device → Device
zeroed_device dev = record {
  tensors_bo_handle = 0;
  tensors_bo_map = null;
  kernels_bo_handle = 0;
  kernels_bo_map = null;
  backward_compat_job = no_job;
  initialized = false;
  errnum = err_ok;
  kernel_pool = record { buf = null; buf_len = 0; chunk_size = 0; head = null };
  buffer_free_list = record { area = null; size = 0; used = 0; head = null; policy = find_first };
  jobs = zeroed_slots jobs_max;
  mem = dev.mem;
  calls = dev.calls;
}

close_context : System → Context → Outcome (Device × List (Step Held))
close_context sys ctx =
    if ctx.dev.initialized
    then (strela_job_free_all ctx.dev sys.job_release >>= λ dev.
        strela_dev_deinit_internal sys dev.tensors_bo_map tensor_memory_size dev.kernels_bo_map
          kernel_memory_size (some ctx.fd)
        >>= λ steps. returned (dev, steps))
    else returned (ctx.dev, [])

unfoldable pub strela_dev_deinit : System → Context → Outcome (Context × List (Step Held))
unfolding close_context
strela_dev_deinit sys ctx = close_context sys ctx >>= λ (dev, steps).
    returned (record { fd = 0; dev = zeroed_device dev }, steps)
