-- ===== src/Device.antt =====
-- The library's device context (lib/strela.c, `struct strela_dev`, include/strela.h). The memory
-- behind the mappings, which C reaches through pointers, is a field here, and so is the trace of
-- the system calls made, the latest first. A system call's reply is an argument of the operation.
use strela_pynq.Base.{ℕ, Bool, false, ◌&&◌, List, ◌∷◌, ℤ, pos, negsuc, is_zero, if◌then◌else◌}
use strela_pynq.Memory.{Ptr, Mem}
use strela_pynq.Pool.{Pool}
use strela_pynq.FreeList.{FreeList}
use strela_pynq.Uapi.{Submit, GemSync}

-- A system call's result, or `errno`.
pub data Reply (A : Type 0) : Type 0 where
  done : A → Reply A
  fail : ℕ → Reply A

-- strela_kernel, strela_job
pub record KernelHandle : Type 0 where
  pub valid : Bool
  pub handle : ℕ

pub record JobHandle : Type 0 where
  pub valid : Bool
  pub handle : ℕ

abbrev pub no_kernel : KernelHandle
no_kernel = record { valid = false; handle = 0 }

abbrev pub no_job : JobHandle
no_job = record { valid = false; handle = 0 }

-- enum strela_job_phase of the library
pub data JobPhase : Type 0 where
  free configured submitted finished : JobPhase

pub record JobSlot : Type 0 where
  pub phase : JobPhase
  pub submit : Submit
  pub fence_fd : ℤ
  pub status : ℤ

-- The system calls that the trace records.
pub data Call : Type 0 where
  gem_sync : GemSync → Call
  syncobj_create : Call
  syncobj_destroy : ℕ → Call
  syncobj_wait : ℕ → Call
  submit_job : Submit → Call
  export_fence : ℕ → Call
  poll_fence : ℤ → ℤ → Call
  fence_info : ℤ → Call
  close_fd : ℤ → Call

pub record Device : Type 0 where
  pub tensors_bo_handle : ℕ
  pub tensors_bo_map : Ptr
  pub kernels_bo_handle : ℕ
  pub kernels_bo_map : Ptr
  pub backward_compat_job : JobHandle
  pub initialized : Bool
  pub errnum : ℤ
  pub kernel_pool : Pool
  pub buffer_free_list : FreeList
  pub jobs : List JobSlot
  pub mem : Mem
  pub calls : List Call

-- STRELA_ERR_OK, -STRELA_ERR_BAD_ARG, -STRELA_ERR_NO_MEM
abbrev pub err_ok : ℤ
err_ok = pos 0

abbrev pub bad_arg : ℤ
bad_arg = negsuc 0

abbrev pub no_mem : ℤ
no_mem = negsuc 1

abbrev pub strela_kernel_size : ℕ
strela_kernel_size = 80

abbrev pub kernel_count : ℕ
kernel_count = 128

abbrev pub kernel_memory_size : ℕ
kernel_memory_size = 40960

abbrev pub tensor_memory_size : ℕ
tensor_memory_size = 52428800

abbrev pub jobs_max : ℕ
jobs_max = 16

unfoldable pub strela_dev_ok : Device → Bool
strela_dev_ok dev = dev.initialized && is_zero dev.errnum

unfoldable pub strela_dev_reset_err : Device → Device
strela_dev_reset_err dev = if dev.initialized then record dev { errnum = err_ok } else dev

abbrev pub strela_dev_get_err : Device → ℤ
strela_dev_get_err dev = dev.errnum

abbrev pub strela_dev_initialized : Device → Bool
strela_dev_initialized dev = dev.initialized

-- `dev->res.errnum = e`
abbrev pub set_err : Device → ℤ → Device
set_err dev e = record dev { errnum = e }

abbrev pub log_call : Device → Call → Device
log_call dev c = record dev { calls = c ∷ dev.calls }
