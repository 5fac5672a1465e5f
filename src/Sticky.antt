-- ===== src/Sticky.antt =====
-- Operations that test the device first do nothing on a device in error (lib/strela.c).
use strela_pynq.Base.{ℕ, ◌≡◌, refl, false, List, none, ℤ, minus_one, returned, if-either, not, ◌==◌}
use strela_pynq.Device.{Reply, KernelHandle, JobHandle, no_kernel, no_job, Device, strela_dev_ok}
use strela_pynq.Job.{Conf, ReleaseReplies, strela_job_free_all, strela_job_config}
use strela_pynq.Job.Run.{
  failed, SubmitReplies, UpdateReplies, strela_job_slot_get, strela_job_free, strela_job_submit,
  strela_job_poll, strela_job_wait, strela_job_fd,
}
use strela_pynq.Kernel.{
  strela_kernel_alloc, strela_kernel_set, strela_kernel_free, strela_kernel_free_all,
}
use strela_pynq.Buffer.{
  Buffer, no_buffer, strela_buffer_alloc, strela_buffer_free, strela_buffer_free_all,
  strela_buffer_sync, strela_buffer_flush,
}

-- What each operation does to a device in error.
pub record Frozen (dev : Device) : Type 0 where
  pub kernel_alloc : strela_kernel_alloc dev ≡ returned (dev, no_kernel)
  pub kernel_set :
      (k : KernelHandle) (ws : List ℕ) (r : Reply (Unit {0})) → strela_kernel_set dev k ws r ≡ dev
  pub kernel_free : (k : KernelHandle) → strela_kernel_free dev k ≡ dev
  pub kernel_free_all : strela_kernel_free_all dev ≡ dev
  pub buffer_alloc : (n : ℕ) → strela_buffer_alloc dev n ≡ returned (dev, no_buffer)
  pub buffer_free : (b : Buffer) → strela_buffer_free dev b ≡ returned dev
  pub buffer_free_all : strela_buffer_free_all dev ≡ dev
  pub buffer_flush :
      (b : Buffer) (o n : ℕ) (r : Reply (Unit {0})) → strela_buffer_flush dev b o n r ≡ dev
  pub job_config :
      (k : KernelHandle) (c : Conf) (r : Reply ℕ) (rs : ReleaseReplies)
      → strela_job_config dev k c r rs ≡ returned (dev, no_job)
  pub job_free : (j : JobHandle) (rs : ReleaseReplies) → strela_job_free dev j rs ≡ returned dev
  pub job_free_all : (rs : ℕ → ReleaseReplies) → strela_job_free_all dev rs ≡ returned dev
  pub job_submit :
      (j : JobHandle) (rs : SubmitReplies) → strela_job_submit dev j rs ≡ returned (dev, false)
  pub job_poll :
      (j : JobHandle) (rs : UpdateReplies) → strela_job_poll dev j rs ≡ returned (dev, failed)
  pub job_wait :
      (j : JobHandle) (t : ℤ) (rs : UpdateReplies)
      → strela_job_wait dev j t rs ≡ returned (dev, false)
  pub job_fd : (j : JobHandle) → strela_job_fd dev j ≡ returned (dev, minus_one)

module _ (dev : Device) (broken : strela_dev_ok dev ≡ false) where
  slot_get : (j : JobHandle) (n : ℕ) → strela_job_slot_get dev j n ≡ returned (dev, none)
  unfolding strela_job_slot_get
  slot_get j n = rw broken

  buffer_sync :
      (b : Buffer) (f o n : ℕ) (r : Reply (Unit {0})) → strela_buffer_sync dev b f o n r ≡ dev
  unfolding strela_buffer_sync
  buffer_sync b f o n r = simp broken

  config_frozen :
      (k : KernelHandle) (c : Conf) (r : Reply ℕ) (rs : ReleaseReplies)
      → strela_job_config dev k c r rs ≡ returned (dev, no_job)
  unfolding strela_job_config
  config_frozen k c r rs = simp broken

  -- On a device that is not fit for use, be it in error or not initialised, each operation that
  -- `Frozen` names returns its empty result, makes no system call and leaves the device as it is.
  pub strela_dev_ok-Frozen : Frozen dev
  unfolding strela_kernel_alloc strela_kernel_set strela_kernel_free strela_kernel_free_all
      strela_buffer_alloc strela_buffer_free strela_buffer_free_all strela_buffer_flush
      strela_job_free strela_job_free_all strela_job_submit strela_job_poll strela_job_wait
      strela_job_fd
  strela_dev_ok-Frozen = record {
    kernel_alloc = simp broken;
    kernel_set = λ k ws r. simp broken;
    kernel_free = λ k. simp broken;
    kernel_free_all = simp broken;
    buffer_alloc = λ n. simp broken;
    buffer_free = λ b. simp broken;
    buffer_free_all = simp broken;
    buffer_flush =
        λ b o n r. if-either (λ d. d ≡ dev) (not (n == 0)) _ _ (buffer_sync b _ _ _ r) refl;
    job_config = config_frozen;
    job_free = λ j rs. rw (slot_get j _);
    job_free_all = λ rs. simp broken;
    job_submit = λ j rs. simp (slot_get, broken);
    job_poll = λ j rs. rw (slot_get j _);
    job_wait = λ j t rs. rw (slot_get j _);
    job_fd = λ j. rw (slot_get j _);
  }
