-- ===== src/Context/Deinit.antt =====
-- The end of a device that is in error (lib/strela.c, `strela_dev_deinit`).
use strela_pynq.Base.{
  ◌^◌, ◌<◌, ◌≡◌, refl, arith, true, false, [], ◌∷◌, is_zero, returned, Returns, ends, release,
}
use strela_pynq.Device.{strela_dev_ok, kernel_memory_size, tensor_memory_size}
use strela_pynq.Job.{zeroed_slots, strela_job_free_all}
use strela_pynq.Context.{
  descriptor, mapping, System, Context, strela_dev_deinit, close_context, zeroed_device,
}
use strela_pynq.Context.Close.{IsSystem, deinit-both}

job_free_all-in_error :
    (sys : System) (ctx : Context)
    → is_zero ctx.dev.errnum ≡ false
    → strela_job_free_all ctx.dev sys.job_release ≡ returned ctx.dev
unfolding strela_job_free_all strela_dev_ok
job_free_all-in_error sys ctx error = ground (arith, error)

-- `strela_dev_deinit` of an initialised device that is in error unmaps the memory and closes the
-- device, and zeroes every job slot; but it makes no system call for any job: no submitted job is
-- waited for, and no fence's descriptor is closed.
pub strela_dev_deinit-in_error :
    (sys : System) (ctx : Context)
    → IsSystem sys
    → ctx.dev.initialized ≡ true
    → is_zero ctx.dev.errnum ≡ false
    → (0 < ctx.dev.tensors_bo_map) × (ctx.dev.tensors_bo_map < 2 ^ 63)
    → (0 < ctx.dev.kernels_bo_map) × (ctx.dev.kernels_bo_map < 2 ^ 63)
    → Returns
        (λ c.
          (c.0.dev.calls ≡ ctx.dev.calls)
          × (c.0.dev.jobs ≡ zeroed_slots 16)
          × (c.1
              ≡ release (mapping ctx.dev.tensors_bo_map tensor_memory_size)
                ∷ release (mapping ctx.dev.kernels_bo_map kernel_memory_size)
                ∷ release (descriptor ctx.fd)
                ∷ []))
        (strela_dev_deinit sys ctx)
unfolding strela_dev_deinit close_context
strela_dev_deinit-in_error sys ctx laws init error tensors kernels =
    let is : strela_dev_deinit sys ctx
        ≡ returned (
          record { fd = 0; dev = zeroed_device ctx.dev },
          release (mapping ctx.dev.tensors_bo_map tensor_memory_size)
              ∷ release (mapping ctx.dev.kernels_bo_map kernel_memory_size)
              ∷ release (descriptor ctx.fd)
              ∷ [],
        ) =
      simp
        (
          init,
          job_free_all-in_error sys ctx error,
          deinit-both sys laws ctx.dev.tensors_bo_map tensor_memory_size ctx.dev.kernels_bo_map
              kernel_memory_size ctx.fd tensors kernels,
        )
        refl in
    rw is (ends (refl, refl, refl))
