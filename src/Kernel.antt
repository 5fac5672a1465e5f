-- ===== src/Kernel.antt =====
-- Kernels: the bitstreams in the pool (lib/strela.c, the kernel submodule), and `strela_sync`,
-- which the buffers use too. A bitstream's 80 words of 32 bits are 40 words of the memory.
pub mod Handles
use strela_pynq.Base.{
  ℕ, ◌+◌, ◌*◌, ◌/◌, ◌==◌, ltb, true, not, ◌&&◌, List, [], ◌∷◌, pos, if◌then◌else◌, u32, sub64,
  mul64, bit_or, Outcome, returned,
}
use strela_pynq.Memory.{Ptr, null, Mem, store}
use strela_pynq.Align.{assert◌then◌}
use strela_pynq.Uapi.{word_size, sync_write, sync_fini}
use strela_pynq.Pool.{Pool, pool_alloc, pool_free_all}
use strela_pynq.Device.{
  Reply, KernelHandle, no_kernel, gem_sync, Device, no_mem, strela_kernel_size, kernel_count,
  strela_dev_ok, set_err, log_call,
}
use strela_pynq.Job.{check_kernel, reply_or}

-- memcpy(p, words, …)
unfoldable pub copy_words : Mem → Ptr → List ℕ → Mem
copy_words m p [] = m
copy_words m p (w ∷ ws) = copy_words (store m p w) (p + 8) ws

abbrev pub handle_of : Pool → Ptr → ℕ
handle_of p ptr = u32 (sub64 ptr p.buf / mul64 strela_kernel_size 4)

unfoldable pub strela_kernel_alloc : Device → Outcome (Device × KernelHandle)
strela_kernel_alloc dev =
    let (mem, pool, ptr) = pool_alloc dev.mem dev.kernel_pool in
    let dev' = record dev { mem = mem; kernel_pool = pool } in
    if strela_dev_ok dev
    then if ptr == null
    then returned (set_err dev' no_mem, no_kernel)
    else assert ltb (handle_of pool ptr) kernel_count
    then returned (dev', record { valid = true; handle = handle_of pool ptr })
    else returned (dev, no_kernel)

-- Offset and length are given in words and asked for in bytes.
unfoldable pub strela_sync :
    Device → (handle flags offset_words words : ℕ) → Reply (Unit {0}) → Device
strela_sync dev handle flags offset_words words reply =
    if strela_dev_ok dev && not (words == 0)
    then (let dev' = log_call dev (
          gem_sync (record {
            handle = handle;
            flags = flags;
            offset = mul64 offset_words word_size;
            length = mul64 words word_size;
          })) in
        reply_or reply (λ _. dev') (λ e. set_err dev' (pos e)))
    else dev

unfoldable pub strela_kernel_set : Device → KernelHandle → List ℕ → Reply (Unit {0}) → Device
strela_kernel_set dev kernel bitstream reply =
    let dev₁ = check_kernel dev kernel in
    if strela_dev_ok dev₁
    then (let ptr = dev₁.kernel_pool.buf + u32 (kernel.handle * strela_kernel_size * 4) in
        strela_sync (record dev₁ { mem = copy_words dev₁.mem ptr bitstream }) dev₁.kernels_bo_handle
          (bit_or sync_fini sync_write) (u32 (kernel.handle * strela_kernel_size))
          strela_kernel_size reply)
    else dev₁

-- The call of `pool_free` stands under `if (false)`: freeing one kernel only prints a message.
unfoldable pub strela_kernel_free : Device → KernelHandle → Device
strela_kernel_free dev kernel = check_kernel dev kernel

unfoldable pub strela_kernel_free_all : Device → Device
strela_kernel_free_all dev =
    let (mem, pool) = pool_free_all dev.mem dev.kernel_pool in
    if strela_dev_ok dev then record dev { mem = mem; kernel_pool = pool } else dev
