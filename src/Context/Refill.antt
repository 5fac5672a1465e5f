-- ===== src/Context/Refill.antt =====
-- Freeing everything of a device that is fit for use (lib/strela.c, `strela_dev_init`).
use strela_pynq.Base.{
  ◌+◌, ◌*◌, ◌%◌, ◌^◌, ◌≤◌, ◌<◌, ◌≡◌, ◌⊎◌, refl, ◌∙◌, ap, sym, subst, arith, true, [], ◌∷◌,
}
use strela_pynq.Memory.{Mem}
use strela_pynq.Pool.{pool_free_all}
use strela_pynq.Pool.Outside.{pool_free_all-outside}
use strela_pynq.Pool.Laws.{IsSized, IsPool, chunk_count, below, pool_free_all-IsPool}
use strela_pynq.FreeList.{FreeList, free_list_free_all}
use strela_pynq.FreeList.State.{end_of, IsFreeList, free_list_free_all-IsFreeList}
use strela_pynq.Device.{Device, strela_kernel_size, kernel_memory_size, strela_dev_ok}
use strela_pynq.Kernel.{strela_kernel_free_all}
use strela_pynq.Kernel.Handles.{HasKernels}
use strela_pynq.Buffer.{strela_buffer_free_all}

-- A device fit for use, with the pool and the area that `strela_dev_init` makes, which lie apart.
pub record Fitted (dev : Device) : Type 0 where
  pub fit : strela_dev_ok dev ≡ true
  pub sized : IsSized dev.kernel_pool
  pub length : dev.kernel_pool.buf_len ≡ kernel_memory_size
  pub chunk : dev.kernel_pool.chunk_size ≡ strela_kernel_size * 4
  pub not_null : 0 < dev.buffer_free_list.area
  pub aligned : dev.buffer_free_list.area % 16 ≡ 0
  pub room : 16 ≤ dev.buffer_free_list.size
  pub ends : end_of dev.buffer_free_list < 2 ^ 63
  pub apart :
      (dev.kernel_pool.buf + dev.kernel_pool.buf_len ≤ dev.buffer_free_list.area)
      ⊎ (end_of dev.buffer_free_list ≤ dev.kernel_pool.buf)

-- Every chunk and every byte of the tensors' memory is free.
pub record AllFree (dev : Device) : Type 0 where
  pub kernels : HasKernels dev (below 128)
  pub buffers :
      IsFreeList dev.mem dev.buffer_free_list
        ((dev.buffer_free_list.area, dev.buffer_free_list.size) ∷ [])

IsFreeList-frame :
    (m g : Mem) (fl : FreeList)
    → IsFreeList m fl ((fl.area, fl.size) ∷ [])
    → g fl.area ≡ m fl.area
    → g (fl.area + 8) ≡ m (fl.area + 8)
    → IsFreeList g fl ((fl.area, fl.size) ∷ [])
IsFreeList-frame m g fl v e8 e0 = record {
  not_null = v.not_null;
  ends = v.ends;
  within = v.within;
  chain = (v.chain.0, e0 ∙ v.chain.1, e8 ∙ v.chain.2);
  counted = v.counted;
}

buffer_free_all-fit :
    (dev : Device)
    → strela_dev_ok dev ≡ true
    → strela_buffer_free_all dev ≡ record dev {
      mem = (free_list_free_all dev.mem dev.buffer_free_list).0;
      buffer_free_list = (free_list_free_all dev.mem dev.buffer_free_list).1;
    }
unfolding strela_buffer_free_all
buffer_free_all-fit dev h = simp (h) refl

kernel_free_all-fit :
    (dev : Device)
    → strela_dev_ok dev ≡ true
    → strela_kernel_free_all dev ≡ record dev {
      mem = (pool_free_all dev.mem dev.kernel_pool).0;
      kernel_pool = (pool_free_all dev.mem dev.kernel_pool).1;
    }
unfolding strela_kernel_free_all
kernel_free_all-fit dev h = simp (h) refl

-- Freeing the kernels of such a device, whose tensors' memory is free.
kernel_free_all-AllFree :
    (dev : Device)
    → Fitted dev
    → IsFreeList dev.mem dev.buffer_free_list
        ((dev.buffer_free_list.area, dev.buffer_free_list.size) ∷ [])
    → AllFree (strela_kernel_free_all dev)
unfolding strela_dev_ok
kernel_free_all-AllFree dev f v =
    let p = pool_free_all-IsPool dev.mem dev.kernel_pool f.sized in
    let out = pool_free_all-outside dev.mem dev.kernel_pool in
    let count : chunk_count dev.kernel_pool ≡ 128 = simp (f.length, f.chunk) refl in
    subst AllFree (sym (kernel_free_all-fit dev f.fit)) (record {
      kernels = record {
        fit = f.fit;
        pool =
            subst
              (λ n.
                IsPool (pool_free_all dev.mem dev.kernel_pool).0
                  (pool_free_all dev.mem dev.kernel_pool).1 (below n))
              count p.0;
        length = p.2 ∙ f.length;
        chunk = p.3 ∙ f.chunk;
      };
      buffers =
          IsFreeList-frame dev.mem _ dev.buffer_free_list v
            (out dev.buffer_free_list.area f.sized (omega (arith, f.apart, f.room)))
            (out (dev.buffer_free_list.area + 8) f.sized (omega (arith, f.apart, f.room)));
    })

buffer_free_all-Fitted :
    (dev : Device)
    → Fitted dev
    → Fitted (strela_buffer_free_all dev)
      × IsFreeList (strela_buffer_free_all dev).mem (strela_buffer_free_all dev).buffer_free_list (
          (
            (strela_buffer_free_all dev).buffer_free_list.area,
            (strela_buffer_free_all dev).buffer_free_list.size,
          )
          ∷ [])
unfolding strela_dev_ok free_list_free_all
buffer_free_all-Fitted dev f =
    subst
      (λ d.
        Fitted d
        × IsFreeList d.mem d.buffer_free_list
            ((d.buffer_free_list.area, d.buffer_free_list.size) ∷ []))
      (sym (buffer_free_all-fit dev f.fit))
      (
        record {
          fit = f.fit;
          sized = f.sized;
          length = f.length;
          chunk = f.chunk;
          not_null = f.not_null;
          aligned = f.aligned;
          room = f.room;
          ends = f.ends;
          apart = f.apart;
        },
        free_list_free_all-IsFreeList dev.mem dev.buffer_free_list f.not_null f.aligned f.room
            f.ends,
      )

-- Freeing all buffers and all kernels of such a device leaves every chunk and every byte free.
pub free_all-AllFree :
    (dev : Device) → Fitted dev → AllFree (strela_kernel_free_all (strela_buffer_free_all dev))
free_all-AllFree dev f =
    let b = buffer_free_all-Fitted dev f in
    kernel_free_all-AllFree (strela_buffer_free_all dev) b.0 b.1

-- It leaves the pool and the area where they are.
pub free_all-same_places :
    (dev : Device)
    → Fitted dev
    → let d = strela_kernel_free_all (strela_buffer_free_all dev) in
      (d.kernel_pool.buf ≡ dev.kernel_pool.buf)
      × (d.buffer_free_list.area ≡ dev.buffer_free_list.area)
      × (d.buffer_free_list.size ≡ dev.buffer_free_list.size)
unfolding free_list_free_all
free_all-same_places dev f =
    let b = (buffer_free_all-Fitted dev f).0 in
    let d = strela_buffer_free_all dev in
    let buffers = buffer_free_all-fit dev f.fit in
    let kernels = kernel_free_all-fit d b.fit in
    (
      ap (λ d. d.kernel_pool.buf) kernels
          ∙ (pool_free_all-IsPool d.mem d.kernel_pool b.sized).1
          ∙ ap (λ d. d.kernel_pool.buf) buffers,
      ap (λ d. d.buffer_free_list.area) kernels ∙ ap (λ d. d.buffer_free_list.area) buffers,
      ap (λ d. d.buffer_free_list.size) kernels ∙ ap (λ d. d.buffer_free_list.size) buffers,
    )
