-- ===== src/Kernel/Handles.antt =====
-- A kernel's handle is the number of its chunk.
use strela_pynq.Base.{
  ℕ, ◌+◌, ◌*◌, ◌/◌, ◌<◌, ◌≡◌, ◌==◌, refl, ◌∙◌, true, false, List, ◌∷◌, arith, returned, ltb,
}
use strela_pynq.Memory.{null}
use strela_pynq.Pool.{pool_alloc}
use strela_pynq.Pool.Laws.{IsPool, Allocates, pool_alloc-Allocates}
use strela_pynq.Device.{Device, kernel_count, kernel_memory_size, strela_kernel_size, strela_dev_ok}
use strela_pynq.Kernel.{handle_of, strela_kernel_alloc}

-- A device whose pool is the one that `strela_dev_init` makes: 128 chunks of a bitstream each.
pub record HasKernels (dev : Device) (free : List ℕ) : Type 0 where
  pub fit : strela_dev_ok dev ≡ true
  pub pool : IsPool dev.mem dev.kernel_pool free
  pub length : dev.kernel_pool.buf_len ≡ kernel_memory_size
  pub chunk : dev.kernel_pool.chunk_size ≡ strela_kernel_size * 4

-- On a device fit for use, with that pool and a free chunk, `strela_kernel_alloc` passes its assertion and returns the number of that
-- chunk, below 128, as a valid handle; the device is fit for the next allocation, with the other
-- chunks free.
pub strela_kernel_alloc-HasKernels :
    (dev : Device) (i : ℕ) (is : List ℕ)
    → HasKernels dev (i ∷ is)
    → (dev' : Device) × (strela_kernel_alloc dev
        ≡ returned (dev', record { valid = true; handle = i }))
      × HasKernels dev' is
      × (i < 128)
unfolding strela_kernel_alloc strela_dev_ok
strela_kernel_alloc-HasKernels dev i is h = (
  dev',
  simp (h.fit, found, number, small),
  record {
    fit = h.fit;
    pool = a.pool;
    length = a.geometry.1 ∙ h.length;
    chunk = a.geometry.2 ∙ h.chunk;
  },
  below,
)
  where
    a : Allocates dev.mem dev.kernel_pool i is (pool_alloc dev.mem dev.kernel_pool)
    a = pool_alloc-Allocates dev.mem dev.kernel_pool i is h.pool

    dev' : Device
    dev' = record dev {
      mem = (pool_alloc dev.mem dev.kernel_pool).0;
      kernel_pool = (pool_alloc dev.mem dev.kernel_pool).1;
    }

    below : i < 128
    below = omega (
      arith,
      quotient dev.kernel_pool.buf_len dev.kernel_pool.chunk_size h.length h.chunk,
      a.number,
    )
      where
        quotient : (n c : ℕ) → n ≡ 40960 → c ≡ 320 → n / c ≡ 128
        quotient n c en ec = rw (en, ec) refl

    at : (pool_alloc dev.mem dev.kernel_pool).2 ≡ dev.kernel_pool.buf + i * 320
    at = rw (← h.chunk) a.gives

    found : ((pool_alloc dev.mem dev.kernel_pool).2 == null) ≡ false
    found = ground (arith, at, h.pool.sized.not_null)

    number :
        handle_of (pool_alloc dev.mem dev.kernel_pool).1 (pool_alloc dev.mem dev.kernel_pool).2 ≡ i
    number = omega (arith, at, a.geometry, below, h.pool.sized.fits, h.length)

    small : ltb i kernel_count ≡ true
    small = ground (arith, below)
