-- ===== src/Context/Settle.antt =====
-- What the start and the end of a device context leave (lib/strela.c).
use strela_pynq.Base.{
  ℕ, ◌+◌, ◌*◌, ◌%◌, ◌^◌, ◌≤◌, ◌<◌, ◌≡◌, ◌⊎◌, refl, ◌∙◌, arith, true, [], ◌∷◌, returned, release,
}
use strela_pynq.Memory.{Mem}
use strela_pynq.Pool.{Pool, pool_init}
use strela_pynq.Pool.Laws.{IsSized}
use strela_pynq.Pool.Init.{pool_init-Initial}
use strela_pynq.FreeList.{FreeList, free_list_init}
use strela_pynq.FreeList.State.{free_list_init-IsFreeList}
use strela_pynq.Device.{
  Device, err_ok, strela_dev_ok, strela_kernel_size, kernel_memory_size, tensor_memory_size,
  jobs_max,
}
use strela_pynq.Job.{zeroed_slots}
use strela_pynq.Job.FreeAll.{job_free_all-zeroed}
use strela_pynq.Buffer.{strela_buffer_free_all}
use strela_pynq.Kernel.{strela_kernel_free_all}
use strela_pynq.Context.{
  descriptor, mapping, System, Context, Opening, set_fields, set_up, reset_all, strela_dev_deinit,
  close_context, zeroed_device,
}
use strela_pynq.Context.Close.{IsSystem, deinit-both}
use strela_pynq.Context.Open.{Mapped}
use strela_pynq.Context.Refill.{Fitted, AllFree, free_all-AllFree, free_all-same_places}

-- A device that is set up as `o` says, with its pool and its free list in the mappings, all of whose
-- slots are zeroed.
pub record SetUp (o : Opening) (number : ℕ) (ctx : Context) : Type 0 where
  pub fd : ctx.fd ≡ number
  pub initialized : ctx.dev.initialized ≡ true
  pub errnum : ctx.dev.errnum ≡ err_ok
  pub jobs : ctx.dev.jobs ≡ zeroed_slots jobs_max
  pub tensors_map : ctx.dev.tensors_bo_map ≡ o.tensors_base
  pub kernels_map : ctx.dev.kernels_bo_map ≡ o.kernels_base
  pub tensors_handle : ctx.dev.tensors_bo_handle ≡ o.tensors.handle
  pub kernels_handle : ctx.dev.kernels_bo_handle ≡ o.kernels.handle
  pub pool : ctx.dev.kernel_pool.buf ≡ o.kernels_base
  pub area : ctx.dev.buffer_free_list.area ≡ o.tensors_base
  pub size : ctx.dev.buffer_free_list.size ≡ tensor_memory_size

pool-Initial :
    (m : Mem) (p : ℕ)
    → (0 < p) × (p % 4096 ≡ 0) × (p + kernel_memory_size < 2 ^ 63)
    → (r : Mem × Pool) × (pool_init m p kernel_memory_size (4 * strela_kernel_size) 4 ≡ returned r)
      × IsSized r.1
      × (r.1.buf ≡ p)
      × (r.1.buf_len ≡ kernel_memory_size)
      × (r.1.chunk_size ≡ strela_kernel_size * 4)
pool-Initial m p (above, page, small) =
    let (r, is, i) = pool_init-Initial m p kernel_memory_size (4 * strela_kernel_size) 4 (record {
      power = (2, refl);
      not_null = above;
      ends = omega arith;
      node = omega arith;
      room = omega arith;
    }) in
    let start : r.1.buf ≡ p = omega (arith, i.start, page) in
    (r, is, i.pool.sized, start, omega (arith, start, i.end), omega (arith, i.size))

area-Initial :
    (m : Mem) (fl : FreeList) (q : ℕ)
    → (0 < q) × (q % 4096 ≡ 0) × (q + tensor_memory_size < 2 ^ 63)
    → (m' : Mem) × (fl' : FreeList) × (free_list_init m fl q tensor_memory_size
        ≡ returned (m', fl'))
      × (fl'.area ≡ q)
      × (fl'.size ≡ tensor_memory_size)
area-Initial m fl q (above, page, small) =
    let (m', fl', is, v, start, end) =
      free_list_init-IsFreeList m fl q tensor_memory_size above (omega arith) small in
    let at : fl'.area ≡ q = omega (arith, start, page) in (m', fl', is, at, omega (arith, at, end))

module _ (sys : System) (laws : IsSystem sys) (o : Opening) (fd : ℕ) (m : Mapped sys fd o) where
  kernels_page :
      (0 < o.kernels_base)
      × (o.kernels_base % 4096 ≡ 0)
      × (o.kernels_base + kernel_memory_size < 2 ^ 63)
  kernels_page = laws.page kernel_memory_size o.kernels.offset o.kernels_base m.kernels

  tensors_page :
      (0 < o.tensors_base)
      × (o.tensors_base % 4096 ≡ 0)
      × (o.tensors_base + tensor_memory_size < 2 ^ 63)
  tensors_page = laws.page tensor_memory_size o.tensors.offset o.tensors_base m.tensors

  bases_apart :
      (o.kernels_base + kernel_memory_size ≤ o.tensors_base)
      ⊎ (o.tensors_base + tensor_memory_size ≤ o.kernels_base)
  bases_apart =
      laws.apart o.kernels.offset o.tensors.offset o.kernels_base o.tensors_base m.kernels m.tensors

  pub set_up-SetUp :
      (dev : Device)
      → (ctx : Context) × (set_up o fd dev ≡ returned ctx) × SetUp o fd ctx × Fitted ctx.dev
  unfolding set_up strela_dev_ok
  set_up-SetUp dev =
      let (r, is, sized, buf, length, chunk) = pool-Initial dev.mem o.kernels_base kernels_page in
      let (mem, fl, is', at, size) =
        area-Initial r.0 dev.buffer_free_list o.tensors_base tensors_page in
      (
        set_fields o fd dev mem r.1 fl,
        simp (is, is') refl,
        record {
          fd = refl;
          initialized = refl;
          errnum = m.errnum;
          jobs = refl;
          tensors_map = refl;
          kernels_map = refl;
          tensors_handle = refl;
          kernels_handle = refl;
          pool = buf;
          area = at;
          size = size;
        },
        record {
          fit = simp (m.errnum) refl;
          sized = sized;
          length = length;
          chunk = chunk;
          not_null = omega (arith, at, tensors_page);
          aligned = omega (arith, at, tensors_page);
          room = omega (arith, size);
          ends = omega (arith, at, size, tensors_page);
          apart = omega (arith, at, size, buf, length, bases_apart);
        },
      )

  free_all-SetUp :
      (ctx : Context)
      → SetUp o fd ctx
      → Fitted ctx.dev
      → SetUp o fd (record ctx { dev = strela_kernel_free_all (strela_buffer_free_all ctx.dev) })
  unfolding strela_kernel_free_all strela_buffer_free_all
  free_all-SetUp ctx s f =
      let same = free_all-same_places ctx.dev f in
      record {
        fd = s.fd;
        initialized = ground (arith, s.initialized);
        errnum = ground (arith, s.errnum);
        jobs = ground (arith, s.jobs);
        tensors_map = ground (arith, s.tensors_map);
        kernels_map = ground (arith, s.kernels_map);
        tensors_handle = ground (arith, s.tensors_handle);
        kernels_handle = ground (arith, s.kernels_handle);
        pool = same.0 ∙ s.pool;
        area = same.1 ∙ s.area;
        size = same.2 ∙ s.size;
      }

  pub reset_all-AllFree :
      (ctx : Context)
      → SetUp o fd ctx
      → Fitted ctx.dev
      → (ctx' : Context) × (reset_all sys ctx ≡ returned ctx') × SetUp o fd ctx' × AllFree ctx'.dev
  unfolding reset_all
  reset_all-AllFree ctx s f = (
    record ctx { dev = strela_kernel_free_all (strela_buffer_free_all ctx.dev) },
    simp
        (
          s.initialized,
          s.errnum,
          job_free_all-zeroed ctx.dev sys.job_release f.fit s.initialized s.jobs,
        )
        refl,
    free_all-SetUp ctx s f,
    free_all-AllFree ctx.dev f,
  )

  -- What the end of a device that is set up gives back.
  pub deinit-opened :
      (ctx : Context)
      → SetUp o fd ctx
      → strela_dev_ok ctx.dev ≡ true
      → strela_dev_deinit sys ctx
        ≡ returned (
          record { fd = 0; dev = zeroed_device ctx.dev },
          release (mapping o.tensors_base tensor_memory_size)
              ∷ release (mapping o.kernels_base kernel_memory_size)
              ∷ release (descriptor fd)
              ∷ [],
        )
  unfolding strela_dev_deinit close_context
  deinit-opened ctx s ok =
      simp
        (
          s.initialized,
          job_free_all-zeroed ctx.dev sys.job_release ok s.initialized s.jobs,
          s.fd,
          s.tensors_map,
          s.kernels_map,
          deinit-both sys laws o.tensors_base tensor_memory_size o.kernels_base kernel_memory_size
              fd (tensors_page.0, omega (arith, tensors_page))
              (kernels_page.0, omega (arith, kernels_page)),
        )
        refl
