-- ===== src/Context/Open.antt =====
-- Opening a device, from the search to the second mapping (lib/strela.c, `strela_dev_init`).
use strela_pynq.Base.{
  ℕ, zero, suc, ◌≡◌, ◌⊎◌, inl, inr, refl, arith, List, [], ◌∷◌, ◌++◌, none, some, pos, returned,
  Step, acquire, release, Leaves, takes, gives,
}
use strela_pynq.Memory.{Ptr, null}
use strela_pynq.Device.{Reply, done, fail, err_ok, kernel_memory_size, tensor_memory_size}
use strela_pynq.Context.{
  map_failed, no_bo, Held, descriptor, mapping, NewBo, System, Opening, opening_at, found_device,
  gem_new_kernels, mmap_kernels, gem_new_tensors, mmap_tensors, if_ok, open_device, unmap,
  close_device, strela_dev_deinit_internal,
}
use strela_pynq.Context.Close.{IsSystem, deinit-descriptor, deinit-kernels}

-- The device is open: its mappings, and what is held, the latest first.
pub record Mapped (sys : System) (fd : ℕ) (o : Opening) : Type 0 where
  pub errnum : o.errnum ≡ err_ok
  pub kernels_bo : sys.gem_new kernel_memory_size ≡ done o.kernels
  pub tensors_bo : sys.gem_new tensor_memory_size ≡ done o.tensors
  pub kernels : sys.mmap kernel_memory_size o.kernels.offset ≡ done o.kernels_base
  pub tensors : sys.mmap tensor_memory_size o.tensors.offset ≡ done o.tensors_base
  pub steps : Leaves [] o.steps (
      mapping o.tensors_base tensor_memory_size
      ∷ mapping o.kernels_base kernel_memory_size
      ∷ descriptor fd
      ∷ [])

-- The call that fails, with its error's number: the first of the four that does.
pub data FailsWith (sys : System) (errno : ℕ) : Type 0 where
  no_kernels_bo : sys.gem_new kernel_memory_size ≡ fail errno → FailsWith sys errno
  no_kernels_map :
      (bo : NewBo)
      → sys.gem_new kernel_memory_size ≡ done bo
      → sys.mmap kernel_memory_size bo.offset ≡ fail errno
      → FailsWith sys errno
  no_tensors_bo :
      (bo : NewBo) (p : Ptr)
      → sys.gem_new kernel_memory_size ≡ done bo
      → sys.mmap kernel_memory_size bo.offset ≡ done p
      → sys.gem_new tensor_memory_size ≡ fail errno
      → FailsWith sys errno
  no_tensors_map :
      (bo bo' : NewBo) (p : Ptr)
      → sys.gem_new kernel_memory_size ≡ done bo
      → sys.mmap kernel_memory_size bo.offset ≡ done p
      → sys.gem_new tensor_memory_size ≡ done bo'
      → sys.mmap tensor_memory_size bo'.offset ≡ fail errno
      → FailsWith sys errno

-- It is not, with an error's number, and what was taken is given back.
pub record Refused (sys : System) (o : Opening) (errno : ℕ) : Type 0 where
  pub errnum : o.errnum ≡ pos (suc errno)
  pub given_back : List (Step Held)
  pub closes :
      strela_dev_deinit_internal sys o.tensors_base tensor_memory_size o.kernels_base
        kernel_memory_size o.fd
      ≡ returned given_back
  pub steps : Leaves [] (o.steps ++ given_back) []

-- The steps of `open_device` from the second mapping, the second buffer object and the first mapping
-- on.
abbrev from_mmap_tensors : System → Opening → Opening
from_mmap_tensors sys o =
    if_ok (λ o. mmap_tensors (sys.mmap tensor_memory_size o.tensors.offset) o) o

abbrev from_gem_new_tensors : System → Opening → Opening
from_gem_new_tensors sys o =
    from_mmap_tensors sys (if_ok (λ o. gem_new_tensors (sys.gem_new tensor_memory_size) o) o)

abbrev from_mmap_kernels : System → Opening → Opening
from_mmap_kernels sys o =
    from_gem_new_tensors sys
      (if_ok (λ o. mmap_kernels (sys.mmap kernel_memory_size o.kernels.offset) o) o)

-- The states between them.
abbrev with_descriptor : ℕ → NewBo → Opening
with_descriptor fd bo = record (opening_at err_ok (some fd) (acquire (descriptor fd) ∷ [])) {
  kernels = bo;
}

abbrev with_kernels : ℕ → NewBo → Ptr → NewBo → Opening
with_kernels fd bo p bo' = record (with_descriptor fd bo) {
  kernels_base = p;
  tensors = bo';
  steps = acquire (descriptor fd) ∷ acquire (mapping p kernel_memory_size) ∷ [];
}

-- How opening ends.
abbrev pub Opens : System → (fd : ℕ) → Opening → Type 0
Opens sys fd o = Mapped sys fd o ⊎ (e : ℕ) × Refused sys o e × FailsWith sys (suc e)

module _ (sys : System) (laws : IsSystem sys) (fd : ℕ) where
  Refused-early :
      (bo : NewBo) (p e : ℕ)
      → (p ≡ null) ⊎ (p ≡ map_failed)
      → Refused sys (record (with_descriptor fd bo) { kernels_base = p; errnum = pos (suc e) }) e
  Refused-early bo p e h = record {
    errnum = refl;
    given_back = release (descriptor fd) ∷ [];
    closes =
        deinit-descriptor sys laws null tensor_memory_size p kernel_memory_size fd (inl refl) h;
    steps = takes (gives Leaves.done);
  }

  Refused-late :
      (bo bo' : NewBo) (p q e : ℕ)
      → (q ≡ null) ⊎ (q ≡ map_failed)
      → sys.mmap kernel_memory_size bo.offset ≡ done p
      → Refused sys (record (with_kernels fd bo p bo') { tensors_base = q; errnum = pos (suc e) }) e
  Refused-late bo bo' p q e h at = record {
    errnum = refl;
    given_back = release (mapping p kernel_memory_size) ∷ release (descriptor fd) ∷ [];
    closes =
        deinit-kernels sys laws q tensor_memory_size p kernel_memory_size fd h
          (laws.page kernel_memory_size bo.offset p at).0
          (omega (arith, (laws.page kernel_memory_size bo.offset p at).2));
    steps = takes (takes (gives (gives Leaves.done)));
  }

  mmap_tensors-cases :
      (bo bo' : NewBo) (p : ℕ) (r : Reply Ptr)
      → sys.gem_new kernel_memory_size ≡ done bo
      → sys.mmap kernel_memory_size bo.offset ≡ done p
      → sys.gem_new tensor_memory_size ≡ done bo'
      → sys.mmap tensor_memory_size bo'.offset ≡ r
      → Opens sys fd (mmap_tensors r (with_kernels fd bo p bo'))
  mmap_tensors-cases bo bo' p (done q) new at new' at' = inl (record {
    errnum = refl;
    kernels_bo = new;
    tensors_bo = new';
    kernels = at;
    tensors = at';
    steps = takes (takes (takes Leaves.done));
  })
  mmap_tensors-cases bo bo' p (fail zero) new at new' at' = absurd (laws.mmap_errno _ _ at')
  mmap_tensors-cases bo bo' p (fail (suc e)) new at new' at' =
      inr (
        e,
        Refused-late bo bo' p map_failed e (inr refl) at,
        no_tensors_map bo bo' p new at new' at',
      )

  gem_new_tensors-cases :
      (bo : NewBo) (p : ℕ) (r : Reply NewBo)
      → sys.gem_new kernel_memory_size ≡ done bo
      → sys.mmap kernel_memory_size bo.offset ≡ done p
      → sys.gem_new tensor_memory_size ≡ r
      → Opens sys fd (from_mmap_tensors sys (gem_new_tensors r (with_kernels fd bo p no_bo)))
  unfolding if_ok
  gem_new_tensors-cases bo p (done bo') new at new' =
      mmap_tensors-cases bo bo' p (sys.mmap tensor_memory_size bo'.offset) new at new' refl
  gem_new_tensors-cases bo p (fail zero) new at new' = absurd (laws.gem_new_errno _ new')
  gem_new_tensors-cases bo p (fail (suc e)) new at new' =
      inr (e, Refused-late bo no_bo p null e (inl refl) at, no_tensors_bo bo p new at new')

  mmap_kernels-cases :
      (bo : NewBo) (r : Reply Ptr)
      → sys.gem_new kernel_memory_size ≡ done bo
      → sys.mmap kernel_memory_size bo.offset ≡ r
      → Opens sys fd (from_gem_new_tensors sys (mmap_kernels r (with_descriptor fd bo)))
  unfolding if_ok
  mmap_kernels-cases bo (done p) new at =
      gem_new_tensors-cases bo p (sys.gem_new tensor_memory_size) new at refl
  mmap_kernels-cases bo (fail zero) new at = absurd (laws.mmap_errno _ _ at)
  mmap_kernels-cases bo (fail (suc e)) new at =
      inr (e, Refused-early bo map_failed e (inr refl), no_kernels_map bo new at)

  gem_new_kernels-cases :
      (r : Reply NewBo)
      → sys.gem_new kernel_memory_size ≡ r
      → Opens sys fd (
          from_mmap_kernels sys
            (gem_new_kernels r (opening_at err_ok (some fd) (acquire (descriptor fd) ∷ []))))
  unfolding if_ok
  gem_new_kernels-cases (done bo) new =
      mmap_kernels-cases bo (sys.mmap kernel_memory_size bo.offset) new refl
  gem_new_kernels-cases (fail zero) new = absurd (laws.gem_new_errno _ new)
  gem_new_kernels-cases (fail (suc e)) new =
      inr (e, Refused-early no_bo null e (inl refl), no_kernels_bo new)

  -- The device is open, or a call fails and everything that was taken is given back when it is given
  -- up.
  pub open_device-cases : Opens sys fd (open_device sys (some fd))
  unfolding open_device found_device if_ok
  open_device-cases = gem_new_kernels-cases (sys.gem_new kernel_memory_size) refl

pub open_device-none : (sys : System) → Refused sys (open_device sys none) 18
unfolding open_device found_device if_ok strela_dev_deinit_internal unmap close_device
open_device-none sys = record { errnum = refl; given_back = []; closes = refl; steps = Leaves.done }
