-- ===== src/Context/Close.antt =====
-- Giving a device's mappings and its descriptor back (lib/strela.c, `strela_dev_deinit_internal`).
use strela_pynq.Base.{
  ℕ, ◌+◌, ◌%◌, ◌^◌, ◌≤◌, ◌<◌, ◌≡◌, ◌≢◌, ◌⊎◌, refl, arith, true, List, [], ◌∷◌, ◌++◌, some, returned,
  Step, release,
}
use strela_pynq.Memory.{Ptr, null}
use strela_pynq.Device.{done, fail, kernel_memory_size, tensor_memory_size}
use strela_pynq.Context.{
  map_failed, Held, descriptor, mapping, System, unmap, close_device, strela_dev_deinit_internal,
}

-- What the manuals say of the calls: an error's number is not 0; a mapping stands at a page, not at
-- NULL, in the addresses of a process, and apart from the others; and munmap of a mapping and close
-- of a descriptor do not fail.
pub record IsSystem (sys : System) : Type 0 where
  pub gem_new_errno : (n : ℕ) → sys.gem_new n ≢ fail 0
  pub mmap_errno : (l o : ℕ) → sys.mmap l o ≢ fail 0
  pub page : (l o p : ℕ) → sys.mmap l o ≡ done p → (0 < p) × (p % 4096 ≡ 0) × (p + l < 2 ^ 63)
  pub apart :
      (o u p q : ℕ)
      → sys.mmap kernel_memory_size o ≡ done p
      → sys.mmap tensor_memory_size u ≡ done q
      → (p + kernel_memory_size ≤ q) ⊎ (q + tensor_memory_size ≤ p)
  pub unmaps : (p l : ℕ) → sys.munmap p l ≡ true
  pub closes : (fd : ℕ) → sys.close fd ≡ true

-- An address that is no mapping's.
abbrev pub NotMapped : Ptr → Type 0
NotMapped p = (p ≡ null) ⊎ (p ≡ map_failed)

unmap-NotMapped : (sys : System) (p l : ℕ) → NotMapped p → unmap sys p l ≡ returned []
unfolding unmap
unmap-NotMapped sys p l h = ground (arith, h)

module _ (sys : System) (laws : IsSystem sys) where
  unmap-mapping :
      (p l : ℕ) → 0 < p → p < 2 ^ 63 → unmap sys p l ≡ returned (release (mapping p l) ∷ [])
  unfolding unmap
  unmap-mapping p l pos small = ground (arith, pos, small, laws.unmaps p l)

  close_device-release :
      (fd : ℕ) → close_device sys (some fd) ≡ returned (release (descriptor fd) ∷ [])
  unfolding close_device
  close_device-release fd = ground (arith, laws.closes fd)

  deinit-steps :
      (q m p l fd : ℕ) (tensors kernels : List (Step Held))
      → unmap sys q m ≡ returned tensors
      → unmap sys p l ≡ returned kernels
      → strela_dev_deinit_internal sys q m p l (some fd)
        ≡ returned (tensors ++ (kernels ++ (release (descriptor fd) ∷ [])))
  unfolding strela_dev_deinit_internal
  deinit-steps q m p l fd tensors kernels t k = simp (t, k, close_device-release fd) refl

  -- Without mappings, without the tensors' mapping, and with both.
  pub deinit-descriptor :
      (q m p l fd : ℕ)
      → NotMapped q
      → NotMapped p
      → strela_dev_deinit_internal sys q m p l (some fd) ≡ returned (release (descriptor fd) ∷ [])
  deinit-descriptor q m p l fd nq np =
      deinit-steps q m p l fd [] [] (unmap-NotMapped sys q m nq) (unmap-NotMapped sys p l np)

  pub deinit-kernels :
      (q m p l fd : ℕ)
      → NotMapped q
      → 0 < p
      → p < 2 ^ 63
      → strela_dev_deinit_internal sys q m p l (some fd)
        ≡ returned (release (mapping p l) ∷ release (descriptor fd) ∷ [])
  deinit-kernels q m p l fd nq pos small =
      deinit-steps q m p l fd [] _ (unmap-NotMapped sys q m nq) (unmap-mapping p l pos small)

  pub deinit-both :
      (q m p l fd : ℕ)
      → (0 < q) × (q < 2 ^ 63)
      → (0 < p) × (p < 2 ^ 63)
      → strela_dev_deinit_internal sys q m p l (some fd)
        ≡ returned (release (mapping q m) ∷ release (mapping p l) ∷ release (descriptor fd) ∷ [])
  deinit-both q m p l fd hq hp =
      deinit-steps q m p l fd _ _ (unmap-mapping q m hq.0 hq.1) (unmap-mapping p l hp.0 hp.1)
