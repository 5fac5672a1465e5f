-- ===== src/Context/Init.antt =====
-- How the start of a device context ends, and its end (lib/strela.c, `strela_dev_init`,
-- `strela_dev_deinit`).
use strela_pynq.Base.{
  ℕ, suc, ◌≤◌, ◌<◌, ◌≡◌, ◌⊎◌, Leaves-append, done, gives, inl, inr, refl, sym, subst, arith, false,
  List, [], ◌++◌, Option, none, some, pos, leb, length, get_elem?, Outcome, returned, ◌>>=◌,
  Returns, ends, Returns-bind_twice, Step, Leaves,
}
use strela_pynq.Device.{err_ok}
use strela_pynq.Discovery.{AccelIter, FdStep}
use strela_pynq.Discovery.Search.{devices, listing}
use strela_pynq.Discovery.Find.{Sought, absent, present, find_device-Sought}
use strela_pynq.Context.{
  enodev, Held, System, Context, Opening, open_device, give_up, finish_opening, reset_and_check,
  open_unless, reset_all, strela_dev_init, strela_dev_deinit, zeroed_device, device_max,
}
use strela_pynq.Context.Close.{IsSystem}
use strela_pynq.Context.Open.{Mapped, Refused, FailsWith, open_device-cases, open_device-none}
use strela_pynq.Context.Refill.{AllFree}
use strela_pynq.Context.Settle.{SetUp, set_up-SetUp, reset_all-AllFree, deinit-opened}

-- How `strela_dev_init` ends on a device that is not initialised.
pub data Inits (sys : System) (which : ℕ) (r : Context × List (Step Held)) : Type 0 where
  opened :
      (fd : ℕ) (o : Opening)
      → get_elem? (devices (listing sys.opendir)) which ≡ some fd
      → Mapped sys fd o
      → SetUp o fd r.0
      → AllFree r.0.dev
      → r.1 ≡ o.steps
      → Returns
          (λ c. (c.0.dev ≡ zeroed_device r.0.dev) × Leaves [] (r.1 ++ c.1) [])
          (strela_dev_deinit sys r.0)
      → Inits sys which r
  no_device :
      length (devices (listing sys.opendir)) ≤ which
      → r.0.dev.initialized ≡ false
      → r.0.dev.errnum ≡ pos enodev
      → Leaves [] r.1 []
      → Inits sys which r
  refused :
      (fd e : ℕ)
      → get_elem? (devices (listing sys.opendir)) which ≡ some fd
      → r.0.dev.initialized ≡ false
      → r.0.dev.errnum ≡ pos (suc e)
      → FailsWith sys (suc e)
      → Leaves [] r.1 []
      → Inits sys which r

-- What `strela_dev_init` does behind the search.
abbrev behind : System → Context → Option ℕ → Outcome (Context × List (Step Held))
behind sys ctx found = finish_opening sys (open_device sys found) ctx found >>= reset_and_check sys

module _ (sys : System) (ctx : Context) (fresh : ctx.dev.initialized ≡ false) where
  -- The device that is given up: only its error has changed.
  abbrev given_up : (errno : ℕ) → Context
  given_up errno = record ctx { dev = record ctx.dev { errnum = pos (suc errno) } }

  give_up-Refused :
      (o : Opening) (e : ℕ) (r : Refused sys o e)
      → give_up sys o ctx ≡ returned (given_up e, o.steps ++ r.given_back)
  unfolding give_up
  give_up-Refused o e r = simp (fresh, r.closes, r.errnum) refl

  finish-Refused :
      (o : Opening) (e : ℕ) (found : Option ℕ) (r : Refused sys o e)
      → finish_opening sys o ctx found ≡ returned (given_up e, o.steps ++ r.given_back)
  unfolding finish_opening
  finish-Refused o e none r = give_up-Refused o e r
  finish-Refused o e (some fd) r = simp (r.errnum) (give_up-Refused o e r)

  behind-Refused :
      (found : Option ℕ) (e : ℕ) (r : Refused sys (open_device sys found) e)
      → behind sys ctx found ≡ returned (given_up e, (open_device sys found).steps ++ r.given_back)
  unfolding reset_all reset_and_check
  behind-Refused found e r = simp (finish-Refused (open_device sys found) e found r, fresh) refl

  module _ (laws : IsSystem sys) (which fd : ℕ) where
    behind-Mapped :
        get_elem? (devices (listing sys.opendir)) which ≡ some fd
        → Mapped sys fd (open_device sys (some fd))
        → Returns (Inits sys which) (behind sys ctx (some fd))
    unfolding finish_opening reset_and_check
    behind-Mapped at m =
        let o = open_device sys (some fd) in
        let (ctx₁, set, s, f) = set_up-SetUp sys laws o fd m ctx.dev in
        let (ctx₂, reset, s₂, free) = reset_all-AllFree sys laws o fd m ctx₁ s f in
        let made : behind sys ctx (some fd) ≡ returned (ctx₂, o.steps) =
          simp (m.errnum, set, reset, s₂.initialized, s₂.errnum) refl in
        subst (Returns (Inits sys which)) (sym made) (
          ends (
            opened fd o at m s₂ free refl (
              subst
                (Returns (λ c. (c.0.dev ≡ zeroed_device ctx₂.dev) × Leaves [] (o.steps ++ c.1) []))
                (sym (deinit-opened sys laws o fd m ctx₂ s₂ free.kernels.fit))
                (ends (refl, Leaves-append m.steps (gives (gives (gives done))))))))

module _ (sys : System) (laws : IsSystem sys) (which : ℕ) (ctx : Context) where
  found-Inits :
      ctx.dev.initialized ≡ false
      → (found : Option ℕ)
      → (length (devices (listing sys.opendir)) ≤ which) × (found ≡ none)
        ⊎ (fd : ℕ) × (found ≡ some fd) × (get_elem? (devices (listing sys.opendir)) which ≡ some fd)
      → Returns (Inits sys which) (behind sys ctx found)
  found-Inits fresh found (inl (few, is)) =
      let none_found = open_device-none sys in
      rw is (
        subst (Returns (Inits sys which)) (sym (behind-Refused sys ctx fresh none 18 none_found))
          (ends (no_device few fresh refl none_found.steps)))
  found-Inits fresh found (inr (fd, is, at)) = rw is (elim (open_device-cases sys laws fd) [
    | inl m ↦ behind-Mapped sys ctx fresh laws which fd at m
    | inr (e, r, fails) ↦
        subst (Returns (Inits sys which)) (sym (behind-Refused sys ctx fresh (some fd) e r))
          (ends (refused fd e at fresh refl fails r.steps))
  ])

  sought-Inits :
      ctx.dev.initialized ≡ false
      → (r : AccelIter × Option ℕ × List FdStep) → Sought (devices (listing sys.opendir)) which [] r
      → Returns (Inits sys which) (behind sys ctx r.1)
  sought-Inits fresh r (absent steps closed none_found few is balanced) =
      found-Inits fresh r.1 (inl (few, none_found))
  sought-Inits fresh r (present fd steps closed found at is balanced) =
      found-Inits fresh r.1 (inr (fd, found, at))

-- On a device that is not initialised, with a number below 8, `strela_dev_init` returns, in one of
-- three ways. The device of that number in the listing is opened: the buffer objects and the mappings
-- at their offsets are those that the system answers with, the device is initialised and has no
-- error, its pool stands at the kernels' mapping and its free list is the tensors' mapping, all 128
-- chunks of the one and every byte of the other are free, its job slots are zeroed, what is held is
-- the two mappings and the descriptor, and `strela_dev_deinit` gives those back and zeroes the device.
-- Or the listing has no such device: the error is ENODEV and nothing is held. Or one of the calls for
-- the two buffer objects and their mappings fails, those before it having succeeded: the device has
-- the number of that call's error, is not initialised, and what was taken is given back, the latest
-- first. The system is one whose errors are not 0, whose mappings stand at pages apart from each
-- other, and whose munmap and close do not fail.
pub strela_dev_init-Inits :
    (sys : System) (which : ℕ) (ctx : Context)
    → IsSystem sys
    → which < device_max
    → ctx.dev.initialized ≡ false
    → Returns (Inits sys which) (strela_dev_init sys which ctx)
unfolding strela_dev_init open_unless
strela_dev_init-Inits sys which ctx laws small fresh =
    let ctx₀ : Context = record ctx { dev = record ctx.dev { errnum = err_ok } } in
    let below : leb device_max which ≡ false = ground (arith, small) in
    simp (below) (
      subst (λ b. Returns (Inits sys which) (open_unless b sys which ctx₀ >>= reset_and_check sys))
        (sym fresh)
        (Returns-bind_twice _ _ (find_device-Sought sys.opendir which)
          (sought-Inits sys laws which ctx₀ fresh)))
