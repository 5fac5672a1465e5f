-- ===== src/Driver/SimDevices/Settle.antt =====
-- What the module's start leaves registered (driver/strela_drv.c).
use strela_pynq.Base.{
  ℕ, zero, suc, ◌+◌, ltb, ◌<◌, ◌≤◌, ◌≡◌, ◌⊎◌, inl, inr, refl, ◌∙◌, subst, arith, Bool, true, false,
  Bool-cases, Option, none, some, if◌then◌else◌,
}
use strela_pynq.Driver.SimDevices.{
  max_sim_devs, SimPdev, null, err_ptr, pdev, SimModule, set_pdev, platform_device_unregister,
  platform_device_register, unregister_from, strela_sim_dev_unregister, register_one, register_from,
  strela_sim_dev_register, init_sims, init_platform_driver, strela_init, strela_exit,
}

-- The devices below `n` stand in the array, each in its place, and the bus has these.
pub record Sims (n : ℕ) (m : SimModule) : Type 0 where
  pub below : (j : ℕ) → j < n → (m.sim_pdevs j ≡ pdev j) × (m.live j ≡ true)
  pub above : (j : ℕ) → n ≤ j → (m.sim_pdevs j ≡ null) × (m.live j ≡ false)

-- The turns up to `i` are done: no slot from `i` on is another's.
record Cleared (i n : ℕ) (m : SimModule) : Type 0 where
  before : (j : ℕ) → j < i → (m.sim_pdevs j ≡ null) × (m.live j ≡ false)
  below : (j : ℕ) → i ≤ j → j < n → (m.sim_pdevs j ≡ pdev j) × (m.live j ≡ true)
  above : (j : ℕ) → n ≤ j → (m.sim_pdevs j ≡ null) × (m.live j ≡ false)

unregister_one-Cleared :
    (i n : ℕ) (m : SimModule) (p : SimPdev)
    → Cleared i n m
    → m.sim_pdevs i ≡ p
    → Cleared (i + 1) n (set_pdev i null (platform_device_unregister p m))
unfolding set_pdev platform_device_unregister
unregister_one-Cleared i n m null c at = record {
  before = λ j lt. ground (arith, c.before j, c.below j, c.above j, c.below i, c.above i, at);
  below = λ j le lt. ground (arith, c.below j, at);
  above = λ j le. ground (arith, c.above j, c.below i, at);
}
unregister_one-Cleared i n m (err_ptr error) c at = record {
  before = λ j lt. ground (arith, c.below i, c.above i, at);
  below = λ j le lt. ground (arith, c.below i, at);
  above = λ j le. ground (arith, c.below i, c.above i, at);
}
unregister_one-Cleared i n m (pdev id) c at = record {
  before = λ j lt. ground (arith, c.before j, c.below j, c.above j, c.below i, c.above i, at);
  below = λ j le lt. ground (arith, c.below j, c.below i, at);
  above = λ j le. ground (arith, c.above j, c.below i, c.above i, at);
}

unregister_from-Cleared :
    (left i n : ℕ) (m : SimModule) → Cleared i n m → Cleared (i + left) n (unregister_from left i m)
unfolding unregister_from
unregister_from-Cleared zero i n m c = subst (λ k. Cleared k n m) (omega arith) c
unregister_from-Cleared (suc left) i n m c =
    subst (λ k. Cleared k n (unregister_from (suc left) i m)) (omega arith)
      (unregister_from-Cleared left (i + 1) n _ (unregister_one-Cleared i n m _ c refl))

-- Whatever is in the array is unregistered.
unregister-Sims :
    (n : ℕ) (m : SimModule) → n ≤ max_sim_devs → Sims n m → Sims 0 (strela_sim_dev_unregister m)
unfolding strela_sim_dev_unregister
unregister-Sims n m fits s =
    let c =
      unregister_from-Cleared max_sim_devs 0 n m
        (record { before = λ j lt. elim lt [ ]; below = λ j le. s.below j; above = s.above }) in
    record { below = λ j lt. elim lt [ ]; above = λ j le. ground (arith, c.before j, c.above j) }

unregister_one-driver :
    (i : ℕ) (p : SimPdev) (m : SimModule)
    → (set_pdev i null (platform_device_unregister p m)).driver ≡ m.driver
unfolding set_pdev platform_device_unregister
unregister_one-driver i p m = ground arith

unregister_from-driver : (left i : ℕ) (m : SimModule) → (unregister_from left i m).driver ≡ m.driver
unfolding unregister_from
unregister_from-driver zero i m = refl
unregister_from-driver (suc left) i m =
    unregister_from-driver left (i + 1) _ ∙ unregister_one-driver i (m.sim_pdevs i) m

register_one-Sims :
    (i : ℕ) (m : SimModule)
    → Sims i m
    → Sims (i + 1) (set_pdev i (pdev i) (platform_device_register i none m).1)
unfolding set_pdev platform_device_register
register_one-Sims i m s = record {
  below = λ j lt. ground (arith, s.below j, s.above j);
  above = λ j le. ground (arith, s.below j, s.above j);
}

-- How many simulated devices are asked for.
abbrev pub asked : ℕ → ℕ
asked sim_dev_count = if ltb sim_dev_count max_sim_devs then sim_dev_count else max_sim_devs

-- What registering the devices from one on leaves: all that are asked for, or none, and the error.
data Registers (count : ℕ) (answers : ℕ → Option ℕ) (d : Bool) : Option ℕ × SimModule → Type 0 where
  all_of :
      {m : SimModule} → Sims (asked count) m → m.driver ≡ d → Registers count answers d (none, m)
  none_of :
      {e : ℕ} {m : SimModule} (j : ℕ)
      → j < asked count
      → answers j ≡ some e
      → Sims 0 m
      → m.driver ≡ d
      → Registers count answers d (some e, m)

failed_one-Sims :
    (i e : ℕ) (m : SimModule) → Sims i m → Sims i (set_pdev i null (set_pdev i (err_ptr e) m))
unfolding set_pdev
failed_one-Sims i e m s = record {
  below = λ j lt. ground (arith, s.below j);
  above = λ j le. ground (arith, s.above j);
}

module _ (count : ℕ) (answers : ℕ → Option ℕ) (d : Bool) where
  register_one-Registers :
      (i : ℕ) (answer : Option ℕ) (m : SimModule) (rest : SimModule → Option ℕ × SimModule)
      → i < asked count
      → answers i ≡ answer
      → Sims i m
      → m.driver ≡ d
      → ((m' : SimModule) → Sims (i + 1) m' → m'.driver ≡ d → Registers count answers d (rest m'))
      → Registers count answers d (register_one i (platform_device_register i answer m) rest)
  unfolding register_one platform_device_register strela_sim_dev_unregister set_pdev
  register_one-Registers i (some e) m rest lt at s dr next =
      none_of i lt at (unregister-Sims i _ (ground (arith, lt)) (failed_one-Sims i e m s))
        (unregister_from-driver max_sim_devs 0 _ ∙ dr)
  register_one-Registers i none m rest lt at s dr next = next _ (register_one-Sims i m s) dr

  register_from-Registers :
      (left i : ℕ) (m : SimModule)
      → i + left ≡ max_sim_devs
      → i ≤ asked count
      → Sims i m
      → m.driver ≡ d
      → Registers count answers d (register_from count answers left i m)
  unfolding register_from
  register_from-Registers zero i m full le s dr =
      all_of (subst (λ k. Sims k m) (ground (arith, le, full)) s) dr
  register_from-Registers (suc left) i m full le s dr = elim (Bool-cases (ltb i count)) [
    | inl more ↦ rw more (
        register_one-Registers i _ m _ (ground (arith, more, full)) refl s dr (λ m' s' dr'.
          register_from-Registers left (i + 1) m' (omega (arith, full)) (ground (arith, more, full))
            s' dr'))
    | inr end ↦ rw end (all_of (subst (λ k. Sims k m) (ground (arith, le, full, end)) s) dr)
  ]

-- The module is loaded with `n` simulated devices; nothing of it is registered.
pub record Loaded (n : ℕ) (m : SimModule) : Type 0 where
  pub driver : m.driver ≡ true
  pub sims : Sims n m

pub record Unloaded (m : SimModule) : Type 0 where
  pub driver : m.driver ≡ false
  pub sims : Sims 0 m

-- How the module's start ends.
pub data Loads (count : ℕ) (driver_error : Option ℕ) (answers : ℕ → Option ℕ)
    : Option ℕ × SimModule → Type 0 where
  loaded :
      {m : SimModule}
      → Loaded (asked count) m
      → Unloaded (strela_exit m)
      → Loads count driver_error answers (none, m)
  undone :
      {e : ℕ} {m : SimModule}
      → (driver_error ≡ some e) ⊎ ((j : ℕ) × (j < asked count) × (answers j ≡ some e))
      → Unloaded m
      → Loads count driver_error answers (some e, m)

exit-Unloaded : (n : ℕ) (m : SimModule) → n ≤ max_sim_devs → Sims n m → Unloaded (strela_exit m)
unfolding strela_exit
exit-Unloaded n m le s =
    let u = unregister-Sims n m le s in
    record { driver = refl; sims = record { below = u.below; above = u.above } }

init_sims-Loads :
    (count : ℕ) (driver_error : Option ℕ) (answers : ℕ → Option ℕ) {r : Option ℕ × SimModule}
    → Registers count answers true r
    → Loads count driver_error answers (init_sims r)
unfolding init_sims
init_sims-Loads count driver_error answers (all_of {m} s d) =
    loaded (record { driver = d; sims = s }) (exit-Unloaded (asked count) m (ground arith) s)
init_sims-Loads count driver_error answers (none_of j lt at s d) =
    undone (inr (j, lt, at))
      (record { driver = refl; sims = record { below = s.below; above = s.above } })

init_platform_driver-Loads :
    (count : ℕ) (answers : ℕ → Option ℕ) (driver_error : Option ℕ) (m : SimModule)
    → Unloaded m
    → Loads count driver_error answers (init_platform_driver count answers driver_error m)
unfolding init_platform_driver strela_sim_dev_register
init_platform_driver-Loads count answers (some e) m u = undone (inl refl) u
init_platform_driver-Loads count answers none m u = init_sims-Loads count none answers (
    register_from-Registers count answers true max_sim_devs 0 _ refl (ground arith)
      (record { below = u.sims.below; above = u.sims.above }) refl)

-- From a module of which nothing is registered, its start either succeeds, and the driver and as
-- many simulated devices as are asked for, at most four, are registered, each in its place, and
-- `strela_exit` unregisters them all; or it fails with the error of the driver's registration or of
-- one of these devices, and nothing stays registered.
pub strela_init-Loads :
    (count : ℕ) (driver_error : Option ℕ) (answers : ℕ → Option ℕ) (m : SimModule)
    → Unloaded m
    → Loads count driver_error answers (strela_init count driver_error answers m)
unfolding strela_init
strela_init-Loads count driver_error answers m u =
    init_platform_driver-Loads count answers driver_error m u
