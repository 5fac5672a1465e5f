-- ===== src/Driver/SimDevices.antt =====
-- The module's start and end, with its simulated devices (driver/strela_drv.c,
-- `strela_sim_dev_unregister` to `strela_exit`). What the platform bus answers is an argument, an
-- error being `some` of its number. `live` tells which simulated devices the bus has.
pub mod Settle
use strela_pynq.Base.{
  ℕ, zero, suc, ◌+◌, ◌==◌, ltb, Bool, true, false, Option, none, some, if◌then◌else◌,
}

-- STRELA_MAX_SIM_DEVS
abbrev pub max_sim_devs : ℕ
max_sim_devs = 4

-- An element of `strela_sim_pdevs`: NULL, an error pointer, or the device with the number.
pub data SimPdev : Type 0 where
  null : SimPdev
  err_ptr : (error : ℕ) → SimPdev
  pdev : (id : ℕ) → SimPdev

pub record SimModule : Type 0 where
  pub driver : Bool
  pub sim_pdevs : ℕ → SimPdev
  pub live : ℕ → Bool

unfoldable pub set_pdev : ℕ → SimPdev → SimModule → SimModule
set_pdev i p m = record m { sim_pdevs = λ j. if j == i then p else m.sim_pdevs j }

-- platform_device_unregister: nothing for NULL and for an error pointer.
unfoldable pub platform_device_unregister : SimPdev → SimModule → SimModule
platform_device_unregister null m = m
platform_device_unregister (err_ptr error) m = m
platform_device_unregister (pdev id) m = record m {
  live = λ j. if j == id then false else m.live j;
}

-- platform_device_register_simple, by the bus's answer.
unfoldable pub platform_device_register : ℕ → Option ℕ → SimModule → SimPdev × SimModule
platform_device_register id (some error) m = (err_ptr error, m)
platform_device_register id none m =
    (pdev id, record m { live = λ j. if j == id then true else m.live j })

-- The turns from `i` on, `left` of them.
unfoldable pub unregister_from : (left i : ℕ) → SimModule → SimModule
unregister_from zero i m = m
unregister_from (suc left) i m =
    unregister_from left (i + 1) (set_pdev i null (platform_device_unregister (m.sim_pdevs i) m))

unfoldable pub strela_sim_dev_unregister : SimModule → SimModule
strela_sim_dev_unregister m = unregister_from max_sim_devs 0 m

-- The body of the loop of `strela_sim_dev_register`, and the turns behind it.
unfoldable pub register_one :
    ℕ → SimPdev × SimModule → (SimModule → Option ℕ × SimModule) → Option ℕ × SimModule
register_one i (null, m) rest = rest (set_pdev i null m)
register_one i (err_ptr error, m) rest =
    (some error, strela_sim_dev_unregister (set_pdev i null (set_pdev i (err_ptr error) m)))
register_one i (pdev id, m) rest = rest (set_pdev i (pdev id) m)

-- `left` bounds the turns by the size of the array.
unfoldable pub register_from :
    (sim_dev_count : ℕ) → (ℕ → Option ℕ) → (left i : ℕ) → SimModule → Option ℕ × SimModule
register_from sim_dev_count answers zero i m = (none, m)
register_from sim_dev_count answers (suc left) i m =
    if ltb i sim_dev_count
    then register_one i (platform_device_register i (answers i) m)
        (register_from sim_dev_count answers left (i + 1))
    else (none, m)

unfoldable pub strela_sim_dev_register :
    (sim_dev_count : ℕ) → (ℕ → Option ℕ) → SimModule → Option ℕ × SimModule
strela_sim_dev_register sim_dev_count answers m =
    register_from sim_dev_count answers max_sim_devs 0 m

init_sims : Option ℕ × SimModule → Option ℕ × SimModule
init_sims (some error, m) = (some error, record m { driver = false })
init_sims (none, m) = (none, m)

init_platform_driver : ℕ → (ℕ → Option ℕ) → Option ℕ → SimModule → Option ℕ × SimModule
init_platform_driver sim_dev_count answers (some error) m = (some error, m)
init_platform_driver sim_dev_count answers none m =
    init_sims (strela_sim_dev_register sim_dev_count answers (record m { driver = true }))

-- By the answer of platform_driver_register, and the answers for each simulated device.
unfoldable pub strela_init :
    (sim_dev_count : ℕ)
    → (driver_error : Option ℕ) → (ℕ → Option ℕ)
    → SimModule
    → Option ℕ × SimModule
unfolding init_platform_driver init_sims
strela_init sim_dev_count driver_error answers m =
    init_platform_driver sim_dev_count answers driver_error m

unfoldable pub strela_exit : SimModule → SimModule
strela_exit m = record (strela_sim_dev_unregister m) { driver = false }
