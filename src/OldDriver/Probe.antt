-- ===== src/OldDriver/Probe.antt =====
-- The life of the first driver's device and module (driver/strela_driver.c, `strela_probe`,
-- `strela_remove`, `strela_driver_init`, `strela_driver_exit`). The kernel's answers are an
-- argument; a negative return is `some` of its error number. The result is what the function
-- returns, and what it takes and gives back, in order; what devm_* takes is the kernel's to give back.
pub mod Settle
use strela_pynq.Base.{
  ℕ, ◌+◌, ◌==◌, Bool, true, false, ◌&&◌, List, [], ◌∷◌, Option, none, some, if◌then◌else◌, u32,
  Step, acquire, release, Answer, given, failed,
}
use strela_pynq.OldDriver.{Error, enomem, eio, passed}

pub data Resource : Type 0 where
  dma_pages char_dev logical_dev : Resource
  minor_number : ℕ → Resource
  chrdev_region device_class platform_driver : Resource

pub record ProbeAnswers : Type 0 where
  pub allocated : Bool
  pub map_error : Option ℕ
  pub challenge1 : ℕ
  pub challenge2 : ℕ
  pub response : ℕ
  pub pages : Bool
  pub irq : Answer
  pub request_error : Option ℕ
  pub minor : Answer
  pub cdev_error : Option ℕ
  pub device_error : Option ℕ

abbrev pub CallResult : Type 0
CallResult = Option Error × List (Step Resource)

abbrev then_step : Step Resource → CallResult → CallResult
then_step s (r, trace) = (r, s ∷ trace)

-- `strela_probe` from device_create, cdev_add, ida_alloc_max, devm_request_threaded_irq,
-- platform_get_irq, dma_alloc_pages, the challenge and the mapping on, the last first.
probe_device : ℕ → Option ℕ → CallResult
probe_device minor none = (none, acquire logical_dev ∷ [])
probe_device minor (some e) =
    (some (passed e), release char_dev ∷ release (minor_number minor) ∷ release dma_pages ∷ [])

probe_cdev : ℕ → Option ℕ → Option ℕ → CallResult
probe_cdev minor none device_error = then_step (acquire char_dev) (probe_device minor device_error)
probe_cdev minor (some e) device_error =
    (some (passed e), release (minor_number minor) ∷ release dma_pages ∷ [])

probe_minor : Answer → ProbeAnswers → CallResult
probe_minor (given minor) a =
    then_step (acquire (minor_number minor)) (probe_cdev minor a.cdev_error a.device_error)
probe_minor (failed e) a = (some (passed e), release dma_pages ∷ [])

probe_request : Option ℕ → ProbeAnswers → CallResult
probe_request none a = probe_minor a.minor a
probe_request (some e) a = (some (passed e), [])

probe_irq : Answer → ProbeAnswers → CallResult
probe_irq (given irq) a = probe_request a.request_error a
probe_irq (failed e) a = (some (passed e), [])

probe_pages : Bool → ProbeAnswers → CallResult
probe_pages false a = (some enomem, [])
probe_pages true a = then_step (acquire dma_pages) (probe_irq a.irq a)

probe_mapped : Option ℕ → ProbeAnswers → CallResult
probe_mapped none a =
    if a.response == u32 (a.challenge1 + a.challenge2)
    then probe_pages a.pages a
    else (some eio, [])
probe_mapped (some e) a = (some (passed e), [])

unfoldable pub strela_probe : ProbeAnswers → CallResult
unfolding probe_mapped probe_pages probe_irq probe_request probe_minor probe_cdev probe_device
strela_probe a = if a.allocated then probe_mapped a.map_error a else (some enomem, [])

unfoldable pub strela_remove : (minor : ℕ) → List (Step Resource)
strela_remove minor =
    release logical_dev ∷ release char_dev ∷ release (minor_number minor) ∷ release dma_pages ∷ []

init_driver : Option ℕ → CallResult
init_driver none = (none, acquire platform_driver ∷ [])
init_driver (some e) = (some (passed e), release device_class ∷ release chrdev_region ∷ [])

init_class : Option ℕ → Option ℕ → CallResult
init_class none driver_error = then_step (acquire device_class) (init_driver driver_error)
init_class (some e) driver_error = (some (passed e), release chrdev_region ∷ [])

init_region : Option ℕ → Option ℕ → Option ℕ → CallResult
init_region none class_error driver_error =
    then_step (acquire chrdev_region) (init_class class_error driver_error)
init_region (some e) class_error driver_error = (some (passed e), [])

-- The errors of alloc_chrdev_region, class_create and platform_driver_register.
unfoldable pub strela_driver_init : (region_error class_error driver_error : Option ℕ) → CallResult
unfolding init_region init_class init_driver
strela_driver_init region_error class_error driver_error =
    init_region region_error class_error driver_error

unfoldable pub strela_driver_exit : List (Step Resource)
strela_driver_exit = release platform_driver ∷ release device_class ∷ release chrdev_region ∷ []
