-- ===== src/Driver/Platform.antt =====
-- The life of a device of the driver and of a client of it (driver/strela_drv.c, `strela_open_file`
-- to `strela_remove`; driver/strela_core.c, `strela_hw_setup`; driver/strela_job.c,
-- `strela_job_init`). The kernel's answers are an argument; an error is `some` of its number. What
-- a function takes and gives back is recorded in order; what devm_* takes is the kernel's to give
-- back. `strela_job_fini` is here the end of the scheduler; Driver/Scheduler has what it does to
-- the jobs.
pub mod Settle
use strela_pynq.Base.{
  ℕ, ◌+◌, ◌==◌, Bool, true, false, not, List, [], ◌∷◌, Option, none, some, if◌then◌else◌, u32, Step,
  acquire, release, Answer, given, failed,
}
use strela_pynq.Driver.Engine.{Engine, idle, writel}

-- What a probe holds, and what an open file holds.
pub data Resource : Type 0 where
  scheduler accel_device : Resource
  entity file_memory : Resource

abbrev pub reg_opa : ℕ
reg_opa = 0xF0

abbrev pub reg_opb : ℕ
reg_opb = 0xF4

-- -EIO and -ENOMEM
abbrev pub eio : ℕ
eio = 5

abbrev pub enomem : ℕ
enomem = 12

-- What `strela_hw_setup` meets: the mapping of the registers, the random operands, what the result
-- register of the adder reads as once they are written, the interrupt and its handler.
pub record HwAnswers : Type 0 where
  pub map_error : Option ℕ
  pub a : ℕ
  pub b : ℕ
  pub adder : (opa opb : ℕ) → ℕ
  pub irq : Answer
  pub request_error : Option ℕ

setup_irq : HwAnswers → Answer → Option ℕ
setup_irq h (failed e) = some e
setup_irq h (given irq) = h.request_error

setup_mapped : HwAnswers → Engine → Option ℕ → Option ℕ × Engine
setup_mapped h e (some error) = (some error, e)
setup_mapped h e none =
    let e' = writel (writel e reg_opa h.a) reg_opb h.b in
    ((if h.adder h.a h.b == u32 (h.a + h.b) then setup_irq h h.irq else some eio), e')

unfoldable pub strela_hw_setup : HwAnswers → Engine → Option ℕ × Engine
unfolding setup_mapped setup_irq
strela_hw_setup h e = if e.is_sim then (none, e) else setup_mapped h e h.map_error

-- What `strela_probe` meets: whether the device has a node in the device tree, and the results of
-- devm_drm_dev_alloc, dma_set_mask_and_coherent, drm_sched_init and drm_dev_register.
pub record ProbeAnswers : Type 0 where
  pub dev_come_from_device_tree : Bool
  pub alloc_error : Option ℕ
  pub mask_error : Option ℕ
  pub hw : HwAnswers
  pub sched_error : Option ℕ
  pub register_error : Option ℕ

-- What the function returns, the device, and the steps.
pub record Probed : Type 0 where
  pub ret : Option ℕ
  pub engine : Engine
  pub steps : List (Step Resource)

abbrev pub stopped_at : ℕ → Engine → Probed
stopped_at error e = record { ret = some error; engine = e; steps = [] }

-- `strela_job_init`, by the answer of drm_sched_init.
unfoldable pub strela_job_init : Option ℕ → Option ℕ × List (Step Resource)
strela_job_init (some error) = (some error, [])
strela_job_init none = (none, acquire scheduler ∷ [])

-- `strela_probe` from drm_dev_register, strela_job_init, strela_hw_setup and the mask on, the last
-- first.
probe_register : Option ℕ → Engine → Probed
probe_register (some error) e = record {
  ret = some error;
  engine = e;
  steps = acquire scheduler ∷ release scheduler ∷ [];
}
probe_register none e = record {
  ret = none;
  engine = e;
  steps = acquire scheduler ∷ acquire accel_device ∷ [];
}

probe_job : ProbeAnswers → Engine → Option ℕ → Probed
probe_job p e (some error) = stopped_at error e
probe_job p e none = probe_register p.register_error e

probe_setup : ProbeAnswers → Option ℕ → Engine → Probed
unfolding strela_job_init
probe_setup p (some error) e = stopped_at error e
probe_setup p none e = probe_job p e (strela_job_init p.sched_error).0

probe_mask : ProbeAnswers → Option ℕ → Engine → Probed
probe_mask p (some error) e = stopped_at error e
probe_mask p none e = probe_setup p (strela_hw_setup p.hw e).0 (strela_hw_setup p.hw e).1

probe_alloc : ProbeAnswers → Option ℕ → Engine → Probed
probe_alloc p (some error) e = stopped_at error e
probe_alloc p none e = probe_mask p p.mask_error e

-- A simulated device has no node in the device tree.
unfoldable pub strela_probe : ProbeAnswers → Probed
unfolding probe_alloc probe_mask probe_setup probe_job probe_register
strela_probe p = probe_alloc p p.alloc_error (idle (not p.dev_come_from_device_tree))

-- drm_dev_unregister, then strela_job_fini.
unfoldable pub strela_remove : List (Step Resource)
strela_remove = release accel_device ∷ release scheduler ∷ []

open_entity : Option ℕ → Option ℕ × List (Step Resource)
open_entity (some error) = (some error, acquire file_memory ∷ release file_memory ∷ [])
open_entity none = (none, acquire file_memory ∷ acquire entity ∷ [])

-- Whether kzalloc finds memory, and the answer of drm_sched_entity_init.
unfoldable pub strela_open_file : Bool → Option ℕ → Option ℕ × List (Step Resource)
unfolding open_entity
strela_open_file has_memory entity_error =
    if has_memory then open_entity entity_error else (some enomem, [])

unfoldable pub strela_postclose : List (Step Resource)
strela_postclose = release entity ∷ release file_memory ∷ []
