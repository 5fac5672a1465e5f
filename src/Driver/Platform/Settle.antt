-- ===== src/Driver/Platform/Settle.antt =====
-- What a probe and an open leave held, and which error they give (driver/strela_drv.c).
use strela_pynq.Base.{
  ℕ, ◌+◌, ◌==◌, ◌≡◌, refl, sym, ◌∙◌, arith, Bool, true, false, not, List, [], ◌∷◌, ◌++◌, Option,
  none, some, if◌then◌else◌, u32, Step, Answer, given, failed, Leaves, done, takes, gives,
  first_error,
}
use strela_pynq.Driver.Engine.{Engine, idle}
use strela_pynq.Driver.Engine.Fences.{SameJobs}
use strela_pynq.Driver.Platform.{
  Resource, scheduler, accel_device, entity, file_memory, eio, HwAnswers, ProbeAnswers, Probed,
  stopped_at, strela_hw_setup, setup_mapped, setup_irq, strela_job_init, strela_probe, probe_alloc,
  probe_mask, probe_setup, probe_job, probe_register, strela_remove, strela_open_file, open_entity,
  strela_postclose,
}

-- The result of the adder's challenge, and of the interrupt's number.
abbrev pub challenge : HwAnswers → Option ℕ
challenge h = if h.adder h.a h.b == u32 (h.a + h.b) then none else some eio

abbrev pub irq_error : Answer → Option ℕ
irq_error (given irq) = none
irq_error (failed e) = some e

-- The results that decide a probe, in order. A simulated device has no hardware to set up.
abbrev pub hw_results : Bool → HwAnswers → List (Option ℕ)
hw_results is_sim h =
    if is_sim then [] else h.map_error ∷ challenge h ∷ irq_error h.irq ∷ h.request_error ∷ []

abbrev pub probe_results : ProbeAnswers → List (Option ℕ)
probe_results p =
    p.alloc_error
    ∷ p.mask_error
    ∷ (hw_results (not p.dev_come_from_device_tree) p.hw ++ (p.sched_error ∷ p.register_error ∷ []))

pub data Holds : Option ℕ → List (Step Resource) → Type 0 where
  probed :
      {steps : List (Step Resource)}
      → Leaves [] steps (accel_device ∷ scheduler ∷ [])
      → Leaves [] (steps ++ strela_remove) []
      → Holds none steps
  undone : {e : ℕ} {steps : List (Step Resource)} → Leaves [] steps [] → Holds (some e) steps

-- A probe of a device, simulated or not, that the results decide.
pub record Ends (sim : Bool) (results : List (Option ℕ)) (p : Probed) : Type 0 where
  pub ret : p.ret ≡ first_error results
  pub held : Holds p.ret p.steps
  pub engine : SameJobs (idle sim) p.engine
  pub is_sim : p.engine.is_sim ≡ sim

setup-first_error :
    (h : HwAnswers) (e : Engine) (rest : List (Option ℕ))
    → first_error (hw_results e.is_sim h ++ rest) ≡ first_error ((strela_hw_setup h e).0 ∷ rest)
unfolding strela_hw_setup setup_mapped setup_irq
setup-first_error h e rest = ground arith

setup-SameJobs : (h : HwAnswers) (e : Engine) → SameJobs e (strela_hw_setup h e).1
unfolding strela_hw_setup setup_mapped
setup-SameJobs h e = ground arith

setup-is_sim : (h : HwAnswers) (e : Engine) → (strela_hw_setup h e).1.is_sim ≡ e.is_sim
unfolding strela_hw_setup setup_mapped
setup-is_sim h e = ground arith

module _ (s : Bool) (e : Engine) (same : SameJobs (idle s) e) (sim : e.is_sim ≡ s) where
  stopped_at-Ends :
      (error : ℕ) (results : List (Option ℕ))
      → first_error results ≡ some error
      → Ends s results (stopped_at error e)
  stopped_at-Ends error results first = record {
    ret = sym first;
    held = undone done;
    engine = same;
    is_sim = sim;
  }

  register-Ends : (answer : Option ℕ) → Ends s (answer ∷ []) (probe_register answer e)
  unfolding probe_register strela_remove
  register-Ends (some error) = record {
    ret = refl;
    held = undone (takes (gives done));
    engine = same;
    is_sim = sim;
  }
  register-Ends none = record {
    ret = refl;
    held = probed (takes (takes done)) (takes (takes (gives (gives done))));
    engine = same;
    is_sim = sim;
  }

  job-Ends :
      (p : ProbeAnswers) (answer : Option ℕ)
      → Ends s (answer ∷ p.register_error ∷ []) (probe_job p e answer)
  unfolding probe_job
  job-Ends p (some error) = stopped_at-Ends error _ refl
  job-Ends p none =
      let r = register-Ends p.register_error in
      record { ret = r.ret; held = r.held; engine = r.engine; is_sim = r.is_sim }

  setup-Ends :
      (p : ProbeAnswers) (answer : Option ℕ)
      → Ends s (answer ∷ p.sched_error ∷ p.register_error ∷ []) (probe_setup p answer e)
  unfolding probe_setup strela_job_init
  setup-Ends p (some error) = stopped_at-Ends error _ refl
  setup-Ends p none =
      let r = job-Ends p (strela_job_init p.sched_error).0 in
      record { ret = ground (arith, r.ret); held = r.held; engine = r.engine; is_sim = r.is_sim }

mask-Ends :
    (p : ProbeAnswers) (s : Bool) (answer : Option ℕ)
    → Ends s
        (answer ∷ (hw_results s p.hw ++ (p.sched_error ∷ p.register_error ∷ [])))
        (probe_mask p answer (idle s))
unfolding probe_mask
mask-Ends p s (some error) =
    stopped_at-Ends s (idle s) (record { active = refl; signalled = refl; irq_status = refl }) refl
      error _ refl
mask-Ends p s none =
    let r =
      setup-Ends s (strela_hw_setup p.hw (idle s)).1 (setup-SameJobs p.hw (idle s))
        (setup-is_sim p.hw (idle s)) p (strela_hw_setup p.hw (idle s)).0 in
    record {
      ret = r.ret ∙ sym (setup-first_error p.hw (idle s) (p.sched_error ∷ p.register_error ∷ []));
      held = r.held;
      engine = r.engine;
      is_sim = r.is_sim;
    }

alloc-Ends :
    (p : ProbeAnswers) (s : Bool) (answer : Option ℕ)
    → Ends s
        (answer ∷ p.mask_error ∷ (hw_results s p.hw ++ (p.sched_error ∷ p.register_error ∷ [])))
        (probe_alloc p answer (idle s))
unfolding probe_alloc
alloc-Ends p s (some error) =
    stopped_at-Ends s (idle s) (record { active = refl; signalled = refl; irq_status = refl }) refl
      error _ refl
alloc-Ends p s none =
    let r = mask-Ends p s p.mask_error in
    record { ret = r.ret; held = r.held; engine = r.engine; is_sim = r.is_sim }

-- A probe returns the first error among the results that it meets, in order: the device's
-- allocation, the DMA mask, of a device in the device tree the mapping, the challenge of the adder,
-- the interrupt and its handler, then the scheduler and the registration. If it fails, nothing is
-- held; if not, the scheduler and the registered device are, which `strela_remove` gives back. The
-- device is simulated exactly if it has no node in the device tree, and has no job.
pub strela_probe-Ends :
    (p : ProbeAnswers) → Ends (not p.dev_come_from_device_tree) (probe_results p) (strela_probe p)
unfolding strela_probe
strela_probe-Ends p = alloc-Ends p (not p.dev_come_from_device_tree) p.alloc_error

-- An open file holds its memory and its scheduler entity, which `strela_postclose` gives back; an
-- open that fails holds nothing.
pub data Opens : Option ℕ → List (Step Resource) → Type 0 where
  opened :
      {steps : List (Step Resource)}
      → Leaves [] steps (entity ∷ file_memory ∷ [])
      → Leaves [] (steps ++ strela_postclose) []
      → Opens none steps
  refused : {e : ℕ} {steps : List (Step Resource)} → Leaves [] steps [] → Opens (some e) steps

open_entity-Opens : (answer : Option ℕ) → Opens (open_entity answer).0 (open_entity answer).1
unfolding open_entity strela_postclose
open_entity-Opens (some e) = refused (takes (gives done))
open_entity-Opens none = opened (takes (takes done)) (takes (takes (gives (gives done))))

pub strela_open_file-Opens :
    (has_memory : Bool) (answer : Option ℕ)
    → Opens (strela_open_file has_memory answer).0 (strela_open_file has_memory answer).1
unfolding strela_open_file
strela_open_file-Opens true answer = open_entity-Opens answer
strela_open_file-Opens false answer = refused done
