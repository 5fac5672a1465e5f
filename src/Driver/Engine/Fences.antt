-- ===== src/Driver/Engine/Fences.antt =====
-- The end of a phase (driver/strela_job.c, `strela_job_phase_done`), and what starting, stopping
-- and programming the hardware leave alone.
use strela_pynq.Base.{
  ℕ, ◌+◌, ◌≡◌, ◌≢◌, refl, ◌∙◌, Bool, true, false, inl, inr, Bool-cases, if◌then◌else◌, ◌↔◌, List,
  [], ◌∷◌, Option, none, some, arith,
}
use strela_pynq.Driver.Engine.{
  Phase, config, exec, Bound, Column, Job, Engine, strela_hw_write_binding, program_columns,
  program_real, end_phase, reg_conf_addr, same_phase, finish_phase, strela_hw_start,
  strela_hw_program, strela_hw_stop, strela_job_phase_done,
}

-- What no start, stop or programming of the hardware changes.
pub record SameJobs (e f : Engine) : Type 0 where
  pub active : f.active ≡ e.active
  pub signalled : f.signalled ≡ e.signalled
  pub irq_status : f.irq_status ≡ e.irq_status

pub SameJobs-trans : {e f g : Engine} → SameJobs e f → SameJobs f g → SameJobs e g
SameJobs-trans p q = record {
  active = q.active ∙ p.active;
  signalled = q.signalled ∙ p.signalled;
  irq_status = q.irq_status ∙ p.irq_status;
}

pub hw_start-SameJobs : (e : Engine) (p : Phase) → SameJobs e (strela_hw_start e p)
unfolding strela_hw_start
hw_start-SameJobs e p = ground arith

pub hw_stop-SameJobs : (e : Engine) → SameJobs e (strela_hw_stop e)
unfolding strela_hw_stop
hw_stop-SameJobs e = ground arith

write_binding-SameJobs :
    (e : Engine) (b : Bound) (r s : ℕ) → SameJobs e (strela_hw_write_binding e b r s)
unfolding strela_hw_write_binding
write_binding-SameJobs e b r s = record { active = refl; signalled = refl; irq_status = refl }

program_columns-SameJobs :
    (cs : List Column) (e : Engine) (i : ℕ) → SameJobs e (program_columns e cs i)
unfolding program_columns
program_columns-SameJobs [] e i = record { active = refl; signalled = refl; irq_status = refl }
program_columns-SameJobs (c ∷ cs) e i =
    SameJobs-trans
      (SameJobs-trans (write_binding-SameJobs e c.input _ _)
        (write_binding-SameJobs _ c.output _ _))
      (program_columns-SameJobs cs _ (i + 1))

program_real-SameJobs : (e : Engine) (job : Job) → SameJobs e (program_real e job)
unfolding program_real
program_real-SameJobs e job =
    let p =
      SameJobs-trans (write_binding-SameJobs e job.bitstream reg_conf_addr _)
        (program_columns-SameJobs job.columns _ 0) in
    record { active = p.active; signalled = p.signalled; irq_status = p.irq_status }

pub hw_program-SameJobs : (e : Engine) (job : Job) → SameJobs e (strela_hw_program e job)
unfolding strela_hw_program
hw_program-SameJobs e job = either e.is_sim
  where
    either : (b : Bool) → SameJobs e (if b then e else program_real e job)
    either true = record { active = refl; signalled = refl; irq_status = refl }
    either false = program_real-SameJobs e job

-- What the end of a phase does.
pub data PhaseDone (e : Engine) (p : Phase) (f : Engine) : Type 0 where
  ignored : ((job : Job) → e.active ≡ some job → job.phase ≢ p) → f ≡ e → PhaseDone e p f
  started :
      (job : Job)
      → e.active ≡ some job
      → (job.phase ≡ config) × (p ≡ config)
      → f.active ≡ some (record job { phase = exec })
      → f.signalled ≡ e.signalled
      → PhaseDone e p f
  completed :
      (job : Job)
      → e.active ≡ some job
      → (job.phase ≡ exec) × (p ≡ exec)
      → f.active ≡ none
      → f.signalled ≡ job.fence ∷ e.signalled
      → PhaseDone e p f

finish_phase-PhaseDone :
    (e : Engine) (job : Job) (p : Phase)
    → e.active ≡ some job
    → job.phase ≡ p
    → PhaseDone e p (finish_phase e job p)
unfolding finish_phase
finish_phase-PhaseDone e job config at h =
    let s = hw_start-SameJobs (record e { active = some (record job { phase = exec }) }) exec in
    started job at (h, refl) s.active s.signalled
finish_phase-PhaseDone e job exec at h = completed job at (h, refl) refl refl

same_phase_lem : (p q : Phase) → (same_phase p q ≡ true) ↔ (p ≡ q)
same_phase_lem p q = ground arith

end_phase-PhaseDone :
    (e : Engine) (a : Option Job) (p : Phase) → e.active ≡ a → PhaseDone e p (end_phase e a p)
unfolding end_phase
end_phase-PhaseDone e none p at = ignored (λ job h. cc) refl
end_phase-PhaseDone e (some job) p at = elim (Bool-cases (same_phase job.phase p)) [
  | inl same ↦ rw same (finish_phase-PhaseDone e job p at ((same_phase_lem job.phase p).0 same))
  | inr other ↦ rw other (ignored (λ j h e. ground arith) refl)
]

-- A completion for no job, or for another phase than the active job's, changes nothing. The end
-- of the configuration starts the execution of the same job and signals nothing. The end of the
-- execution signals the fence of the active job and takes the job off the device.
pub strela_job_phase_done-PhaseDone :
    (e : Engine) (p : Phase) → PhaseDone e p (strela_job_phase_done e p)
unfolding strela_job_phase_done
strela_job_phase_done-PhaseDone e p = end_phase-PhaseDone e e.active p refl
