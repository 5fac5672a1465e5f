-- ===== src/Driver/Engine/Reach.antt =====
-- What holds of the device after any sequence of steps: the scheduler hands over a job while none
-- is on the device, as its one credit has it; interrupts come in with any status, expected or not;
-- the simulated device ends phases; and a timeout takes the job off.
use strela_pynq.Base.{
  ℕ, ◌≡◌, ◌≢◌, sym, subst, Bool, List, [], ◌∷◌, Option, none, some, NotIn, Distinct, bit_and, ◌==◌,
  not, if-either,
}
use strela_pynq.Driver.Engine.{
  Phase, config, exec, Job, Engine, idle, strela_job_phase_done, strela_run_job, strela_job_abort,
  strela_irq_handler, strela_irq_thread_fn, IrqReturn, cmd_pending_int_config, cmd_pending_int_exec,
}
use strela_pynq.Driver.Engine.Fences.{
  SameJobs, SameJobs-trans, hw_start-SameJobs, hw_stop-SameJobs, hw_program-SameJobs, PhaseDone,
  ignored, started, completed, strela_job_phase_done-PhaseDone,
}

-- `ran` holds the fences of the jobs handed over so far; each job has a fence of its own.
pub data Reach (is_sim : Bool) : List ℕ → Engine → Type 0 where
  boot : Reach is_sim [] (idle is_sim)
  run :
      {ran : List ℕ} {e : Engine} (job : Job)
      → Reach is_sim ran e
      → e.active ≡ none
      → NotIn job.fence ran
      → Reach is_sim (job.fence ∷ ran) (strela_run_job e job)
  interrupt :
      {ran : List ℕ} {e : Engine} (status : ℕ)
      → Reach is_sim ran e
      → Reach is_sim ran (strela_irq_handler e status).0
  thread :
      {ran : List ℕ} {e : Engine} → Reach is_sim ran e → Reach is_sim ran (strela_irq_thread_fn e).0
  simulate :
      {ran : List ℕ} {e : Engine} (p : Phase)
      → Reach is_sim ran e
      → Reach is_sim ran (strela_job_phase_done e p)
  abort : {ran : List ℕ} {e : Engine} → Reach is_sim ran e → Reach is_sim ran (strela_job_abort e)

-- Of the job on the device: its fence has been handed over, and is not signalled yet.
abbrev pub IsPending : List ℕ → List ℕ → Option Job → Type 0
IsPending ran signalled none = Unit {0}
IsPending ran signalled (some job) =
    NotIn job.fence signalled × ((n : ℕ) → NotIn n ran → n ≢ job.fence)

pub record Inv (ran : List ℕ) (e : Engine) : Type 0 where
  pub once : Distinct e.signalled
  pub handed_over : (n : ℕ) → NotIn n ran → NotIn n e.signalled
  pub pending : IsPending ran e.signalled e.active

SameJobs-Inv : (ran : List ℕ) (e f : Engine) → SameJobs e f → Inv ran e → Inv ran f
SameJobs-Inv ran e f s v = record {
  once = subst Distinct (sym s.signalled) v.once;
  handed_over = λ n out. subst (NotIn n) (sym s.signalled) (v.handed_over n out);
  pending = simp (s.signalled, s.active) v.pending;
}

PhaseDone-Inv : (ran : List ℕ) (e f : Engine) (p : Phase) → PhaseDone e p f → Inv ran e → Inv ran f
PhaseDone-Inv ran e f p (ignored other same) v = subst (Inv ran) (sym same) v
PhaseDone-Inv ran e f p (started job at ph now sig) v =
    let pend : IsPending ran e.signalled (some job) =
      subst (IsPending ran e.signalled) at v.pending in
    record {
      once = subst Distinct (sym sig) v.once;
      handed_over = λ n out. subst (NotIn n) (sym sig) (v.handed_over n out);
      pending = simp (sig, now) pend;
    }
PhaseDone-Inv ran e f p (completed job at ph now sig) v =
    let pend : IsPending ran e.signalled (some job) =
      subst (IsPending ran e.signalled) at v.pending in
    record {
      once = subst Distinct (sym sig) (pend.0, v.once);
      handed_over = λ n out. subst (NotIn n) (sym sig) (pend.1 n out, v.handed_over n out);
      pending = simp (now) tt;
    }

run-Inv :
    (ran : List ℕ) (e : Engine) (job : Job)
    → NotIn job.fence ran
    → Inv ran e
    → Inv (job.fence ∷ ran) (strela_run_job e job)
unfolding strela_run_job
run-Inv ran e job fresh v =
    let job' = record job { phase = config } in
    let loaded = record e { active = some job' } in
    SameJobs-Inv (job.fence ∷ ran) loaded _
      (SameJobs-trans (hw_program-SameJobs loaded job') (hw_start-SameJobs _ config))
      (record {
        once = v.once;
        handed_over = λ n out. v.handed_over n out.1;
        pending = (v.handed_over job.fence fresh, λ n out. out.0);
      })

abort-Inv : (ran : List ℕ) (e : Engine) → Inv ran e → Inv ran (strela_job_abort e)
unfolding strela_job_abort
abort-Inv ran e v =
    SameJobs-Inv ran (record e { active = none }) _ (hw_stop-SameJobs _)
      (record { once = v.once; handed_over = v.handed_over; pending = tt })

interrupt-Inv :
    (ran : List ℕ) (e : Engine) (status : ℕ) → Inv ran e → Inv ran (strela_irq_handler e status).0
unfolding strela_irq_handler
interrupt-Inv ran e status v =
    if-either (λ (r : Engine × IrqReturn). Inv ran r.0)
      (not (bit_and status cmd_pending_int_config == 0)) _ _
      (record { once = v.once; handed_over = v.handed_over; pending = v.pending })
      (if-either (λ (r : Engine × IrqReturn). Inv ran r.0)
        (not (bit_and status cmd_pending_int_exec == 0)) _ _
        (record { once = v.once; handed_over = v.handed_over; pending = v.pending }) v)

thread-Inv : (ran : List ℕ) (e : Engine) → Inv ran e → Inv ran (strela_irq_thread_fn e).0
unfolding strela_irq_thread_fn
thread-Inv ran e v =
    if-either (λ (r : Engine × IrqReturn). Inv ran r.0)
      (not (bit_and e.irq_status cmd_pending_int_config == 0)) _ _ (ended config)
      (if-either (λ (r : Engine × IrqReturn). Inv ran r.0)
        (not (bit_and e.irq_status cmd_pending_int_exec == 0)) _ _ (ended exec) cleared)
  where
    e' : Engine
    e' = record e { irq_status = 0 }

    cleared : Inv ran e'
    cleared = record { once = v.once; handed_over = v.handed_over; pending = v.pending }

    ended : (p : Phase) → Inv ran (strela_job_phase_done e' p)
    ended p = PhaseDone-Inv ran e' _ p (strela_job_phase_done-PhaseDone e' p) cleared

-- However steps follow one another, the fences signalled so far are distinct, each belongs to a
-- job that was handed over, and the fence of the job on the device is not among them: no job is
-- reported finished twice, and none while it is still on the device.
pub Reach-Inv : (is_sim : Bool) {ran : List ℕ} {e : Engine} → Reach is_sim ran e → Inv ran e
Reach-Inv is_sim boot = record { once = tt; handed_over = λ n out. tt; pending = tt }
Reach-Inv is_sim (run job r idle fresh) = run-Inv _ _ job fresh (Reach-Inv is_sim r)
Reach-Inv is_sim (interrupt status r) = interrupt-Inv _ _ status (Reach-Inv is_sim r)
Reach-Inv is_sim (thread r) = thread-Inv _ _ (Reach-Inv is_sim r)
Reach-Inv is_sim (simulate p r) =
    PhaseDone-Inv _ _ _ p (strela_job_phase_done-PhaseDone _ p) (Reach-Inv is_sim r)
Reach-Inv is_sim (abort r) = abort-Inv _ _ (Reach-Inv is_sim r)
