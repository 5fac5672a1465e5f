-- ===== src/Driver/Scheduler/Timeout.antt =====
-- What a timeout leaves (driver/strela_job.c, `strela_timedout_job`).
use strela_pynq.Base.{ℕ, ◌≡◌, ◌≢◌, refl, ◌∙◌, arith, ◌∷◌, none, some, bit_and}
use strela_pynq.Driver.Engine.{
  Engine, Job, Phase, config, exec, strela_job_abort, strela_job_phase_done, strela_irq_handler,
  strela_irq_thread_fn, strela_run_job, cmd_pending_int_config, end_phase, finish_phase, start_real,
  start_sim, strela_hw_start,
}
use strela_pynq.Driver.Engine.Fences.{
  SameJobs, SameJobs-trans, hw_stop-SameJobs, hw_program-SameJobs, hw_start-SameJobs,
}
use strela_pynq.Driver.Scheduler.{
  sched_stop, sched_start, Scheduler, sched_call, abort_engine, strela_timedout_job,
}

-- What the handler of a timeout makes of `s`.
pub record TimesOut (s f : Scheduler) : Type 0 where
  pub calls : f.calls ≡ (sched_start, none) ∷ (sched_stop, s.engine.active) ∷ s.calls
  pub signalled : f.engine.signalled ≡ s.engine.signalled
  pub late : (p : Phase) → strela_job_phase_done f.engine p ≡ f.engine
  pub held : f.submits ≡ s.submits

phase_done-no_job : (e : Engine) (p : Phase) → e.active ≡ none → strela_job_phase_done e p ≡ e
unfolding strela_job_phase_done end_phase
phase_done-no_job e p h = ground arith

-- A timeout stops the scheduler, takes the job off the device and starts the scheduler again, in
-- that order: the scheduler is started with no job on the device. It signals no fence and gives
-- nothing back, and a completion of either phase that comes in behind it changes nothing.
pub strela_timedout_job-TimesOut : (s : Scheduler) → TimesOut s (strela_timedout_job s)
unfolding strela_timedout_job sched_call abort_engine strela_job_abort
strela_timedout_job-TimesOut s =
    let stop = hw_stop-SameJobs (record s.engine { active = none }) in
    record {
      calls = simp (stop.active) refl;
      signalled = stop.signalled;
      late = λ p. phase_done-no_job _ p stop.active;
      held = refl;
    }

run_job-SameJobs :
    (e : Engine) (job : Job)
    → SameJobs (record e { active = some (record job { phase = config }) }) (strela_run_job e job)
unfolding strela_run_job
run_job-SameJobs e job =
    let job' = record job { phase = config } in
    let loaded = record e { active = some job' } in
    SameJobs-trans (hw_program-SameJobs loaded job') (hw_start-SameJobs _ config)

thread-config :
    (e : Engine) (job : Job) (status : ℕ)
    → bit_and status cmd_pending_int_config ≢ 0
    → e.irq_status ≡ status
    → e.active ≡ some (record job { phase = config })
    → (strela_irq_thread_fn e).0.active ≡ some (record job { phase = exec })
unfolding strela_irq_thread_fn strela_job_phase_done end_phase finish_phase strela_hw_start
    start_real start_sim
thread-config e job status pending is at = ground (arith, pending, is, at)

irq_handler-status :
    (e : Engine) (status : ℕ)
    → bit_and status cmd_pending_int_config ≢ 0
    → (strela_irq_handler e status).0.irq_status ≡ status
unfolding strela_irq_handler
irq_handler-status e status pending = ground (arith, pending)

-- If the end of a configuration raises its interrupt, and a timeout takes that job off and the
-- scheduler hands over the next one before the interrupt's thread runs, then the thread takes the
-- interrupt for the next job's: that job is started on its execution, though its own configuration
-- has not ended.
pub strela_timedout_job-stale_irq :
    (s : Scheduler) (status : ℕ) (job : Job)
    → bit_and status cmd_pending_int_config ≢ 0
    → let interrupted = record s { engine = (strela_irq_handler s.engine status).0 } in
      let restarted = (strela_timedout_job interrupted).engine in
      (strela_irq_thread_fn (strela_run_job restarted job)).0.active
      ≡ some (record job { phase = exec })
unfolding strela_timedout_job sched_call abort_engine strela_job_abort
strela_timedout_job-stale_irq s status job pending =
    let e : Engine = (strela_irq_handler s.engine status).0 in
    let stopped = record e { active = none } in
    let run = run_job-SameJobs (strela_job_abort e) job in
    thread-config (strela_run_job (strela_job_abort e) job) job status pending
      (run.irq_status
        ∙ (hw_stop-SameJobs stopped).irq_status
        ∙ irq_handler-status s.engine status pending)
      run.active
