-- ===== src/Tests/Glue.antt =====
-- The driver's probe, module, and scheduler at concrete answers.
use strela_pynq.Base.{
  ℕ, ◌==◌, ◌≡◌, refl, arith, true, false, [], ◌∷◌, Option, none, some, if◌then◌else◌, failed,
}
use strela_pynq.Driver.Engine.{
  idle, config, exec, Job, strela_irq_handler, strela_irq_thread_fn, strela_run_job,
}
use strela_pynq.Driver.Submit.{QueuedJob, Submits, unbound}
use strela_pynq.Driver.Platform.{ProbeAnswers, strela_probe}
use strela_pynq.Driver.Platform.Settle.{Ends, probe_results, strela_probe-Ends}
use strela_pynq.Driver.SimDevices.{null, SimModule, strela_init}
use strela_pynq.Driver.SimDevices.Settle.{Loads, Unloaded, strela_init-Loads}
use strela_pynq.Driver.Scheduler.{Scheduler, strela_job_fini, strela_timedout_job}
use strela_pynq.Driver.Scheduler.Drain.{Drained, strela_job_fini-Drained}
use strela_pynq.Driver.Scheduler.Timeout.{
  TimesOut, strela_timedout_job-TimesOut, strela_timedout_job-stale_irq,
}

-- A device of the device tree whose interrupt is refused.
abbrev no_irq : ProbeAnswers
no_irq = record {
  dev_come_from_device_tree = true;
  alloc_error = none;
  mask_error = none;
  hw = record {
    map_error = none;
    a = 4294967295;
    b = 2;
    adder = λ a b. 1;
    irq = failed 6;
    request_error = none;
  };
  sched_error = none;
  register_error = none;
}

strela_probe-Ends_example : Ends false (probe_results no_irq) (strela_probe no_irq)
strela_probe-Ends_example = strela_probe-Ends no_irq

-- The third simulated device is refused.
abbrev third_refused : ℕ → Option ℕ
third_refused i = if i == 2 then some 12 else none

abbrev not_loaded : SimModule
not_loaded = record { driver = false; sim_pdevs = λ i. null; live = λ i. false }

not_loaded-Unloaded : Unloaded not_loaded
not_loaded-Unloaded = record {
  driver = refl;
  sims = record { below = λ j lt. elim lt [ ]; above = λ j le. (refl, refl) };
}

strela_init-Loads_example : Loads 4 none third_refused (strela_init 4 none third_refused not_loaded)
strela_init-Loads_example = strela_init-Loads 4 none third_refused not_loaded not_loaded-Unloaded

abbrev bare_job : ℕ → QueuedJob
bare_job n = record { seqno = n; config = unbound; columns = [] }

abbrev submits : ℕ → Submits
submits n = record {
  refs = λ j. 1;
  job_memory = n;
  hw_fences = n;
  sched_jobs = n;
  fence_seqno = 2;
  pushed = [];
  out_fences = [];
}

abbrev running : Job
running = record {
  fence = 2;
  bitstream = record { dma_addr = 4096; offset = 0; count = 80 };
  columns = [];
  phase = config;
}

-- Job 1 has ended and waits to be freed, job 2 is on the device.
abbrev two_started : Scheduler
two_started = record {
  engine = record (idle false) { active = some running; signalled = 1 ∷ [] };
  submits = submits 2;
  fence_errors = [];
  calls = [];
}

strela_job_fini-Drained_example :
    Drained
      (submits 0)
      (bare_job 1 ∷ bare_job 2 ∷ [])
      two_started
      (strela_job_fini (bare_job 1 ∷ bare_job 2 ∷ []) two_started)
strela_job_fini-Drained_example =
    strela_job_fini-Drained (submits 0) (bare_job 1 ∷ bare_job 2 ∷ []) two_started
      (record { refs = λ j. refl; job_memory = refl; hw_fences = refl; sched_jobs = refl })

strela_timedout_job-TimesOut_example : TimesOut two_started (strela_timedout_job two_started)
strela_timedout_job-TimesOut_example = strela_timedout_job-TimesOut two_started

abbrev next_job : Job
next_job = record running { fence = 3 }

strela_timedout_job-stale_irq_example :
    (strela_irq_thread_fn (
      strela_run_job
        (strela_timedout_job
          (record two_started { engine = (strela_irq_handler two_started.engine 4).0 })).engine
        next_job)).0.active
    ≡ some (record next_job { phase = exec })
strela_timedout_job-stale_irq_example =
    strela_timedout_job-stale_irq two_started 4 next_job (omega arith)
