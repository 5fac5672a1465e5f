-- ===== src/Driver/Scheduler.antt =====
-- The scheduler's end and its timeouts (driver/strela_job.c, `strela_timedout_job`,
-- `strela_job_fini`). The scheduler itself is the kernel's: the calls of it are recorded, the latest
-- first, each with the job that is on the device, and the list of started jobs that `drm_sched_fini`
-- leaves is an argument. A fence is signalled when the engine's list has it.
pub mod Drain
pub mod Timeout
use strela_pynq.Base.{ℕ, ◌==◌, Bool, true, false, ◌||◌, List, [], ◌∷◌, Option, if◌then◌else◌}
use strela_pynq.Driver.Engine.{Engine, Job, strela_job_abort}
use strela_pynq.Driver.Submit.{QueuedJob, Submits, strela_free_job}

pub data SchedCall : Type 0 where
  cancel_tdr sched_fini sched_stop sched_start : SchedCall

-- The device, what its jobs hold, and the fences with an error, each with it, the latest first.
pub record Scheduler : Type 0 where
  pub engine : Engine
  pub submits : Submits
  pub fence_errors : List (ℕ × ℕ)
  pub calls : List (SchedCall × Option Job)

-- -ENODEV
abbrev pub enodev : ℕ
enodev = 19

unfoldable pub sched_call : SchedCall → Scheduler → Scheduler
sched_call c s = record s { calls = (c, s.engine.active) ∷ s.calls }

abbrev pub is_among : ℕ → List ℕ → Bool
is_among n [] = false
is_among n (m ∷ ms) = (n == m) || is_among n ms

-- A job that is left on the pending list: a fence that is not signalled gets an error and is.
unfoldable pub retire_fence : QueuedJob → Scheduler → Scheduler
retire_fence job s = if is_among job.seqno s.engine.signalled then s else record s {
  fence_errors = (job.seqno, enodev) ∷ s.fence_errors;
  engine = record s.engine { signalled = job.seqno ∷ s.engine.signalled };
}

unfoldable pub free_base : QueuedJob → Scheduler → Scheduler
free_base job s = record s { submits = strela_free_job job s.submits }

-- The loop of `strela_job_fini`.
unfoldable pub drain : (pending : List QueuedJob) → Scheduler → Scheduler
drain [] s = s
drain (job ∷ pending) s = drain pending (free_base job (retire_fence job s))

unfoldable pub abort_engine : Scheduler → Scheduler
abort_engine s = record s { engine = strela_job_abort s.engine }

unfoldable pub strela_job_fini : (pending : List QueuedJob) → Scheduler → Scheduler
strela_job_fini pending s =
    drain pending (abort_engine (sched_call sched_fini (sched_call cancel_tdr s)))

unfoldable pub strela_timedout_job : Scheduler → Scheduler
strela_timedout_job s = sched_call sched_start (abort_engine (sched_call sched_stop s))
