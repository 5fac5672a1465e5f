-- ===== src/Driver/Scheduler/Drain.antt =====
-- What is left when the scheduler ends (driver/strela_job.c, `strela_job_fini`).
use strela_pynq.Base.{
  ℕ, ◌+◌, ◌==◌, ◌≡◌, refl, sym, ap, ◌∙◌, subst, arith, false, not, ◌&&◌, ◌||◌, Bool-cases, inl, inr,
  List, [], ◌∷◌, Option, none, some, if◌then◌else◌, NotIn, Distinct, length,
}
use strela_pynq.Driver.Engine.{Engine, strela_job_abort}
use strela_pynq.Driver.Engine.Fences.{hw_stop-SameJobs}
use strela_pynq.Driver.Submit.{QueuedJob, Submits, strela_free_job}
use strela_pynq.Driver.Submit.Refs.{held_job, put_bindings-held}
use strela_pynq.Driver.Submit.Settle.{SameHeld}
use strela_pynq.Driver.Scheduler.{
  cancel_tdr, sched_fini, Scheduler, enodev, sched_call, is_among, retire_fence, free_base, drain,
  abort_engine, strela_job_fini,
}

abbrev pub seqnos : List QueuedJob → List ℕ
seqnos [] = []
seqnos (job ∷ jobs) = job.seqno ∷ seqnos jobs

abbrev pub held_jobs : List QueuedJob → ℕ → ℕ
held_jobs [] j = 0
held_jobs (job ∷ jobs) j = held_job job j + held_jobs jobs j

-- The error of a fence.
abbrev pub error_of : ℕ → List (ℕ × ℕ) → Option ℕ
error_of n [] = none
error_of n ((m, e) ∷ errors) = if n == m then some e else error_of n errors

-- `st` holds what `base` holds, and what each of `jobs` has taken.
pub record Holding (base : Submits) (jobs : List QueuedJob) (st : Submits) : Type 0 where
  pub refs : (j : ℕ) → st.refs j ≡ base.refs j + held_jobs jobs j
  pub job_memory : st.job_memory ≡ base.job_memory + length jobs
  pub hw_fences : st.hw_fences ≡ base.hw_fences + length jobs
  pub sched_jobs : st.sched_jobs ≡ base.sched_jobs + length jobs

free_job-Holding :
    (base : Submits) (job : QueuedJob) (jobs : List QueuedJob) (st : Submits)
    → Holding base (job ∷ jobs) st
    → Holding base jobs (strela_free_job job st)
unfolding strela_free_job
free_job-Holding base job jobs st h = record {
  refs = λ j. omega (arith, put_bindings-held job st.refs j, h.refs j);
  job_memory = omega (arith, h.job_memory);
  hw_fences = omega (arith, h.hw_fences);
  sched_jobs = omega (arith, h.sched_jobs);
}

is_among-NotIn : (n : ℕ) (ms : List ℕ) → is_among n ms ≡ false → NotIn n ms
is_among-NotIn n [] h = tt
is_among-NotIn n (m ∷ ms) h = (ground arith, is_among-NotIn n ms (ground arith))

-- What retiring jobs makes of the fences of `s`.
pub record Retired (jobs : List QueuedJob) (s f : Scheduler) : Type 0 where
  pub active : f.engine.active ≡ s.engine.active
  pub calls : f.calls ≡ s.calls
  pub signalled :
      (n : ℕ)
      → is_among n f.engine.signalled ≡ (is_among n (seqnos jobs) || is_among n s.engine.signalled)
  pub errors :
      (n : ℕ)
      → error_of n f.fence_errors ≡ (
          if is_among n (seqnos jobs) && not (is_among n s.engine.signalled)
          then some enodev
          else error_of n s.fence_errors)
  pub once : Distinct s.engine.signalled → Distinct f.engine.signalled

retire_fence-Retired :
    (job : QueuedJob) (s : Scheduler) → Retired (job ∷ []) s (free_base job (retire_fence job s))
unfolding retire_fence free_base
retire_fence-Retired job s = elim (Bool-cases (is_among job.seqno s.engine.signalled)) [
  | inl in_list ↦ record {
    active = ground (arith, in_list);
    calls = ground (arith, in_list);
    signalled = λ n. ground (arith, in_list);
    errors = λ n. ground (arith, in_list);
    once = λ d. ground (arith, in_list, d);
  }
  | inr fresh ↦ record {
    active = ground (arith, fresh);
    calls = ground (arith, fresh);
    signalled = λ n. ground (arith, fresh);
    errors = λ n. ground (arith, fresh);
    once = λ d. rw fresh (is_among-NotIn job.seqno s.engine.signalled fresh, d);
  }
]

Retired-cons :
    {job : QueuedJob} {jobs : List QueuedJob} {s m f : Scheduler}
    → Retired (job ∷ []) s m
    → Retired jobs m f
    → Retired (job ∷ jobs) s f
Retired-cons p q = record {
  active = q.active ∙ p.active;
  calls = q.calls ∙ p.calls;
  signalled = λ n. ground (arith, p.signalled n, q.signalled n);
  errors = λ n. ground (arith, p.signalled n, p.errors n, q.errors n);
  once = λ d. q.once (p.once d);
}

drain-Retired : (jobs : List QueuedJob) (s : Scheduler) → Retired jobs s (drain jobs s)
unfolding drain
drain-Retired [] s = record {
  active = refl;
  calls = refl;
  signalled = λ n. refl;
  errors = λ n. refl;
  once = λ d. d;
}
drain-Retired (job ∷ jobs) s =
    Retired-cons (retire_fence-Retired job s)
      (drain-Retired jobs (free_base job (retire_fence job s)))

retire_fence-submits : (job : QueuedJob) (s : Scheduler) → (retire_fence job s).submits ≡ s.submits
unfolding retire_fence
retire_fence-submits job s = ground arith

drain-SameHeld :
    (base : Submits) (jobs : List QueuedJob) (s : Scheduler)
    → Holding base jobs s.submits
    → SameHeld base (drain jobs s).submits
unfolding drain free_base
drain-SameHeld base [] s h = record {
  refs = λ j. omega (arith, h.refs j);
  job_memory = omega (arith, h.job_memory);
  hw_fences = omega (arith, h.hw_fences);
  sched_jobs = omega (arith, h.sched_jobs);
}
drain-SameHeld base (job ∷ jobs) s h = drain-SameHeld base jobs _ (
    subst (λ st. Holding base jobs (strela_free_job job st)) (sym (retire_fence-submits job s))
      (free_job-Holding base job jobs s.submits h))

-- What the end of the scheduler leaves, of `s` with the jobs `pending`; without them, `base` is held.
pub record Drained (base : Submits) (pending : List QueuedJob) (s f : Scheduler) : Type 0 where
  pub active : f.engine.active ≡ none
  pub signalled :
      (n : ℕ)
      → is_among n f.engine.signalled
        ≡ (is_among n (seqnos pending) || is_among n s.engine.signalled)
  pub errors :
      (n : ℕ)
      → error_of n f.fence_errors ≡ (
          if is_among n (seqnos pending) && not (is_among n s.engine.signalled)
          then some enodev
          else error_of n s.fence_errors)
  pub once : Distinct s.engine.signalled → Distinct f.engine.signalled
  pub held : SameHeld base f.submits
  pub calls : f.calls ≡ (sched_fini, s.engine.active) ∷ (cancel_tdr, s.engine.active) ∷ s.calls

job_abort-active : (e : Engine) → (strela_job_abort e).active ≡ none
unfolding strela_job_abort
job_abort-active e = (hw_stop-SameJobs (record e { active = none })).active

job_abort-signalled : (e : Engine) → (strela_job_abort e).signalled ≡ e.signalled
unfolding strela_job_abort
job_abort-signalled e = (hw_stop-SameJobs (record e { active = none })).signalled

-- When the scheduler ends, with the started jobs that it leaves: no job is on the device; exactly
-- the fences that were signalled and those of these jobs are; none is signalled twice, if none was;
-- the fences that this signals, and no others, get the error ENODEV; and what the jobs held is given
-- back. The timeout's handler has been waited for before the scheduler ends.
pub strela_job_fini-Drained :
    (base : Submits) (pending : List QueuedJob) (s : Scheduler)
    → Holding base pending s.submits
    → Drained base pending s (strela_job_fini pending s)
unfolding strela_job_fini sched_call abort_engine
strela_job_fini-Drained base pending s h =
    let stopped : Scheduler = abort_engine (sched_call sched_fini (sched_call cancel_tdr s)) in
    let r = drain-Retired pending stopped in
    let same = job_abort-signalled s.engine in
    record {
      active = r.active ∙ job_abort-active s.engine;
      signalled = λ n. r.signalled n ∙ ap (λ l. is_among n (seqnos pending) || is_among n l) same;
      errors = λ n.
          r.errors n
          ∙ ap
              (λ l.
                if is_among n (seqnos pending) && not (is_among n l)
                then some enodev
                else error_of n s.fence_errors)
              same;
      once = λ d. r.once (subst Distinct (sym same) d);
      held = drain-SameHeld base pending stopped h;
      calls = r.calls;
    }
