-- ===== src/Driver/Submit/Settle.antt =====
-- How a submission ends: refused with nothing held, or queued with every binding checked.
use strela_pynq.Base.{
  ℕ, ◌+◌, ◌≡◌, refl, ap, ◌∙◌, Bool, true, false, List, [], ◌∷◌, Option, none, some, arith,
  if-either, not, ◌||◌, bit_and, ◌==◌,
}
use strela_pynq.Uapi.{Submit}
use strela_pynq.Driver.Binding.{Errno}
use strela_pynq.Driver.Submit.{
  Object, BoundTo, BoundColumn, QueuedJob, Got, Submits, SubmitAnswers, unbound, stride_one,
  strela_binding_get, get_columns, err_cleanup, push_job, bound_columns, bound_config, bind_job,
  init_job, unknown_flags, strela_submit_ioctl, strela_free_job,
}
use strela_pynq.Driver.Submit.Refs.{
  held_job, put_bindings-held, IsChecked, AreChecked, Binds, binding_get-Binds, BindsColumns,
  get_columns-BindsColumns, unbound_columns-held,
}

-- The same references and the same memory are held, and the same jobs are queued.
pub record SameHeld (st st' : Submits) : Type 0 where
  pub refs : (j : ℕ) → st'.refs j ≡ st.refs j
  pub job_memory : st'.job_memory ≡ st.job_memory
  pub hw_fences : st'.hw_fences ≡ st.hw_fences
  pub sched_jobs : st'.sched_jobs ≡ st.sched_jobs

pub record IsBound (args : Submit) (objects : ℕ → Option Object) (job : QueuedJob) : Type 0 where
  pub config : IsChecked objects (stride_one args.config) job.config
  pub columns : AreChecked objects args.inputs args.outputs job.columns

pub data Settles (args : Submit) (objects : ℕ → Option Object) (st : Submits)
    : Option Errno × Submits → Type 0 where
  refused :
      {e : Errno} {st' : Submits}
      → SameHeld st st'
      → st'.pushed ≡ st.pushed
      → st'.out_fences ≡ st.out_fences
      → Settles args objects st (some e, st')
  queued :
      {st' : Submits} (job : QueuedJob)
      → IsBound args objects job
      → st'.pushed ≡ job ∷ st.pushed
      → st'.out_fences ≡ (args.out_syncobj, job.seqno) ∷ st.out_fences
      → SameHeld st (strela_free_job job st')
      → Settles args objects st (none, st')

module _ (args : Submit) (objects : ℕ → Option Object) (st : Submits) where
  -- The state behind `drm_sched_job_init`: one job, one fence and one scheduler half more than
  -- before, and the references of `job`.
  record Midway (job : QueuedJob) (mid : Submits) : Type 0 where
    refs : (j : ℕ) → mid.refs j ≡ st.refs j + held_job job j
    job_memory : mid.job_memory ≡ st.job_memory + 1
    hw_fences : mid.hw_fences ≡ st.hw_fences + 1
    sched_jobs : mid.sched_jobs ≡ st.sched_jobs + 1
    pushed : mid.pushed ≡ st.pushed
    out_fences : mid.out_fences ≡ st.out_fences

  -- What the way out gives back is what was taken.
  cleanup-SameHeld :
      (job : QueuedJob) (mid : Submits) → Midway job mid → SameHeld st (err_cleanup mid job)
  cleanup-SameHeld job mid m = record {
    refs = λ j. omega (arith, put_bindings-held job mid.refs j, m.refs j);
    job_memory = omega (arith, m.job_memory);
    hw_fences = omega (arith, m.hw_fences);
    sched_jobs = omega (arith, m.sched_jobs);
  }

  cleanup-Settles :
      (e : Errno) (job : QueuedJob) (mid : Submits)
      → Midway job mid
      → Settles args objects st (some e, err_cleanup mid job)
  cleanup-Settles e job mid m = refused (cleanup-SameHeld job mid m) m.pushed m.out_fences

  push-Settles :
      (has_syncobj : Bool) (job : QueuedJob) (mid : Submits)
      → Midway job mid
      → IsBound args objects job
      → Settles args objects st (push_job args has_syncobj mid job)
  unfolding push_job strela_free_job
  push-Settles true job mid m b = queued job b (simp m.pushed) (simp m.out_fences) (record {
    refs = λ j. omega (arith, put_bindings-held job mid.refs j, m.refs j);
    job_memory = omega (arith, m.job_memory);
    hw_fences = omega (arith, m.hw_fences);
    sched_jobs = omega (arith, m.sched_jobs);
  })
  push-Settles false job mid m b = cleanup-Settles _ job mid m

  bound_columns-Settles :
      (has_syncobj : Bool) (mid : Submits) (config : BoundTo) (r : Option Errno)
      (columns : List BoundColumn)
      → Midway (record { seqno = mid.fence_seqno; config = config; columns = columns }) mid
      → IsChecked objects (stride_one args.config) config
      → (r ≡ none → AreChecked objects args.inputs args.outputs columns)
      → Settles args objects st (bound_columns args has_syncobj mid config r columns)
  unfolding bound_columns
  bound_columns-Settles has_syncobj mid config (some e) columns m first others =
      cleanup-Settles e _ mid m
  bound_columns-Settles has_syncobj mid config none columns m first others =
      push-Settles has_syncobj _ mid m (record { config = first; columns = others refl })

  -- Behind `drm_sched_job_init`, with no reference taken yet.
  abbrev Fresh : Submits → Type 0
  Fresh mid = Midway (record { seqno = mid.fence_seqno; config = unbound; columns = [] }) mid

  bound_config-Settles :
      (has_syncobj : Bool) (mid : Submits) (config : Got BoundTo) (r : Option Errno)
      → config.ret ≡ r
      → Fresh mid
      → Binds objects (stride_one args.config) mid.refs config
      → Settles args objects st
          (bound_config args objects has_syncobj (record mid { refs = config.refs }) r config.value)
  unfolding bound_config
  bound_config-Settles has_syncobj mid config (some e) at m b =
      cleanup-Settles e _ (record mid { refs = config.refs })
        (record {
          refs = λ j. omega (arith, b.counts j, m.refs j, unbound_columns-held args.inputs j);
          job_memory = m.job_memory;
          hw_fences = m.hw_fences;
          sched_jobs = m.sched_jobs;
          pushed = m.pushed;
          out_fences = m.out_fences;
        })
  bound_config-Settles has_syncobj mid config none at m b =
      bound_columns-Settles has_syncobj (record mid { refs = columns.refs }) config.value
        columns.ret columns.value
        (record {
          refs = λ j. omega (arith, b.counts j, m.refs j, others.counts j);
          job_memory = m.job_memory;
          hw_fences = m.hw_fences;
          sched_jobs = m.sched_jobs;
          pushed = m.pushed;
          out_fences = m.out_fences;
        })
        (b.checked at) others.checked
    where
      columns : Got (List BoundColumn)
      columns = get_columns objects args.inputs args.outputs config.refs

      others : BindsColumns objects args.inputs args.outputs config.refs columns
      others = get_columns-BindsColumns objects args.inputs args.outputs config.refs

  bind_job-Settles :
      (has_syncobj : Bool) (mid : Submits) (r : Option Errno)
      → Fresh mid
      → Settles args objects st (bind_job args objects has_syncobj mid r)
  unfolding bind_job
  bind_job-Settles has_syncobj mid (some e) m = cleanup-Settles e _ mid (record {
    refs = λ j. omega (arith, m.refs j, unbound_columns-held args.inputs j);
    job_memory = m.job_memory;
    hw_fences = m.hw_fences;
    sched_jobs = m.sched_jobs;
    pushed = m.pushed;
    out_fences = m.out_fences;
  })
  bind_job-Settles has_syncobj mid none m =
      bound_config-Settles has_syncobj mid (strela_binding_get objects args.config mid.refs) _ refl
        m (binding_get-Binds objects args.config mid.refs)

  init_job-Settles :
      (answers : SubmitAnswers) (mid : Submits) (r : Option Errno)
      → (mid.refs ≡ st.refs) × (mid.pushed ≡ st.pushed) × (mid.out_fences ≡ st.out_fences)
      → (mid.job_memory ≡ st.job_memory + 1)
        × (mid.hw_fences ≡ st.hw_fences + 1)
        × (mid.sched_jobs ≡ st.sched_jobs)
      → Settles args objects st (init_job args objects answers mid r)
  unfolding init_job
  init_job-Settles answers mid (some e) (refs, pushed, fences) (memory, hw, sched) =
      refused
        (record {
          refs = λ j. ap (λ f. f j) refs;
          job_memory = omega (arith, memory);
          hw_fences = omega (arith, hw);
          sched_jobs = sched;
        })
        pushed fences
  init_job-Settles answers mid none (refs, pushed, fences) (memory, hw, sched) =
      bind_job-Settles answers.has_out_syncobj (record mid { sched_jobs = mid.sched_jobs + 1 }) _
        (record {
          refs = λ j. ap (λ f. f j) refs ∙ omega arith;
          job_memory = memory;
          hw_fences = hw;
          sched_jobs = omega (arith, sched);
          pushed = pushed;
          out_fences = fences;
        })

-- A submission that fails has given back every reference, the job, its fence and its scheduler
-- half, and queues nothing. One that succeeds queues one job, each of whose bindings passes
-- `strela_binding_check` against the buffer that its handle names, gives the sync object that job's
-- fence, and freeing the job gives back all that the submission took.
pub strela_submit_ioctl-Settles :
    (args : Submit) (objects : ℕ → Option Object) (answers : SubmitAnswers) (st : Submits)
    → Settles args objects st (strela_submit_ioctl args objects answers st)
unfolding strela_submit_ioctl
strela_submit_ioctl-Settles args objects answers st =
    if-either S (not (bit_and args.flags unknown_flags == 0) || not (args.pad == 0)) _ _
      nothing_taken
      (if-either S (not answers.has_job_memory) _ _ nothing_taken (
        if-either S (not answers.has_fence_memory) _ _
          (refused
            (record {
              refs = λ j. refl;
              job_memory = omega arith;
              hw_fences = refl;
              sched_jobs = refl;
            })
            refl refl)
          (init_job-Settles args objects st answers _ answers.job_init (refl, refl, refl)
            (refl, refl, refl))))
  where
    S : Option Errno × Submits → Type 0
    S = Settles args objects st

    nothing_taken : {e : Errno} → S (some e, st)
    nothing_taken =
        refused
          (record { refs = λ j. refl; job_memory = refl; hw_fences = refl; sched_jobs = refl }) refl
          refl
