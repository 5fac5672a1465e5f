-- ===== src/Job/Run/StaleFence.antt =====
-- What a failed export of a fence leaves behind (lib/strela.c, `strela_job_submit`).
use strela_pynq.Base.{
  ℕ, ◌^◌, ◌-◌, ◌==◌, ◌≡◌, ◌≢◌, ◌<◌, refl, Bool, true, false, ◌∷◌, pos, minus_one, arith, set,
  length, returned, ◌>>=◌, get_elem?-set_self, set-set, subst, sym, ◌&&◌, is_zero,
}
use strela_pynq.Device.{
  done, fail, JobHandle, JobPhase, free, configured, submitted, finished, JobSlot, submit_job,
  export_fence, poll_fence, close_fd, syncobj_destroy, Device, strela_dev_ok, strela_dev_reset_err,
}
use strela_pynq.Job.{
  is_submitted, close_fence, destroy_syncobj, is_finished, phase_is_in, phase_singleton,
  released_slot, strela_job_slot_release, strela_job_slot_finish,
}
use strela_pynq.Job.Run.{
  strela_job_submit, submit_slot, free_slot, strela_job_free, export_new_fence, startable,
}
use strela_pynq.Job.Run.Lifecycle.{
  Holds, IsStartable, again, slot_get-Holds, startable_phase, submit_calls,
}

all_phases : (p : JobPhase) → phase_is_in p (2 ^ 32 - 1) ≡ false
unfolding phase_is_in phase_singleton
all_phases free = refl
all_phases configured = refl
all_phases submitted = refl
all_phases finished = refl

initialized-Holds : (dev : Device) → strela_dev_ok dev ≡ true → dev.initialized ≡ true
unfolding strela_dev_ok
initialized-Holds dev fit = left_of dev.initialized (is_zero dev.errnum) fit
  where
    left_of : (b c : Bool) → (b && c) ≡ true → b ≡ true
    left_of true c h = refl
    left_of false c h = cc

-- A submitted job with a fence and a sync object is waited for, and both are given back.
free-Holds :
    (dev : Device) (job : JobHandle) (slot : JobSlot) (fd : ℕ)
    → Holds dev job slot
    → slot.phase ≡ submitted
    → slot.fence_fd ≡ pos fd
    → slot.submit.out_syncobj ≢ 0
    → strela_job_free dev job (record { wait = done tt; close = done tt; destroy = done tt })
      ≡ returned (record dev {
        jobs = set dev.jobs job.handle released_slot;
        calls =
            syncobj_destroy slot.submit.out_syncobj
            ∷ close_fd (pos fd)
            ∷ poll_fence (pos fd) minus_one
            ∷ dev.calls;
      })
unfolding strela_job_free free_slot strela_job_slot_release strela_job_slot_finish close_fence
    destroy_syncobj
free-Holds dev job slot fd h in_driver fence object = simp (
  slot_get-Holds dev job slot (2 ^ 32 - 1) h (all_phases slot.phase),
  initialized-Holds dev h.fit,
  is_in,
  fence,
  nonzero,
)
  where
    is_in : is_submitted slot.phase ≡ true
    is_in = rw in_driver refl

    nonzero : (slot.submit.out_syncobj == 0) ≡ false
    nonzero = ground (arith, object)

-- A done job in the driver again whose fence could not be exported.
abbrev after_failed_export : Device → JobHandle → JobSlot → ℕ → Device
after_failed_export dev job slot e = record dev {
  errnum = pos e;
  jobs = set dev.jobs job.handle (record slot { phase = submitted });
  calls = submit_calls slot dev.calls;
}

submit-failed_export :
    (dev : Device) (job : JobHandle) (slot : JobSlot) (e : ℕ)
    → Holds dev job slot
    → slot.phase ≡ finished
    → strela_job_submit dev job (record { submit = done tt; close = done tt; export = fail e })
      ≡ returned (after_failed_export dev job slot e, dev.initialized && is_zero (pos e))
unfolding strela_job_submit submit_slot export_new_fence strela_dev_ok
submit-failed_export dev job slot e h over = simp (
  slot_get-Holds dev job slot startable h (startable_phase _ (subst IsStartable (sym over) again)),
  is_over,
)
  where
    is_over : is_finished slot.phase ≡ true
    is_over = rw over refl

-- On a device fit for use, where the other system calls succeed, a done job with a fence and a sync
-- object that is submitted again and whose new fence cannot be exported keeps the old fence's
-- descriptor, which the submission has closed: once the error is reset, freeing the job waits on
-- that descriptor and closes it again.
pub strela_job_free-stale_fence :
    (dev : Device) (job : JobHandle) (slot : JobSlot) (fd e : ℕ)
    → Holds dev job slot
    → job.handle < length dev.jobs
    → slot.phase ≡ finished
    → slot.fence_fd ≡ pos fd
    → slot.submit.out_syncobj ≢ 0
    → (strela_job_submit dev job (record { submit = done tt; close = done tt; export = fail e })
        >>= λ (dev', _).
            strela_job_free
              (strela_dev_reset_err dev')
              job
              (record { wait = done tt; close = done tt; destroy = done tt }))
      ≡ returned (record dev {
        errnum = pos 0;
        jobs = set dev.jobs job.handle released_slot;
        calls =
            syncobj_destroy slot.submit.out_syncobj
            ∷ close_fd (pos fd)
            ∷ poll_fence (pos fd) minus_one
            ∷ export_fence slot.submit.out_syncobj
            ∷ close_fd (pos fd)
            ∷ submit_job slot.submit
            ∷ dev.calls;
      })
unfolding strela_dev_reset_err strela_dev_ok
strela_job_free-stale_fence dev job slot fd e h inside over fence object =
    simp (submit-failed_export dev job slot e h over, initialized-Holds dev h.fit, is_over)
      (simp
        (
          free-Holds stale job (record slot { phase = submitted }) fd held refl fence object,
          set-set,
        )
        (simp fence))
  where
    stale : Device
    stale = record dev {
      initialized = true;
      errnum = pos 0;
      jobs = set dev.jobs job.handle (record slot { phase = submitted });
      calls =
          export_fence slot.submit.out_syncobj
          ∷ close_fd slot.fence_fd
          ∷ submit_job slot.submit
          ∷ dev.calls;
    }

    held : Holds stale job (record slot { phase = submitted })
    held = record {
      fit = refl;
      valid = h.valid;
      below = h.below;
      at = get_elem?-set_self dev.jobs job.handle _ inside;
    }

    is_over : is_finished slot.phase ≡ true
    is_over = rw over refl
