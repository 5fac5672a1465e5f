-- ===== src/Job/Run/Lifecycle.antt =====
-- One round of a job, from its submission to its result.
use strela_pynq.Base.{
  ℕ, suc, ◌==◌, ◌≡◌, ◌<◌, refl, Bool, true, false, inl, inr, List, ◌∷◌, leb, some, ℤ, pos, arith,
  get_elem?, set, length, Outcome, returned, ◌>>=◌, if◌then◌else◌, Bool-cases, get_elem?-set_self,
  set-set, is_positive,
}
use strela_pynq.Device.{
  done, JobHandle, JobPhase, free, configured, submitted, finished, JobSlot, Call, submit_job,
  export_fence, poll_fence, fence_info, close_fd, Device, strela_dev_ok, log_call,
}
use strela_pynq.Job.{
  is_submitted, phase_number, is_finished, put_slot, phase_is_in, phase_singleton,
}
use strela_pynq.Job.Run.{
  JobState, ok, failed, SubmitReplies, UpdateReplies, strela_job_slot_get, strela_job_submit,
  strela_job_wait, slot_in_phase, submit_slot, wait_slot, poll_slot, read_status, poll_submitted,
  strela_job_poll, strela_job_update, export_new_fence, startable, started,
}

-- A handle of a slot of a device fit for use.
pub record Holds (dev : Device) (job : JobHandle) (slot : JobSlot) : Type 0 where
  pub fit : strela_dev_ok dev ≡ true
  pub valid : job.valid ≡ true
  pub below : job.handle < 16
  pub at : get_elem? dev.jobs job.handle ≡ some slot

pub slot_get-Holds :
    (dev : Device) (job : JobHandle) (slot : JobSlot) (phases : ℕ)
    → Holds dev job slot
    → phase_is_in slot.phase phases ≡ false
    → strela_job_slot_get dev job phases ≡ returned (dev, some (job.handle, slot))
unfolding strela_job_slot_get slot_in_phase
slot_get-Holds dev job slot phases h within = simp (h.fit, h.valid, in_range, h.at, within)
  where
    in_range : leb 16 job.handle ≡ false
    in_range = ground (arith, h.below)

-- A job may be started: it is configured, or it is done.
pub data IsStartable : JobPhase → Type 0 where
  fresh : IsStartable configured
  again : IsStartable finished

pub startable_phase : (p : JobPhase) → IsStartable p → phase_is_in p startable ≡ false
unfolding phase_is_in phase_singleton
startable_phase free x = elim x [ ]
startable_phase submitted x = elim x [ ]
startable_phase configured fresh = refl
startable_phase finished again = refl

-- The calls of a successful submission.
abbrev pub submit_calls : JobSlot → List Call → List Call
submit_calls slot calls =
    let asked = submit_job slot.submit ∷ calls in
    export_fence slot.submit.out_syncobj
    ∷ (if is_finished slot.phase then close_fd slot.fence_fd ∷ asked else asked)

abbrev pub after_submit : Device → JobHandle → JobSlot → ℤ → Device
after_submit dev job slot fence = record dev {
  jobs = set dev.jobs job.handle (record slot { phase = submitted; fence_fd = fence });
  calls = submit_calls slot dev.calls;
}

pub submit-Holds :
    (dev : Device) (job : JobHandle) (slot : JobSlot) (fd : ℕ)
    → Holds dev job slot
    → IsStartable slot.phase
    → strela_job_submit dev job (record { submit = done tt; close = done tt; export = done fd })
      ≡ returned (after_submit dev job slot (pos fd), true)
unfolding strela_job_submit submit_slot export_new_fence strela_dev_ok
submit-Holds dev job slot fd h start = elim (Bool-cases (is_finished slot.phase)) [
  | inl over ↦ simp (got, h.fit, over)
  | inr first ↦ simp (got, h.fit, first)
]
  where
    got : strela_job_slot_get dev job startable ≡ returned (dev, some (job.handle, slot))
    got = slot_get-Holds dev job slot startable h (startable_phase _ start)

-- The calls of a wait that finds the fence ready.
abbrev pub after_wait : Device → JobHandle → JobSlot → (timeout status : ℤ) → Device
after_wait dev job slot timeout status = record dev {
  jobs = set dev.jobs job.handle (record slot { phase = finished; status = status });
  calls = fence_info slot.fence_fd ∷ poll_fence slot.fence_fd timeout ∷ dev.calls;
}

update-Holds :
    (dev : Device) (i : ℕ) (slot : JobSlot) (ready : ℕ) (timeout status : ℤ)
    → slot.phase ≡ submitted
    → strela_job_update dev i slot timeout (record { poll = done (suc ready); info = done status })
      ≡ returned (
        put_slot
            (log_call (log_call dev (poll_fence slot.fence_fd timeout)) (fence_info slot.fence_fd))
            i
            (record slot { phase = finished; status = status }),
        record slot { phase = finished; status = status },
      )
unfolding strela_job_update poll_submitted read_status
update-Holds dev i slot ready timeout status in_driver = simp (past, open_still, nonzero)
  where
    nonzero : (suc ready == 0) ≡ false
    nonzero = ground arith

    past : leb 2 (phase_number slot.phase) ≡ true
    past = rw in_driver refl

    open_still : is_finished slot.phase ≡ false
    open_still = rw in_driver refl

pub wait-Holds :
    (dev : Device) (job : JobHandle) (slot : JobSlot) (ready : ℕ) (timeout status : ℤ)
    → Holds dev job slot
    → slot.phase ≡ submitted
    → strela_job_wait dev job timeout (record { poll = done (suc ready); info = done status })
      ≡ returned (after_wait dev job slot timeout status, true)
unfolding strela_job_wait wait_slot strela_dev_ok phase_is_in phase_singleton
wait-Holds dev job slot ready timeout status h in_driver = simp (
  slot_get-Holds dev job slot started h in_set,
  update-Holds dev job.handle slot ready timeout status in_driver,
  h.fit,
)
  where
    in_set : phase_is_in slot.phase started ≡ false
    in_set = rw in_driver refl

pub poll-Holds :
    (dev : Device) (job : JobHandle) (slot : JobSlot) (rs : UpdateReplies)
    → Holds dev job slot
    → slot.phase ≡ finished
    → strela_job_poll dev job rs ≡ returned (dev, if is_positive slot.status then ok else failed)
unfolding strela_job_poll poll_slot strela_job_update phase_is_in phase_singleton
poll-Holds dev job slot rs h over = simp (slot_get-Holds dev job slot started h in_set, over)
  where
    in_set : phase_is_in slot.phase started ≡ false
    in_set = rw over refl

-- The calls by which a program runs a configured or done job and looks at its result.
abbrev pub run_job :
    Device
    → JobHandle
    → SubmitReplies
    → ℤ
    → (for_wait for_poll : UpdateReplies) → Outcome (Device × Bool × Bool × JobState)
run_job dev job submit_replies timeout for_wait for_poll =
    strela_job_submit dev job submit_replies >>= λ (dev₁, is_submitted).
    strela_job_wait dev₁ job timeout for_wait >>= λ (dev₂, is_over).
    strela_job_poll dev₂ job for_poll >>= λ (dev₃, state).
    returned (dev₃, is_submitted, is_over, state)

-- On a device fit for use, where the system calls succeed and the fence is ready, a configured or done job that is
-- submitted, waited for and polled is in the driver once, its old fence is closed exactly if it was
-- done, and the poll says `ok` exactly if the fence's status is positive; the slot is then done,
-- with that status and the new fence, and no other slot has changed.
pub strela_job_poll-strela_job_submit :
    (dev : Device) (job : JobHandle) (slot : JobSlot) (fd ready : ℕ) (timeout status : ℤ)
    (rs : UpdateReplies)
    → Holds dev job slot
    → job.handle < length dev.jobs
    → IsStartable slot.phase
    → run_job dev job
        (record { submit = done tt; close = done tt; export = done fd })
        timeout
        (record { poll = done (suc ready); info = done status })
        rs
      ≡ returned (
        record dev {
          jobs =
              set dev.jobs job.handle
                (record slot { phase = finished; fence_fd = pos fd; status = status });
          calls = fence_info (pos fd) ∷ poll_fence (pos fd) timeout ∷ submit_calls slot dev.calls;
        },
        true,
        true,
        if is_positive status then ok else failed,
      )
unfolding strela_dev_ok
strela_job_poll-strela_job_submit dev job slot fd ready timeout status rs h inside start = simp (
  submit-Holds dev job slot fd h start,
  wait-Holds (after_submit dev job slot (pos fd)) job _ ready timeout status held refl,
  set-set,
  poll-Holds over job _ rs held' refl,
)
  where
    over : Device
    over = record dev {
      jobs =
          set dev.jobs job.handle
            (record slot { phase = finished; fence_fd = pos fd; status = status });
      calls = fence_info (pos fd) ∷ poll_fence (pos fd) timeout ∷ submit_calls slot dev.calls;
    }

    held :
        Holds
          (after_submit dev job slot (pos fd))
          job
          (record slot { phase = submitted; fence_fd = pos fd })
    held = record {
      fit = h.fit;
      valid = h.valid;
      below = h.below;
      at = get_elem?-set_self dev.jobs job.handle _ inside;
    }

    held' : Holds over job (record slot { phase = finished; fence_fd = pos fd; status = status })
    held' = record {
      fit = h.fit;
      valid = h.valid;
      below = h.below;
      at = get_elem?-set_self dev.jobs job.handle _ inside;
    }
