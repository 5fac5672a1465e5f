-- ===== src/Job/Run/Execute.antt =====
-- The old way to run a kernel (lib/strela.c, `strela_config` and `strela_execute`).
use strela_pynq.Base.{
  ℕ, suc, ◌≡◌, ◌<◌, refl, Bool, true, false, not, if◌then◌else◌, ℤ, pos, set, length, List, ◌∷◌,
  get_elem?-set_self, set-set, is_positive, Outcome, returned, aborted, ◌>>=◌,
}
use strela_pynq.Align.{assert◌then◌}
use strela_pynq.Device.{
  Reply, done, fail, Call, KernelHandle, JobHandle, JobSlot, submitted, finished, Device,
  strela_dev_ok, poll_fence, fence_info,
}
use strela_pynq.Job.{Conf, ReleaseReplies, strela_job_config, phase_is_in, phase_singleton}
use strela_pynq.Job.Run.{
  JobState, pending, ok, failed, SubmitReplies, UpdateReplies, strela_job_free, strela_job_submit,
  strela_job_wait, strela_job_poll, eintr, wait_slot, poll_slot, poll_submitted, strela_job_update,
  started,
}
use strela_pynq.Job.Run.Lifecycle.{
  Holds, IsStartable, submit_calls, after_submit, submit-Holds, wait-Holds, poll-Holds,
  slot_get-Holds,
}

abbrev is_pending : JobState → Bool
is_pending pending = true
is_pending ok = false
is_pending failed = false

-- The job of the last configuration is freed first.
unfoldable pub strela_config :
    Device
    → KernelHandle
    → Conf
    → (for_free : ReleaseReplies) → (create : Reply ℕ) → ReleaseReplies
    → Outcome Device
strela_config dev kernel conf for_free create replies =
    (if dev.backward_compat_job.valid
      then strela_job_free dev dev.backward_compat_job for_free
      else returned dev)
    >>= λ dev'. strela_job_config dev' kernel conf create replies >>= λ (dev'', job).
        returned (record dev'' { backward_compat_job = job })

unfoldable pub strela_execute :
    Device → SubmitReplies → (for_wait for_poll : UpdateReplies) → Outcome (Device × JobState)
strela_execute dev submit for_wait for_poll =
    let job = dev.backward_compat_job in
    strela_job_submit dev job submit >>= λ (dev₁, _).
    strela_job_wait dev₁ job (pos 2000) for_wait >>= λ (dev₂, _).
    strela_job_poll dev₂ job for_poll >>= λ (dev₃, state).
    assert not (is_pending state) then returned (dev₃, state)

module _ (dev : Device) (slot : JobSlot) (fd : ℕ) (h : Holds dev dev.backward_compat_job slot)
    (inside : dev.backward_compat_job.handle < length dev.jobs)
    (start : IsStartable slot.phase) where
  abbrev job : JobHandle
  job = dev.backward_compat_job

  -- The slot once the job is in the driver.
  abbrev running : JobSlot
  running = record slot { phase = submitted; fence_fd = pos fd }

  running-Holds :
      (calls : List Call)
      → Holds (record (after_submit dev job slot (pos fd)) { calls = calls }) job running
  unfolding strela_dev_ok
  running-Holds calls = record {
    fit = h.fit;
    valid = h.valid;
    below = h.below;
    at = get_elem?-set_self dev.jobs job.handle running inside;
  }

  still_fit :
      (over : Device)
      → over.initialized ≡ dev.initialized
      → over.errnum ≡ dev.errnum
      → strela_dev_ok over ≡ true
  unfolding strela_dev_ok
  still_fit over same_state same_error = simp (same_state, same_error) h.fit

  -- A job that is on the device is not in a phase outside `started`.
  running-started : phase_is_in submitted started ≡ false
  unfolding phase_is_in phase_singleton
  running-started = refl

  -- A wait that a signal interrupts, and a poll that finds the fence not ready, change nothing but the trace.
  wait-interrupted :
      (calls : List Call) (info : Reply ℤ)
      → strela_job_wait
          (record (after_submit dev job slot (pos fd)) { calls = calls })
          job
          (pos 2000)
          (record { poll = fail eintr; info = info })
        ≡ returned (
          record (after_submit dev job slot (pos fd)) {
            calls = poll_fence (pos fd) (pos 2000) ∷ calls;
          },
          false,
        )
  unfolding strela_job_wait wait_slot strela_job_update poll_submitted strela_dev_ok
  wait-interrupted calls info =
      simp (slot_get-Holds _ job running started (running-Holds calls) running-started, h.fit)

  poll-idle :
      (calls : List Call) (info : Reply ℤ)
      → strela_job_poll
          (record (after_submit dev job slot (pos fd)) { calls = calls })
          job
          (record { poll = done 0; info = info })
        ≡ returned (
          record (after_submit dev job slot (pos fd)) {
            calls = poll_fence (pos fd) (pos 0) ∷ calls;
          },
          pending,
        )
  unfolding strela_job_poll poll_slot strela_job_update poll_submitted
  poll-idle calls info =
      simp (slot_get-Holds _ job running started (running-Holds calls) running-started)

  -- A signal during the two seconds of the wait ends the program: on a device fit for use whose
  -- configured or done job is submitted, where the wait is interrupted and the fence is not ready at the
  -- poll behind it, the assertion of `strela_execute` fails.
  pub strela_execute-interrupted :
      (info info' : Reply ℤ)
      → strela_execute dev
          (record { submit = done tt; close = done tt; export = done fd })
          (record { poll = fail eintr; info = info })
          (record { poll = done 0; info = info' })
        ≡ aborted
  unfolding strela_execute
  strela_execute-interrupted info info' = simp (
    submit-Holds dev job slot fd h start,
    wait-interrupted (submit_calls slot dev.calls) info,
    poll-idle (poll_fence (pos fd) (pos 2000) ∷ submit_calls slot dev.calls) info',
  )

  -- Where the system calls succeed and the fence is ready, `strela_execute` runs the configured or done
  -- job once and returns `ok` exactly if the fence's status is positive, else `failed`; the job
  -- is done then, and the assertion holds.
  pub strela_execute-finished :
      (ready : ℕ) (status : ℤ) (rs : UpdateReplies)
      → strela_execute dev
          (record { submit = done tt; close = done tt; export = done fd })
          (record { poll = done (suc ready); info = done status })
          rs
        ≡ returned (
          record dev {
            jobs =
                set dev.jobs job.handle
                  (record slot { phase = finished; fence_fd = pos fd; status = status });
            calls =
                fence_info (pos fd) ∷ poll_fence (pos fd) (pos 2000) ∷ submit_calls slot dev.calls;
          },
          if is_positive status then ok else failed,
        )
  unfolding strela_execute
  strela_execute-finished ready status rs =
      simp
        (
          submit-Holds dev job slot fd h start,
          wait-Holds (after_submit dev job slot (pos fd)) job running ready (pos 2000) status
              (running-Holds (submit_calls slot dev.calls)) refl,
          set-set,
          poll-Holds over job done_slot rs over-Holds refl,
        )
        (settled (is_positive status))
    where
      done_slot : JobSlot
      done_slot = record slot { phase = finished; fence_fd = pos fd; status = status }

      over : Device
      over = record dev {
        jobs = set dev.jobs job.handle done_slot;
        calls = fence_info (pos fd) ∷ poll_fence (pos fd) (pos 2000) ∷ submit_calls slot dev.calls;
      }

      over-Holds : Holds over job done_slot
      over-Holds = record {
        fit = still_fit over refl refl;
        valid = h.valid;
        below = h.below;
        at = get_elem?-set_self dev.jobs job.handle done_slot inside;
      }

      settle : JobState → Outcome (Device × JobState)
      settle state = assert not (is_pending state) then returned (over, state)

      settled :
          (b : Bool) → settle (if b then ok else failed) ≡ returned (over, if b then ok else failed)
      settled true = refl
      settled false = refl
