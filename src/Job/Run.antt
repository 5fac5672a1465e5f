-- ===== src/Job/Run.antt =====
-- Submitting a job and asking after it (lib/strela.c, `strela_job_slot_get` to `strela_job_fd`).
pub mod Edges
pub mod Execute
pub mod Lifecycle
pub mod Operations
pub mod Release
pub mod StaleFence
use strela_pynq.Base.{
  ℕ, ◌+◌, ◌-◌, ◌==◌, ◌^◌, leb, Bool, true, false, not, ◌&&◌, ◌||◌, Option, none, some, ℤ, pos,
  minus_one, is_zero, is_positive, if◌then◌else◌, get_elem?, bit_or, Outcome, returned, aborted,
  ◌>>=◌,
}
use strela_pynq.Device.{
  Reply, done, fail, JobHandle, JobPhase, free, configured, submitted, finished, JobSlot, Call,
  submit_job, export_fence, poll_fence, fence_info, close_fd, Device, bad_arg, jobs_max,
  strela_dev_ok, set_err, log_call,
}
use strela_pynq.Job.{
  phase_number, is_finished, phase_singleton, phase_is_in, put_slot, reply_or, or_abort,
  ReleaseReplies, strela_job_slot_release, is_none,
}
use strela_pynq.Align.{assert◌then◌}

pub data JobState : Type 0 where
  pending ok failed : JobState

abbrev pub SlotAt : Type 0
SlotAt = ℕ × JobSlot

slot_in_phase : Device → ℕ → ℕ → Option JobSlot → Outcome (Device × Option SlotAt)
slot_in_phase dev i valid_phases none = aborted
slot_in_phase dev i valid_phases (some slot) =
    if phase_is_in slot.phase valid_phases
    then returned (set_err dev bad_arg, none)
    else returned (dev, some (i, slot))

-- The slot behind a handle in one of `valid_phases`, or NULL with an error set. A handle below
-- `jobs_max` that has no slot does not exist in C, where the array has that many.
unfoldable pub strela_job_slot_get : Device → JobHandle → ℕ → Outcome (Device × Option SlotAt)
unfolding slot_in_phase
strela_job_slot_get dev job valid_phases =
    if strela_dev_ok dev
    then if not job.valid || leb jobs_max job.handle
      then returned (set_err dev bad_arg, none)
      else slot_in_phase dev job.handle valid_phases (get_elem? dev.jobs job.handle)
    else returned (dev, none)

free_slot : ReleaseReplies → Device × Option SlotAt → Outcome Device
free_slot replies (dev, none) = returned dev
free_slot replies (dev, some (i, slot)) = strela_job_slot_release dev i slot replies

unfoldable pub strela_job_free : Device → JobHandle → ReleaseReplies → Outcome Device
unfolding free_slot
strela_job_free dev job replies = strela_job_slot_get dev job (2 ^ 32 - 1) >>= free_slot replies

abbrev pub startable : ℕ
startable = 10

abbrev pub started : ℕ
started = 12

pub record SubmitReplies : Type 0 where
  pub submit : Reply (Unit {0})
  pub close : Reply (Unit {0})
  pub export : Reply ℕ

-- `strela_job_submit` once the job is in the driver: the old fence of a done job is closed, and
-- the new one exported.
unfoldable pub export_new_fence : Device → ℕ → JobSlot → SubmitReplies → Outcome Device
export_new_fence dev i slot replies =
    (if is_finished slot.phase
      then or_abort replies.close (log_call dev (close_fd slot.fence_fd))
      else returned dev)
    >>= λ dev₁.
        let slot₁ = record slot { phase = submitted } in
        let dev₂ = log_call dev₁ (export_fence slot.submit.out_syncobj) in
        reply_or replies.export
          (λ fd. returned (put_slot dev₂ i (record slot₁ { fence_fd = pos fd })))
          (λ e. returned (set_err (put_slot dev₂ i slot₁) (pos e)))

submit_slot : SubmitReplies → Device × Option SlotAt → Outcome Device
submit_slot replies (dev, none) = returned dev
submit_slot replies (dev, some (i, slot)) =
    let dev' = log_call dev (submit_job slot.submit) in
    reply_or replies.submit (λ _. export_new_fence dev' i slot replies)
      (λ e. returned (set_err dev' (pos e)))

unfoldable pub strela_job_submit : Device → JobHandle → SubmitReplies → Outcome (Device × Bool)
unfolding submit_slot
strela_job_submit dev job replies =
    strela_job_slot_get dev job startable >>= submit_slot replies >>= λ dev'.
    returned (dev', strela_dev_ok dev')

-- `poll` answers how many descriptors are ready; the fence's status is 1 or a negative error.
pub record UpdateReplies : Type 0 where
  pub poll : Reply ℕ
  pub info : Reply ℤ

-- EINTR
abbrev pub eintr : ℕ
eintr = 4

-- A ready fence: its status ends the job.
read_status : Device → ℕ → JobSlot → Reply ℤ → Device × JobSlot
read_status dev i slot info =
    let dev' = log_call dev (fence_info slot.fence_fd) in
    reply_or info
      (λ status.
        let slot' = record slot { status = status; phase = finished } in
        (put_slot dev' i slot', slot'))
      (λ e. (set_err dev' (pos e), slot))

-- A submitted job: the fence is polled, and read if it is ready.
poll_submitted : Device → ℕ → JobSlot → ℤ → UpdateReplies → Device × JobSlot
poll_submitted dev i slot timeout_ms replies =
    let dev' = log_call dev (poll_fence slot.fence_fd timeout_ms) in
    reply_or replies.poll
      (λ ready. if ready == 0 then (dev', slot) else read_status dev' i slot replies.info)
      (λ e. if e == eintr then (dev', slot) else (set_err dev' (pos e), slot))

unfoldable pub strela_job_update :
    Device → ℕ → JobSlot → ℤ → UpdateReplies → Outcome (Device × JobSlot)
unfolding poll_submitted read_status
strela_job_update dev i slot timeout_ms replies =
    assert leb 2 (phase_number slot.phase)
    then returned (
        if is_finished slot.phase
        then (dev, slot)
        else poll_submitted dev i slot timeout_ms replies)

-- What a poll says of a slot that `strela_job_update` has looked at. The slot is read even where
-- the update has set an error.
abbrev pub state_of : JobSlot → JobState
state_of slot =
    if is_finished slot.phase then (if is_positive slot.status then ok else failed) else pending

poll_slot : UpdateReplies → Device × Option SlotAt → Outcome (Device × JobState)
poll_slot replies (dev, none) = returned (dev, failed)
poll_slot replies (dev, some (i, slot)) =
    strela_job_update dev i slot (pos 0) replies >>= λ (dev', slot').
    returned (dev', state_of slot')

unfoldable pub strela_job_poll : Device → JobHandle → UpdateReplies → Outcome (Device × JobState)
unfolding poll_slot
strela_job_poll dev job replies = strela_job_slot_get dev job started >>= poll_slot replies

wait_slot : ℤ → UpdateReplies → Device × Option SlotAt → Outcome (Device × Bool)
wait_slot timeout_ms replies (dev, none) = returned (dev, false)
wait_slot timeout_ms replies (dev, some (i, slot)) =
    strela_job_update dev i slot timeout_ms replies >>= λ (dev', slot').
    returned (dev', strela_dev_ok dev' && is_finished slot'.phase)

unfoldable pub strela_job_wait : Device → JobHandle → ℤ → UpdateReplies → Outcome (Device × Bool)
unfolding wait_slot
strela_job_wait dev job timeout_ms replies =
    strela_job_slot_get dev job started >>= wait_slot timeout_ms replies

fence_of : Device × Option SlotAt → Outcome (Device × ℤ)
fence_of (dev, none) = returned (dev, minus_one)
fence_of (dev, some (i, slot)) = returned (dev, slot.fence_fd)

unfoldable pub strela_job_fd : Device → JobHandle → Outcome (Device × ℤ)
unfolding fence_of
strela_job_fd dev job = strela_job_slot_get dev job started >>= fence_of
