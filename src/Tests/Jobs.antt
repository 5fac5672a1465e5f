-- ===== src/Tests/Jobs.antt =====
-- Jobs of a device in use.
use strela_pynq.Base.{◌≡◌, refl, arith, returned, aborted, ◌>>=◌, [], ◌∷◌, pos, minus_one, true}
use strela_pynq.Device.{
  Device, JobHandle, finished, JobSlot, done, fail, strela_dev_ok, strela_dev_reset_err, submit_job,
  export_fence, poll_fence, fence_info, close_fd, syncobj_destroy,
}
use strela_pynq.Job.{zeroed_slot, zeroed_submit, released_slot}
use strela_pynq.Job.Run.{ok, strela_job_submit, strela_job_free, UpdateReplies}
use strela_pynq.Job.Run.Operations.{submit}
use strela_pynq.Job.Run.Lifecycle.{Holds, again, run_job, strela_job_poll-strela_job_submit}
use strela_pynq.Job.Run.Execute.{
  strela_execute, strela_execute-finished, strela_execute-interrupted,
}
use strela_pynq.Job.Run.StaleFence.{strela_job_free-stale_fence}
use strela_pynq.Tests.Buffers.{in_use}

abbrev ended : JobSlot
ended = record {
  phase = finished;
  submit = record zeroed_submit { out_syncobj = 9 };
  fence_fd = pos 5;
  status = pos 1;
}

-- A free slot and a done job.
abbrev with_job : Device
with_job = record in_use { jobs = zeroed_slot ∷ ended ∷ [] }

abbrev second : JobHandle
second = record { valid = true; handle = 1 }

with_job_fit : strela_dev_ok with_job ≡ true
unfolding strela_dev_ok
with_job_fit = refl

with_job-Holds : Holds with_job second ended
with_job-Holds = record { fit = with_job_fit; valid = refl; below = omega arith; at = refl }

abbrev idle_replies : UpdateReplies
idle_replies = record { poll = done 0; info = fail 0 }

strela_job_poll-strela_job_submit_example :
    run_job with_job second
      (record { submit = done tt; close = done tt; export = done 6 })
      minus_one
      (record { poll = done 1; info = done (pos 1) })
      idle_replies
    ≡ returned (
      record with_job {
        jobs = zeroed_slot ∷ record ended { fence_fd = pos 6 } ∷ [];
        calls =
            fence_info (pos 6)
            ∷ poll_fence (pos 6) minus_one
            ∷ export_fence 9
            ∷ close_fd (pos 5)
            ∷ submit_job ended.submit
            ∷ [];
      },
      true,
      true,
      ok,
    )
strela_job_poll-strela_job_submit_example =
    strela_job_poll-strela_job_submit with_job second ended 6 0 minus_one (pos 1) idle_replies
      with_job-Holds (omega arith) again

strela_job_free-stale_fence_example :
    (strela_job_submit with_job second
        (record { submit = done tt; close = done tt; export = fail 24 })
      >>= λ (dev', _).
          strela_job_free
            (strela_dev_reset_err dev')
            second
            (record { wait = done tt; close = done tt; destroy = done tt }))
    ≡ returned (record with_job {
      jobs = zeroed_slot ∷ released_slot ∷ [];
      calls =
          syncobj_destroy 9
          ∷ close_fd (pos 5)
          ∷ poll_fence (pos 5) minus_one
          ∷ export_fence 9
          ∷ close_fd (pos 5)
          ∷ submit_job ended.submit
          ∷ [];
    })
strela_job_free-stale_fence_example =
    strela_job_free-stale_fence with_job second ended 5 24 with_job-Holds (omega arith) refl refl
      (λ e. omega arith)

-- The device with the done job as the one that `strela_config` made.
abbrev with_old_job : Device
with_old_job = record with_job { backward_compat_job = second }

with_old_job-Holds : Holds with_old_job second ended
unfolding strela_dev_ok
with_old_job-Holds = record { fit = refl; valid = refl; below = omega arith; at = refl }

strela_execute-finished_example :
    strela_execute with_old_job
      (record { submit = done tt; close = done tt; export = done 6 })
      (record { poll = done 1; info = done (pos 1) })
      idle_replies
    ≡ returned (
      record with_old_job {
        jobs = zeroed_slot ∷ record ended { fence_fd = pos 6 } ∷ [];
        calls =
            fence_info (pos 6)
            ∷ poll_fence (pos 6) (pos 2000)
            ∷ export_fence 9
            ∷ close_fd (pos 5)
            ∷ submit_job ended.submit
            ∷ [];
      },
      ok,
    )
strela_execute-finished_example =
    strela_execute-finished with_old_job ended 6 with_old_job-Holds (omega arith) again 0 (pos 1)
      idle_replies

strela_execute-interrupted_example :
    strela_execute with_old_job
      (record { submit = done tt; close = done tt; export = done 6 })
      (record { poll = fail 4; info = fail 0 })
      idle_replies
    ≡ aborted
strela_execute-interrupted_example =
    strela_execute-interrupted with_old_job ended 6 with_old_job-Holds (omega arith) again (fail 0)
      (fail 0)
