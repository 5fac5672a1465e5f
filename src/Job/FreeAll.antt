-- ===== src/Job/FreeAll.antt =====
-- Freeing all jobs of a device that has none (lib/strela.c, `strela_job_free_all`).
use strela_pynq.Base.{ℕ, zero, suc, ◌+◌, ◌≡◌, refl, true, returned}
use strela_pynq.Device.{Device, jobs_max, strela_dev_ok}
use strela_pynq.Job.{
  ReleaseReplies, zeroed_slots, free_all_loop, strela_job_slot_release, strela_job_slot_finish,
  strela_job_free_all,
}

-- Releasing slots of zeroed memory does nothing.
free_all_loop-zeroed :
    (n i : ℕ) (dev : Device) (replies : ℕ → ReleaseReplies)
    → dev.initialized ≡ true
    → free_all_loop (zeroed_slots n) i dev replies ≡ returned dev
unfolding free_all_loop strela_job_slot_release strela_job_slot_finish
free_all_loop-zeroed zero i dev replies h = refl
free_all_loop-zeroed (suc n) i dev replies h =
    simp (h, free_all_loop-zeroed n (i + 1) dev replies h) refl

pub job_free_all-zeroed :
    (dev : Device) (replies : ℕ → ReleaseReplies)
    → strela_dev_ok dev ≡ true
    → dev.initialized ≡ true
    → dev.jobs ≡ zeroed_slots jobs_max
    → strela_job_free_all dev replies ≡ returned dev
unfolding strela_job_free_all
job_free_all-zeroed dev replies ok init jobs =
    simp (ok, jobs, free_all_loop-zeroed jobs_max 0 dev replies init) refl
