-- ===== src/Job/Run/Operations.antt =====
-- Every operation on jobs, as one step of the phases.
use strela_pynq.Base.{ℕ, ◌+◌, ◌≡◌, List, Option, none, some, ℤ, get_elem?, Outcome, returned, ◌>>=◌}
use strela_pynq.Device.{Reply, KernelHandle, JobHandle, free, JobSlot, Device}
use strela_pynq.Job.{Conf, ReleaseReplies, strela_job_config, strela_job_free_all}
use strela_pynq.Job.Run.Release.{AllReleased}
use strela_pynq.Job.Run.{
  SubmitReplies, UpdateReplies, strela_job_free, strela_job_submit, strela_job_poll,
  strela_job_wait,
}
use strela_pynq.Job.Run.Edges.{MovesTo}

-- What the search for a free slot from number `n` on finds.
abbrev IsFreeAt : List JobSlot → ℕ → Option ℕ → Type 0
IsFreeAt js n none = Unit {0}
IsFreeAt js n (some k) =
    (j : ℕ) × (k ≡ n + j) × (slot : JobSlot) × (get_elem? js j ≡ some slot) × (slot.phase ≡ free)

-- The calls of the job submodule, each with its arguments and its system calls' replies.
pub data JobCall : Type 0 where
  config : KernelHandle → Conf → Reply ℕ → ReleaseReplies → JobCall
  drop : JobHandle → ReleaseReplies → JobCall
  submit : JobHandle → SubmitReplies → JobCall
  poll : JobHandle → UpdateReplies → JobCall
  wait : JobHandle → ℤ → UpdateReplies → JobCall
  drop_all : (ℕ → ReleaseReplies) → JobCall

-- The device that a call leaves.
abbrev pub device_of : {A : Type 0} → Outcome (Device × A) → Outcome Device
device_of m = m >>= λ r. returned r.0

unfoldable pub run_call : Device → JobCall → Outcome Device
run_call dev (config k c create rs) = device_of (strela_job_config dev k c create rs)
run_call dev (drop j rs) = strela_job_free dev j rs
run_call dev (submit j rs) = device_of (strela_job_submit dev j rs)
run_call dev (poll j rs) = device_of (strela_job_poll dev j rs)
run_call dev (wait j t rs) = device_of (strela_job_wait dev j t rs)
run_call dev (drop_all rs) = strela_job_free_all dev rs

-- What a call may do to the slots.
abbrev pub Effect : JobCall → Device → Device → Type 0
Effect (config k c create rs) = MovesTo
Effect (drop j rs) = MovesTo
Effect (submit j rs) = MovesTo
Effect (poll j rs) = MovesTo
Effect (wait j t rs) = MovesTo
Effect (drop_all rs) = AllReleased
