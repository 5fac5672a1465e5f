-- ===== src/Job.antt =====
-- The library's jobs (lib/strela.c, the job submodule). A slot goes from free to configured to
-- submitted to done; the descriptor of its fence and its sync object belong to the slot. Where C
-- passes a pointer to a slot, the model passes the slot's number.
pub mod FreeAll
pub mod Run
pub mod Status
use strela_pynq.Base.{
  ℕ, zero, suc, ◌+◌, ◌*◌, ◌==◌, leb, ltb, Bool, true, false, not, ◌&&◌, ◌||◌, List, [], ◌∷◌, Option,
  none, some, ℤ, pos, negsuc, minus_one, is_minus_one, is_zero, is_positive, if◌then◌else◌,
  get_elem?, set, length, u32, Outcome, returned, aborted, out_of_fuel, ◌>>=◌, bit_and, bit_or, ◌^◌,
  ◌%◌,
}
use strela_pynq.Uapi.{Submit, Binding, StridedBinding}
use strela_pynq.Device.{
  Reply, done, fail, KernelHandle, JobHandle, no_job, JobPhase, free, configured, submitted,
  finished, JobSlot, Call, syncobj_create, syncobj_destroy, syncobj_wait, submit_job, export_fence,
  poll_fence, fence_info, close_fd, Device, bad_arg, no_mem, strela_kernel_size, kernel_count,
  jobs_max, strela_dev_ok, set_err, log_call,
}

abbrev pub no_binding : Binding
no_binding = record { handle = 0; offset = 0; count = 0 }

abbrev pub no_strided : StridedBinding
no_strided = record { handle = 0; offset = 0; count = 0; stride = 0 }

-- memset(slot, 0, sizeof *slot)
abbrev pub zeroed_submit : Submit
zeroed_submit = record {
  config = no_binding;
  inputs = no_strided ∷ no_strided ∷ no_strided ∷ no_strided ∷ [];
  outputs = no_binding ∷ no_binding ∷ no_binding ∷ no_binding ∷ [];
  out_syncobj = 0;
  flags = 0;
  in_syncobj = 0;
  pad = 0;
}

abbrev pub zeroed_slot : JobSlot
zeroed_slot = record { phase = free; submit = zeroed_submit; fence_fd = pos 0; status = pos 0 }

-- memset(dev->jobs, 0, sizeof dev->jobs)
abbrev pub zeroed_slots : ℕ → List JobSlot
zeroed_slots zero = []
zeroed_slots (suc n) = zeroed_slot ∷ zeroed_slots n

abbrev pub released_slot : JobSlot
released_slot = record zeroed_slot { fence_fd = minus_one }

-- The enumerators' values.
abbrev pub phase_number : JobPhase → ℕ
phase_number free = 0
phase_number configured = 1
phase_number submitted = 2
phase_number finished = 3

abbrev pub is_free : JobPhase → Bool
is_free free = true
is_free configured = false
is_free submitted = false
is_free finished = false

abbrev pub is_submitted : JobPhase → Bool
is_submitted submitted = true
is_submitted free = false
is_submitted configured = false
is_submitted finished = false

abbrev pub is_finished : JobPhase → Bool
is_finished finished = true
is_finished free = false
is_finished configured = false
is_finished submitted = false

unfoldable pub phase_singleton : JobPhase → ℕ
phase_singleton phase = 2 ^ phase_number phase

-- True when `phase` is not in the set.
unfoldable pub phase_is_in : JobPhase → ℕ → Bool
phase_is_in phase bit_set = bit_and (phase_singleton phase) bit_set == 0

-- `dev->jobs[i] = slot`
abbrev pub put_slot : Device → ℕ → JobSlot → Device
put_slot dev i slot = record dev { jobs = set dev.jobs i slot }

-- What the calls of `strela_job_slot_finish` and `strela_job_slot_release` answer.
pub record ReleaseReplies : Type 0 where
  pub wait : Reply (Unit {0})
  pub close : Reply (Unit {0})
  pub destroy : Reply (Unit {0})

abbrev pub or_abort {ℓ} : {A : Type ℓ} → Reply (Unit {0}) → A → Outcome A
or_abort (done _) a = returned a
or_abort (fail _) a = aborted

-- Waits for a submitted job, by its fence or, where it has none, by its sync object.
unfoldable pub strela_job_slot_finish :
    Device → JobSlot → ReleaseReplies → Outcome (Device × JobSlot)
strela_job_slot_finish dev slot replies =
    if is_submitted slot.phase
    then or_abort replies.wait (
      log_call dev (
          if is_minus_one slot.fence_fd
          then syncobj_wait slot.submit.out_syncobj
          else poll_fence slot.fence_fd minus_one),
      record slot { phase = finished },
    )
    else returned (dev, slot)

pub close_fence : Device → JobSlot → ReleaseReplies → Outcome Device
close_fence dev slot replies =
    if is_minus_one slot.fence_fd
    then returned dev
    else or_abort replies.close (log_call dev (close_fd slot.fence_fd))

pub destroy_syncobj : Device → JobSlot → ReleaseReplies → Outcome Device
destroy_syncobj dev slot replies =
    if slot.submit.out_syncobj == 0
    then returned dev
    else or_abort replies.destroy (log_call dev (syncobj_destroy slot.submit.out_syncobj))

-- Behind the assertion that the device is initialised.
unfoldable pub strela_job_slot_release : Device → ℕ → JobSlot → ReleaseReplies → Outcome Device
unfolding close_fence destroy_syncobj
strela_job_slot_release dev i slot replies =
    if dev.initialized
    then (strela_job_slot_finish dev slot replies >>= λ (dev', slot').
        if is_free slot'.phase
        then returned dev'
        else (close_fence dev' slot' replies >>= λ dev₁.
            destroy_syncobj dev₁ slot' replies >>= λ dev₂.
            returned (put_slot dev₂ i released_slot)))
    else aborted

-- The loop of `strela_job_free_all` over the slots from `i` on; `replies` answers each slot.
free_all_loop : (slots : List JobSlot) → ℕ → Device → (ℕ → ReleaseReplies) → Outcome Device
free_all_loop [] i dev replies = returned dev
free_all_loop (slot ∷ slots) i dev replies =
    strela_job_slot_release dev i slot (replies i) >>= λ dev'.
    free_all_loop slots (i + 1) dev' replies

unfoldable pub strela_job_free_all : Device → (ℕ → ReleaseReplies) → Outcome Device
unfolding free_all_loop
strela_job_free_all dev replies =
    if strela_dev_ok dev then free_all_loop dev.jobs 0 dev replies else returned dev

-- strela_conf: one entry for each column. Every field is a `size_t`.
pub record InputConf : Type 0 where
  pub offset : ℕ
  pub count : ℕ
  pub stride : ℕ

pub record OutputConf : Type 0 where
  pub offset : ℕ
  pub count : ℕ

pub record Conf : Type 0 where
  pub inp0 : InputConf
  pub inp1 : InputConf
  pub inp2 : InputConf
  pub inp3 : InputConf
  pub out0 : OutputConf
  pub out1 : OutputConf
  pub out2 : OutputConf
  pub out3 : OutputConf

-- The initialisers narrow each `size_t` to the `__u32` of the request.
abbrev pub input_binding : ℕ → InputConf → StridedBinding
input_binding tensors c = record {
  handle = tensors;
  offset = u32 c.offset;
  count = u32 c.count;
  stride = u32 c.stride;
}

abbrev pub output_binding : ℕ → OutputConf → Binding
output_binding tensors c = record { handle = tensors; offset = u32 c.offset; count = u32 c.count }

unfoldable pub job_request : Device → KernelHandle → Conf → ℕ → Submit
job_request dev kernel conf syncobj =
    let tensors = dev.tensors_bo_handle in
    record {
      config = record {
        handle = dev.kernels_bo_handle;
        offset = u32 (kernel.handle * strela_kernel_size);
        count = strela_kernel_size;
      };
      inputs =
          input_binding tensors conf.inp0
          ∷ input_binding tensors conf.inp1
          ∷ input_binding tensors conf.inp2
          ∷ input_binding tensors conf.inp3
          ∷ [];
      outputs =
          output_binding tensors conf.out0
          ∷ output_binding tensors conf.out1
          ∷ output_binding tensors conf.out2
          ∷ output_binding tensors conf.out3
          ∷ [];
      out_syncobj = syncobj;
      flags = 0;
      in_syncobj = 0;
      pad = 0;
    }

-- The search of `strela_job_config`, from slot `i` on.
pub first_free : List JobSlot → ℕ → Option ℕ
first_free [] i = none
first_free (slot ∷ slots) i = if is_free slot.phase then some i else first_free slots (i + 1)

abbrev pub is_none {ℓ} : {A : Type ℓ} → Option A → Bool
is_none none = true
is_none (some a) = false

-- `handle >= 128` is the library's own bound on kernels.
abbrev pub is_bad_kernel : KernelHandle → Bool
is_bad_kernel kernel = not kernel.valid || leb kernel_count kernel.handle

abbrev pub check_kernel : Device → KernelHandle → Device
check_kernel dev kernel =
    if strela_dev_ok dev && is_bad_kernel kernel then set_err dev bad_arg else dev

abbrev pub reply_or {ℓ} : {A : Type 0} {B : Type ℓ} → Reply A → (A → B) → (ℕ → B) → B
reply_or (done a) f g = f a
reply_or (fail e) f g = g e

-- The last part of `strela_job_config`, with the device as the checks leave it.
config_slot :
    Device
    → KernelHandle
    → Conf
    → Option ℕ
    → Reply ℕ
    → ReleaseReplies
    → Outcome (Device × JobHandle)
config_slot dev kernel conf none create replies =
    if strela_dev_ok dev then aborted else returned (dev, no_job)
config_slot dev kernel conf (some i) create replies =
    if strela_dev_ok dev
    then returned (
      put_slot dev i (record {
        phase = configured;
        submit = job_request dev kernel conf (reply_or create (λ h. h) (λ _. 0));
        fence_fd = minus_one;
        status = elim (get_elem? dev.jobs i) [ none ↦ pos 0 | some slot ↦ slot.status ];
      }),
      record { valid = true; handle = i },
    )
    else elim (get_elem? dev.jobs i) [
      | none ↦ aborted
      | some slot ↦ strela_job_slot_release dev i slot replies >>= λ dev'. returned (dev', no_job)
    ]

unfoldable pub strela_job_config :
    Device → KernelHandle → Conf → Reply ℕ → ReleaseReplies → Outcome (Device × JobHandle)
unfolding first_free config_slot
strela_job_config dev kernel conf create replies =
    let dev₁ = check_kernel dev kernel in
    let job = if strela_dev_ok dev₁ then first_free dev₁.jobs 0 else none in
    let dev₂ = if strela_dev_ok dev₁ && is_none job then set_err dev₁ no_mem else dev₁ in
    let dev₃ =
      if strela_dev_ok dev₂
      then reply_or create (λ _. log_call dev₂ syncobj_create)
          (λ e. set_err (log_call dev₂ syncobj_create) (pos e))
      else dev₂ in
    config_slot dev₃ kernel conf job create replies
