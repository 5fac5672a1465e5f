-- ===== src/Driver/Submit.antt =====
-- The submission of a job and its end (driver/strela_job.c, `strela_strided_binding_get` to
-- `strela_submit_ioctl`, `strela_job_put_bindings` and `strela_free_job`). The state counts what
-- the driver has taken and not yet given back: references on buffer objects, by the object's
-- number, the memory of jobs, their hardware fences and their scheduler halves. What the scheduler
-- and the sync objects answer is an argument. The reference that `drm_syncobj_find` takes is dropped
-- on the one path that has it.
pub mod Refs
pub mod Settle
use strela_pynq.Base.{
  ℕ, ◌+◌, ◌-◌, ◌^◌, ◌==◌, Bool, true, false, not, ◌||◌, List, [], ◌∷◌, Option, none, some,
  if◌then◌else◌, w64, bit_and,
}
use strela_pynq.Uapi.{Submit, Binding, StridedBinding, submit_wait_syncobj}
use strela_pynq.Driver.Binding.{Errno, einval, enoent, enomem, strela_binding_check}

-- A buffer object that a handle of the client names.
pub record Object : Type 0 where
  pub number : ℕ
  pub size : ℕ

-- strela_binding: no object is NULL.
pub record BoundTo : Type 0 where
  pub obj : Option ℕ
  pub offset : ℕ
  pub count : ℕ

pub record BoundColumn : Type 0 where
  pub input : BoundTo
  pub stride : ℕ
  pub output : BoundTo

-- strela_job, known by the number of its fence.
pub record QueuedJob : Type 0 where
  pub seqno : ℕ
  pub config : BoundTo
  pub columns : List BoundColumn

abbrev pub Refs : Type 0
Refs = ℕ → ℕ

-- `pushed` are the jobs handed to the scheduler, `out_fences` the sync objects given a job's
-- fence, both the latest first.
pub record Submits : Type 0 where
  pub refs : Refs
  pub job_memory : ℕ
  pub hw_fences : ℕ
  pub sched_jobs : ℕ
  pub fence_seqno : ℕ
  pub pushed : List QueuedJob
  pub out_fences : List (ℕ × ℕ)

abbrev pub unbound : BoundTo
unbound = record { obj = none; offset = 0; count = 0 }

abbrev pub unbound_column : BoundColumn
unbound_column = record { input = unbound; stride = 0; output = unbound }

-- After a `drm_gem_object_lookup` that finds the object, the driver has one more reference to put.
unfoldable pub obj_get : ℕ → Refs → Refs
obj_get n refs j = if j == n then refs j + 1 else refs j

-- After a `drm_gem_object_put` it has one less, unless the object is NULL.
unfoldable pub obj_put : Option ℕ → Refs → Refs
obj_put none refs j = refs j
obj_put (some n) refs j = if j == n then refs j - 1 else refs j

-- A return value, 0 being none, the references, and what was written.
pub record Got (A : Type 0) : Type 0 where
  pub ret : Option Errno
  pub refs : Refs
  pub value : A

check_object : StridedBinding → Object → Refs → Option Errno → Got BoundTo
check_object src o refs (some e) = record {
  ret = some e;
  refs = obj_put (some o.number) refs;
  value = unbound;
}
check_object src o refs none = record {
  ret = none;
  refs = refs;
  value = record { obj = some o.number; offset = src.offset; count = src.count };
}

bind_object : StridedBinding → Refs → Option Object → Got BoundTo
bind_object src refs none = record { ret = some enoent; refs = refs; value = unbound }
bind_object src refs (some o) =
    check_object src o (obj_get o.number refs) (strela_binding_check o.size src)

-- The job is zeroed memory, so a binding that is not got stays unbound.
unfoldable pub strela_strided_binding_get :
    (ℕ → Option Object) → StridedBinding → Refs → Got BoundTo
unfolding bind_object check_object
strela_strided_binding_get objects src refs = bind_object src refs (objects src.handle)

abbrev pub stride_one : Binding → StridedBinding
stride_one src = record { handle = src.handle; offset = src.offset; count = src.count; stride = 1 }

unfoldable pub strela_binding_get : (ℕ → Option Object) → Binding → Refs → Got BoundTo
strela_binding_get objects src refs = strela_strided_binding_get objects (stride_one src) refs

abbrev pub unbound_columns : List StridedBinding → List BoundColumn
unbound_columns [] = []
unbound_columns (i ∷ is) = unbound_column ∷ unbound_columns is

-- One turn of the loop, by what the output's binding and the input's returned; `rest` are the
-- columns behind it.
column_output :
    StridedBinding
    → List StridedBinding
    → BoundTo
    → Option Errno
    → Refs
    → BoundTo
    → Got (List BoundColumn)
    → Got (List BoundColumn)
column_output i is input (some e) refs output rest = record {
  ret = some e;
  refs = refs;
  value = record { input = input; stride = i.stride; output = output } ∷ unbound_columns is;
}
column_output i is input none refs output rest = record {
  ret = rest.ret;
  refs = rest.refs;
  value = record { input = input; stride = i.stride; output = output } ∷ rest.value;
}

column_input :
    List StridedBinding
    → Option Errno
    → Refs
    → BoundTo
    → Got (List BoundColumn)
    → Got (List BoundColumn)
column_input is (some e) refs input rest = record {
  ret = some e;
  refs = refs;
  value = record unbound_column { input = input } ∷ unbound_columns is;
}
column_input is none refs input rest = rest

-- The loop over the columns; a request has as many inputs as outputs.
pub get_columns :
    (ℕ → Option Object) → List StridedBinding → List Binding → Refs → Got (List BoundColumn)
get_columns objects [] outs refs = record { ret = none; refs = refs; value = [] }
get_columns objects (i ∷ is) [] refs = record { ret = none; refs = refs; value = [] }
get_columns objects (i ∷ is) (o ∷ os) refs =
    let input = strela_strided_binding_get objects i refs in
    let output = strela_binding_get objects o input.refs in
    let rest = get_columns objects is os output.refs in
    column_input is input.ret input.refs input.value
      (column_output i is input.value output.ret output.refs output.value rest)

put_columns : List BoundColumn → Refs → Refs
put_columns [] refs = refs
put_columns (c ∷ cs) refs = put_columns cs (obj_put c.output.obj (obj_put c.input.obj refs))

unfoldable pub strela_job_put_bindings : QueuedJob → Refs → Refs
unfolding put_columns
strela_job_put_bindings job refs = put_columns job.columns (obj_put job.config.obj refs)

-- What the layers below answer: whether the two `kzalloc` find memory, the results of
-- `drm_sched_job_init` and `drm_sched_job_add_syncobj_dependency`, and whether there is a sync
-- object to signal.
pub record SubmitAnswers : Type 0 where
  pub has_job_memory : Bool
  pub has_fence_memory : Bool
  pub job_init : Option Errno
  pub dependency : Option Errno
  pub has_out_syncobj : Bool

-- The labels at the end: each also does what follows it.
abbrev pub err_free : Submits → Submits
err_free st = record st { job_memory = st.job_memory - 1 }

abbrev pub err_fence_put : Submits → Submits
err_fence_put st = err_free (record st { hw_fences = st.hw_fences - 1 })

abbrev pub err_cleanup : Submits → QueuedJob → Submits
err_cleanup st job =
    err_fence_put
      (record st { sched_jobs = st.sched_jobs - 1; refs = strela_job_put_bindings job st.refs })

-- The job is armed, its fence given to the sync object, and it is handed to the scheduler.
push_job : Submit → Bool → Submits → QueuedJob → Option Errno × Submits
push_job args true st job = (
  none,
  record st {
    pushed = job ∷ st.pushed;
    out_fences = (args.out_syncobj, job.seqno) ∷ st.out_fences;
  },
)
push_job args false st job = (some enoent, err_cleanup st job)

bound_columns :
    Submit → Bool → Submits → BoundTo → Option Errno → List BoundColumn → Option Errno × Submits
bound_columns args has_syncobj st config (some e) columns =
    (some e, err_cleanup st (record { seqno = st.fence_seqno; config = config; columns = columns }))
bound_columns args has_syncobj st config none columns =
    push_job args has_syncobj st
      (record { seqno = st.fence_seqno; config = config; columns = columns })

bound_config :
    Submit → (ℕ → Option Object) → Bool → Submits → Option Errno → BoundTo → Option Errno × Submits
bound_config args objects has_syncobj st (some e) config = (
  some e,
  err_cleanup st
      (record { seqno = st.fence_seqno; config = config; columns = unbound_columns args.inputs }),
)
bound_config args objects has_syncobj st none config =
    let columns = get_columns objects args.inputs args.outputs st.refs in
    bound_columns args has_syncobj (record st { refs = columns.refs }) config columns.ret
      columns.value

-- From the bindings on, behind the dependency's answer.
bind_job : Submit → (ℕ → Option Object) → Bool → Submits → Option Errno → Option Errno × Submits
bind_job args objects has_syncobj st (some e) = (
  some e,
  err_cleanup st
      (record { seqno = st.fence_seqno; config = unbound; columns = unbound_columns args.inputs }),
)
bind_job args objects has_syncobj st none =
    let config = strela_binding_get objects args.config st.refs in
    bound_config args objects has_syncobj (record st { refs = config.refs }) config.ret config.value

-- Behind the two allocations, by the answer of `drm_sched_job_init`.
init_job :
    Submit → (ℕ → Option Object) → SubmitAnswers → Submits → Option Errno → Option Errno × Submits
init_job args objects answers st (some e) = (some e, err_fence_put st)
init_job args objects answers st none =
    bind_job args objects answers.has_out_syncobj (record st { sched_jobs = st.sched_jobs + 1 })
      (if bit_and args.flags submit_wait_syncobj == 0 then none else answers.dependency)

-- ~DRM_STRELA_SUBMIT_WAIT_SYNCOBJ, at `__u32`.
abbrev pub unknown_flags : ℕ
unknown_flags = 2 ^ 32 - 1 - submit_wait_syncobj

unfoldable pub strela_submit_ioctl :
    Submit → (ℕ → Option Object) → SubmitAnswers → Submits → Option Errno × Submits
unfolding init_job bind_job bound_config bound_columns push_job get_columns column_input
    column_output
strela_submit_ioctl args objects answers st =
    if not (bit_and args.flags unknown_flags == 0) || not (args.pad == 0)
    then (some einval, st)
    else if not answers.has_job_memory
    then (some enomem, st)
    else if not answers.has_fence_memory
    then (some enomem, err_free (record st { job_memory = st.job_memory + 1 }))
    else init_job args objects answers
        (record st {
          job_memory = st.job_memory + 1;
          hw_fences = st.hw_fences + 1;
          fence_seqno = w64 (st.fence_seqno + 1);
        })
        answers.job_init

-- The scheduler's last call for a job.
unfoldable pub strela_free_job : QueuedJob → Submits → Submits
strela_free_job job st = record st {
  sched_jobs = st.sched_jobs - 1;
  refs = strela_job_put_bindings job st.refs;
  hw_fences = st.hw_fences - 1;
  job_memory = st.job_memory - 1;
}
