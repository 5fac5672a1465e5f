-- ===== src/Tests/Submits.antt =====
-- A submission to the driver.
use strela_pynq.Base.{ℕ, ◌≡◌, refl, [], ◌∷◌, Option, none, some, true}
use strela_pynq.Uapi.{Submit, Binding, StridedBinding}
use strela_pynq.Driver.Binding.{strela_binding_check}
use strela_pynq.Driver.Submit.{
  Object, Submits, SubmitAnswers, obj_get, obj_put, strela_strided_binding_get, strela_binding_get,
  strela_submit_ioctl,
}
use strela_pynq.Driver.Submit.Settle.{Settles, strela_submit_ioctl-Settles}

abbrev eight_in : StridedBinding
eight_in = record { handle = 2; offset = 0; count = 8; stride = 1 }

abbrev eight_out : Binding
eight_out = record { handle = 2; offset = 64; count = 8 }

-- Handle 1 is the kernels' object, handle 2 the tensors'.
abbrev request : Submit
request = record {
  config = record { handle = 1; offset = 0; count = 80 };
  inputs = eight_in ∷ eight_in ∷ eight_in ∷ eight_in ∷ [];
  outputs = eight_out ∷ eight_out ∷ eight_out ∷ eight_out ∷ [];
  out_syncobj = 3;
  flags = 0;
  in_syncobj = 0;
  pad = 0;
}

abbrev two_objects : ℕ → Option Object
two_objects h = some (record { number = h; size = 4096 })

abbrev all_well : SubmitAnswers
all_well = record {
  has_job_memory = true;
  has_fence_memory = true;
  job_init = none;
  dependency = none;
  has_out_syncobj = true;
}

abbrev nothing_held : Submits
nothing_held = record {
  refs = λ j. 1;
  job_memory = 0;
  hw_fences = 0;
  sched_jobs = 0;
  fence_seqno = 0;
  pushed = [];
  out_fences = [];
}

-- The request is queued and holds eight references on the tensors' object, besides the handle's.
request_run :
    let (ret, st) = strela_submit_ioctl request two_objects all_well nothing_held in
    (ret ≡ none) × (st.refs 1 ≡ 2) × (st.refs 2 ≡ 9) × (st.out_fences ≡ (3, 1) ∷ [])
unfolding strela_submit_ioctl strela_strided_binding_get strela_binding_get strela_binding_check
    obj_get obj_put
request_run = (refl, refl, refl, refl)

strela_submit_ioctl-Settles_example :
    Settles request two_objects nothing_held
      (strela_submit_ioctl request two_objects all_well nothing_held)
strela_submit_ioctl-Settles_example =
    strela_submit_ioctl-Settles request two_objects all_well nothing_held
