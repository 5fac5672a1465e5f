-- ===== src/Job/Run/Edges.antt =====
-- The phases of a job slot: every operation on jobs moves at most one slot, along one edge.
use strela_pynq.Base.{
  ℕ, ◌≡◌, refl, sym, true, false, not, ◌||◌, inl, inr, List, Option, none, some, ℤ, pos, arith,
  get_elem?, set, Outcome, returned, aborted, out_of_fuel, ◌>>=◌, ◌==◌, leb, Bool-cases, if-either,
  subst, is_minus_one,
}
use strela_pynq.Device.{
  log_call, poll_fence, export_fence, set_err, Reply, done, fail, JobHandle, JobPhase, free,
  configured, submitted, finished, JobSlot, Device, strela_dev_ok,
}
use strela_pynq.Job.{
  ReleaseReplies, is_free, is_submitted, is_finished, strela_job_slot_finish, phase_number,
  reply_or, strela_job_slot_release, put_slot, released_slot, close_fence, destroy_syncobj,
  or_abort, phase_is_in, phase_singleton,
}
use strela_pynq.Job.Run.{
  SubmitReplies, UpdateReplies, SlotAt, strela_job_slot_get, strela_job_update, export_new_fence,
  slot_in_phase, read_status, poll_submitted, startable, eintr,
}

pub data Edge : JobPhase → JobPhase → Type 0 where
  configure : Edge free configured
  submit : Edge configured submitted
  resubmit : Edge finished submitted
  finish : Edge submitted finished
  release : {p : JobPhase} → Edge p free

-- The slots before and after: none has changed, or one has, along an edge.
pub data Moves (js : List JobSlot) : List JobSlot → Type 0 where
  kept : Moves js js
  moved :
      (i : ℕ) (s s' : JobSlot)
      → get_elem? js i ≡ some s
      → Edge s.phase s'.phase
      → Moves js (set js i s')

-- What a call that returns satisfies.
pub data Post {ℓ} {A : Type ℓ} (P : A → Type 0) : Outcome A → Type ℓ where
  returns : {a : A} → P a → Post P (returned a)
  aborts : Post P aborted
  runs_out : Post P out_of_fuel

pub Post-bind {ℓ κ} :
    {A : Type ℓ} {B : Type κ} {P : A → Type 0} {Q : B → Type 0} {m : Outcome A} {f : A → Outcome B}
    → Post P m
    → ((a : A) → P a → Post Q (f a))
    → Post Q (m >>= f)
Post-bind (returns p) next = next _ p
Post-bind aborts next = aborts
Post-bind runs_out next = runs_out

-- What `strela_job_slot_get` hands on: the device's slots as they were, and a slot of the device
-- in one of the phases asked for.
abbrev pub IsGot : Device → ℕ → Device × Option SlotAt → Type 0
IsGot dev phases (dev', none) = dev'.jobs ≡ dev.jobs
IsGot dev phases (dev', some (i, slot)) =
    (dev' ≡ dev) × (get_elem? dev.jobs i ≡ some slot) × (phase_is_in slot.phase phases ≡ false)

slot_in_phase-IsGot :
    (dev : Device) (i phases : ℕ) (o : Option JobSlot)
    → get_elem? dev.jobs i ≡ o
    → Post (IsGot dev phases) (slot_in_phase dev i phases o)
unfolding slot_in_phase
slot_in_phase-IsGot dev i phases none at = aborts
slot_in_phase-IsGot dev i phases (some slot) at =
    elim (Bool-cases (phase_is_in slot.phase phases)) [
      | inl out ↦ rw out (returns refl)
      | inr within ↦ rw within (returns (refl, at, within))
    ]

pub slot_get-IsGot :
    (dev : Device) (j : JobHandle) (phases : ℕ)
    → Post (IsGot dev phases) (strela_job_slot_get dev j phases)
unfolding strela_job_slot_get
slot_get-IsGot dev j phases =
    if-either (Post (IsGot dev phases)) (strela_dev_ok dev) _ _
      (if-either (Post (IsGot dev phases)) (not j.valid || leb 16 j.handle) _ _ (returns refl)
        (slot_in_phase-IsGot dev j.handle phases (get_elem? dev.jobs j.handle) refl))
      (returns refl)

abbrev pub SameSlots : Device → Device → Type 0
SameSlots dev dev' = dev'.jobs ≡ dev.jobs

abbrev pub MovesTo : Device → Device → Type 0
MovesTo dev dev' = Moves dev.jobs dev'.jobs

pub or_abort-Post {ℓ} :
    {A : Type ℓ} (P : A → Type 0) (r : Reply (Unit {0})) (a : A) → P a → Post P (or_abort r a)
or_abort-Post P (done _) a p = returns p
or_abort-Post P (fail _) a p = aborts

pub kept_of : (js js' : List JobSlot) → js' ≡ js → Moves js js'
kept_of js js' same = subst (Moves js) (sym same) kept

module _ (dev : Device) (i : ℕ) (slot : JobSlot) (at : get_elem? dev.jobs i ≡ some slot) where
  -- Filling the slot's place in a list of the same slots is one move.
  pub set-Moves :
      (js : List JobSlot) (slot' : JobSlot)
      → js ≡ dev.jobs
      → Edge slot.phase slot'.phase
      → Moves dev.jobs (set js i slot')
  set-Moves js slot' same edge =
      subst (λ js. Moves dev.jobs (set js i slot')) (sym same) (moved i slot slot' at edge)

  finish-SameSlots :
      (rs : ReleaseReplies)
      → Post (λ (r : Device × JobSlot). SameSlots dev r.0) (strela_job_slot_finish dev slot rs)
  unfolding strela_job_slot_finish
  finish-SameSlots rs =
      if-either (Post (λ (r : Device × JobSlot). SameSlots dev r.0)) (is_submitted slot.phase) _ _
        (or_abort-Post _ rs.wait _ refl) (returns refl)

  pub close_fence-SameSlots :
      (dev' : Device) (slot' : JobSlot) (rs : ReleaseReplies)
      → SameSlots dev dev'
      → Post (SameSlots dev) (close_fence dev' slot' rs)
  unfolding close_fence
  close_fence-SameSlots dev' slot' rs same =
      if-either (Post (SameSlots dev)) (is_minus_one slot'.fence_fd) _ _ (returns same)
        (or_abort-Post (SameSlots dev) rs.close _ same)

  pub destroy_syncobj-SameSlots :
      (dev' : Device) (slot' : JobSlot) (rs : ReleaseReplies)
      → SameSlots dev dev'
      → Post (SameSlots dev) (destroy_syncobj dev' slot' rs)
  unfolding destroy_syncobj
  destroy_syncobj-SameSlots dev' slot' rs same =
      if-either (Post (SameSlots dev)) (slot'.submit.out_syncobj == 0) _ _ (returns same)
        (or_abort-Post (SameSlots dev) rs.destroy _ same)

  pub release-MovesTo :
      (rs : ReleaseReplies) → Post (MovesTo dev) (strela_job_slot_release dev i slot rs)
  unfolding strela_job_slot_release
  release-MovesTo rs =
      if-either (Post (MovesTo dev)) dev.initialized _ _
        (Post-bind (finish-SameSlots rs) λ (dev', slot') same.
          if-either (Post (MovesTo dev)) (is_free slot'.phase) _ _
            (returns (kept_of dev.jobs dev'.jobs same))
            (Post-bind (close_fence-SameSlots dev' slot' rs same) λ dev₁ same₁.
              Post-bind (destroy_syncobj-SameSlots dev₁ slot' rs same₁)
                λ dev₂ same₂. returns (set-Moves dev₂.jobs released_slot same₂ release)))
        aborts

  read_status-MovesTo :
      (dev' : Device) (info : Reply ℤ)
      → SameSlots dev dev'
      → slot.phase ≡ submitted
      → MovesTo dev (read_status dev' i slot info).0
  unfolding read_status
  read_status-MovesTo dev' (done status) same h =
      set-Moves dev'.jobs (record slot { status = status; phase = finished }) same
        (subst (λ p. Edge p finished) (sym h) finish)
  read_status-MovesTo dev' (fail e) same h = kept_of dev.jobs dev'.jobs same

  poll_submitted-MovesTo :
      (t : ℤ) (rs : UpdateReplies)
      → slot.phase ≡ submitted
      → MovesTo dev (poll_submitted dev i slot t rs).0
  unfolding poll_submitted
  poll_submitted-MovesTo t rs h = polled rs.poll
    where
      asked : Device
      asked = log_call dev (poll_fence slot.fence_fd t)

      polled :
          (r : Reply ℕ)
          → MovesTo dev (poll_submitted dev i slot t (record { poll = r; info = rs.info })).0
      polled (done ready) =
          if-either (λ (r : Device × JobSlot). MovesTo dev r.0) (ready == 0) _ _ kept
            (read_status-MovesTo asked rs.info refl h)
      polled (fail e) =
          if-either (λ (r : Device × JobSlot). MovesTo dev r.0) (e == eintr) _ _ kept kept

  past_configured :
      (p : JobPhase) → leb 2 (phase_number p) ≡ true → is_finished p ≡ false → p ≡ submitted
  past_configured p h k = ground arith

  pub update-MovesTo :
      (t : ℤ) (rs : UpdateReplies)
      → Post (λ (r : Device × JobSlot). MovesTo dev r.0) (strela_job_update dev i slot t rs)
  unfolding strela_job_update
  update-MovesTo t rs = elim (Bool-cases (leb 2 (phase_number slot.phase))) [
    | inr early ↦ rw early aborts
    | inl late ↦ rw late (elim (Bool-cases (is_finished slot.phase)) [
      | inl over ↦ rw over (returns kept)
      | inr open_still ↦
          rw open_still
            (returns (poll_submitted-MovesTo t rs (past_configured slot.phase late open_still)))
    ])
  ]

  pub startable_phase : (p : JobPhase) → phase_is_in p startable ≡ false → Edge p submitted
  unfolding phase_is_in phase_singleton
  startable_phase free h = cc
  startable_phase configured h = submit
  startable_phase submitted h = cc
  startable_phase finished h = resubmit

  exported-MovesTo :
      (dev' : Device) (r : Reply ℕ)
      → SameSlots dev dev'
      → Edge slot.phase submitted
      → Post (MovesTo dev) (
          reply_or r
            (λ fd.
              returned (put_slot dev' i (record slot { phase = submitted; fence_fd = pos fd })))
            (λ e. returned (set_err (put_slot dev' i (record slot { phase = submitted })) (pos e))))
  exported-MovesTo dev' (done fd) same edge = returns (set-Moves dev'.jobs _ same edge)
  exported-MovesTo dev' (fail e) same edge = returns (set-Moves dev'.jobs _ same edge)

  pub export-MovesTo :
      (dev' : Device) (rs : SubmitReplies)
      → SameSlots dev dev'
      → Edge slot.phase submitted
      → Post (MovesTo dev) (export_new_fence dev' i slot rs)
  unfolding export_new_fence
  export-MovesTo dev' rs same edge =
      Post-bind {P = SameSlots dev}
        (if-either (Post (SameSlots dev)) (is_finished slot.phase) _ _
          (or_abort-Post (SameSlots dev) rs.close _ same) (returns same))
        λ dev₁ same₁.
          exported-MovesTo (log_call dev₁ (export_fence slot.submit.out_syncobj)) rs.export same₁
            edge
