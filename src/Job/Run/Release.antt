-- ===== src/Job/Run/Release.antt =====
-- Freeing all jobs at once (lib/strela.c, `strela_job_free_all`).
use mathlib.Core.List.{append_assoc}
use strela_pynq.Base.{
  ℕ, ◌+◌, ◌≡◌, ◌≢◌, ◌⊎◌, inl, inr, refl, sym, ap, ◌∙◌, subst, arith, true, false, List, [], ◌∷◌,
  ◌++◌, some, get_elem?, set, length, Outcome, Bool-cases, if-either,
}
use strela_pynq.Device.{
  JobPhase, free, configured, submitted, finished, JobSlot, Device, strela_dev_ok,
}
use strela_pynq.Job.{
  ReleaseReplies, is_free, is_submitted, strela_job_slot_finish, strela_job_slot_release,
  released_slot, free_all_loop, strela_job_free_all,
}
use strela_pynq.Job.Run.Edges.{
  Post, returns, aborts, Post-bind, SameSlots, or_abort-Post, close_fence-SameSlots,
  destroy_syncobj-SameSlots,
}

-- Slots before and after: a free one is as it was, any other has been reset.
pub data Cleared : List JobSlot → List JobSlot → Type 0 where
  none_left : Cleared [] []
  still_free :
      {s : JobSlot} {js js' : List JobSlot}
      → s.phase ≡ free
      → Cleared js js'
      → Cleared (s ∷ js) (s ∷ js')
  freed :
      {s : JobSlot} {js js' : List JobSlot}
      → s.phase ≢ free
      → Cleared js js'
      → Cleared (s ∷ js) (released_slot ∷ js')

-- What freeing all jobs does: nothing on a device that is not fit for use.
abbrev pub AllReleased : Device → Device → Type 0
AllReleased dev dev' = ((strela_dev_ok dev ≡ false) × (dev' ≡ dev)) ⊎ Cleared dev.jobs dev'.jobs

free_iff : (p : JobPhase) → (is_free p ≡ true → p ≡ free) × (is_free p ≡ false → p ≢ free)
free_iff free = (λ h. refl, λ h e. cc)
free_iff configured = (λ h. cc, λ h e. cc)
free_iff submitted = (λ h. cc, λ h e. cc)
free_iff finished = (λ h. cc, λ h e. cc)

submitted_not_free : (p : JobPhase) → is_submitted p ≡ true → is_free p ≡ false
submitted_not_free p h = ground arith

Post-map {ℓ} :
    {A : Type ℓ} {P Q : A → Type 0} {m : Outcome A} → Post P m → ((a : A) → P a → Q a) → Post Q m
Post-map (returns p) f = returns (f _ p)
Post-map aborts f = aborts
Post-map Post.runs_out f = Post.runs_out

set-append :
    (before rest : List JobSlot) (s s' : JobSlot)
    → set (before ++ s ∷ rest) (length before) s' ≡ before ++ s' ∷ rest
set-append [] rest s s' = refl
set-append (b ∷ before) rest s s' = ap (λ js. b ∷ js) (set-append before rest s s')

get_elem?-append :
    (before rest : List JobSlot) (s : JobSlot)
    → get_elem? (before ++ s ∷ rest) (length before) ≡ some s
get_elem?-append [] rest s = refl
get_elem?-append (b ∷ before) rest s = get_elem?-append before rest s

length-snoc : (before : List JobSlot) (s : JobSlot) → length (before ++ s ∷ []) ≡ length before + 1
length-snoc [] s = refl
length-snoc (b ∷ before) s = let h = length-snoc before s in omega (arith, h)

-- One slot's release: a free slot stays, any other is reset.
abbrev SlotCleared : Device → ℕ → JobSlot → Device → Type 0
SlotCleared dev i s d =
    ((s.phase ≡ free) × (d.jobs ≡ dev.jobs))
    ⊎ ((s.phase ≢ free) × (d.jobs ≡ set dev.jobs i released_slot))

module _ (dev : Device) (i : ℕ) (slot : JobSlot) (at : get_elem? dev.jobs i ≡ some slot) where
  finish-same_free :
      (rs : ReleaseReplies)
      → Post
          (λ (r : Device × JobSlot). SameSlots dev r.0 × (is_free r.1.phase ≡ is_free slot.phase))
          (strela_job_slot_finish dev slot rs)
  unfolding strela_job_slot_finish
  finish-same_free rs = elim (Bool-cases (is_submitted slot.phase)) [
    | inl sent ↦
        rw sent (or_abort-Post _ rs.wait _ (refl, sym (submitted_not_free slot.phase sent)))
    | inr other ↦ rw other (returns (refl, refl))
  ]

  release-SlotCleared :
      (rs : ReleaseReplies) → Post (SlotCleared dev i slot) (strela_job_slot_release dev i slot rs)
  unfolding strela_job_slot_release
  release-SlotCleared rs =
      if-either (Post (SlotCleared dev i slot)) dev.initialized _ _
        (Post-bind (finish-same_free rs) λ (dev', slot') (same, same_free).
          elim (Bool-cases (is_free slot'.phase)) [
            | inl is ↦ rw is (returns (inl ((free_iff slot.phase).0 (sym same_free ∙ is), same)))
            | inr not_free ↦ rw not_free (
                Post-bind (close_fence-SameSlots dev i slot at dev' slot' rs same) λ dev₁ same₁.
                  Post-bind (destroy_syncobj-SameSlots dev i slot at dev₁ slot' rs same₁)
                    λ dev₂ same₂. returns (
                      inr (
                        (free_iff slot.phase).1 (sym same_free ∙ not_free),
                        ap (λ js. set js i released_slot) same₂,
                      )))
          ])
        aborts

-- What the loop makes of the slots behind `before`.
abbrev LoopClears : (before slots : List JobSlot) → Device → Type 0
LoopClears before slots d =
    (slots' : List JobSlot) × (d.jobs ≡ before ++ slots') × Cleared slots slots'

free_all_loop-Cleared :
    (slots before : List JobSlot) (i : ℕ) (dev : Device) (rs : ℕ → ReleaseReplies)
    → length before ≡ i
    → dev.jobs ≡ before ++ slots
    → Post (LoopClears before slots) (free_all_loop slots i dev rs)
unfolding free_all_loop
free_all_loop-Cleared [] before i dev rs count h = returns ([], h, none_left)
free_all_loop-Cleared (s ∷ slots) before i dev rs count h =
    Post-bind (release-SlotCleared dev i s at (rs i)) λ d c. elim c [
      | inl (is, same) ↦
          go d s (same ∙ h) (λ js' rest. still_free is rest)
            (λ b e. free_all_loop-Cleared slots b (i + 1) d rs e)
      | inr (other, reset) ↦
          go d released_slot (reset ∙ replaced) (λ js' rest. freed other rest)
            (λ b e. free_all_loop-Cleared slots b (i + 1) d rs e)
    ]
  where
    at : get_elem? dev.jobs i ≡ some s
    at = rw h (
        subst (λ n. get_elem? (before ++ s ∷ slots) n ≡ some s) count
          (get_elem?-append before slots s))

    replaced : set dev.jobs i released_slot ≡ before ++ released_slot ∷ slots
    replaced = rw h (
        subst (λ n. set (before ++ s ∷ slots) n released_slot ≡ before ++ released_slot ∷ slots)
          count (set-append before slots s released_slot))

    go :
        (d : Device) (s' : JobSlot)
        → d.jobs ≡ before ++ s' ∷ slots
        → ((js' : List JobSlot) → Cleared slots js' → Cleared (s ∷ slots) (s' ∷ js'))
        → ((b : List JobSlot)
            → length b ≡ i + 1
            → d.jobs ≡ b ++ slots
            → Post (LoopClears b slots) (free_all_loop slots (i + 1) d rs))
        → Post (LoopClears before (s ∷ slots)) (free_all_loop slots (i + 1) d rs)
    go d s' now add rest =
        Post-map
          (rest (before ++ s' ∷ []) (length-snoc before s' ∙ ap (λ (n : ℕ). n + 1) count)
            (now ∙ sym (append_assoc before (s' ∷ []) slots)))
          λ d' (slots', is, cleared).
            (s' ∷ slots', is ∙ append_assoc before (s' ∷ []) slots', add slots' cleared)

-- On a device fit for use that gets through it, every slot is free afterwards.
pub free_all-AllReleased :
    (dev : Device) (rs : ℕ → ReleaseReplies) → Post (AllReleased dev) (strela_job_free_all dev rs)
unfolding strela_job_free_all
free_all-AllReleased dev rs = elim (Bool-cases (strela_dev_ok dev)) [
  | inl fit ↦ rw fit (
      Post-map (free_all_loop-Cleared dev.jobs [] 0 dev rs refl refl)
        λ d (slots', is, cleared). inr (subst (Cleared dev.jobs) (sym is) cleared))
  | inr unfit ↦ rw unfit (returns (inl (unfit, refl)))
]
