-- ===== src/Discovery/Find.antt =====
-- Finding the n-th device (lib/strela.c, the search of `strela_dev_init`).
use mathlib.Core.List.{append_assoc, append-nil}
use strela_pynq.Base.{
  ℕ, zero, suc, ◌+◌, ◌==◌, ◌≤◌, ◌<◌, ◌≡◌, inl, inr, refl, sym, subst, ap, ◌∙◌, arith, Bool, true,
  false, Bool-cases, List, [], ◌∷◌, ◌++◌, Option, none, some, length, get_elem?, Outcome, Returns,
  ends, Returns-map,
}
use strela_pynq.Device.{Reply, done, fail}
use strela_pynq.Discovery.{
  DirEntry, Dir, AccelIter, FdStep, opened, closed, openat_reply, openat_version, accel_openat,
  accel_iter_close, close_dir, next_entry, next_in, accel_iter_next, iter_of, accel_iter_make,
  find_opened, find_entry, found_or, find_loop, find_device,
}
use strela_pynq.Discovery.Search.{own, devices, Balanced, nothing, pair, Balanced-append, listing}

-- What the search for the device `i` leaves: the directory closed, and of the descriptors at most the
-- device's open.
pub data Sought (found : List ℕ) (i : ℕ) (before : List FdStep)
    (r : AccelIter × Option ℕ × List FdStep) : Type 0 where
  absent :
      (steps : List FdStep)
      → r.0.dir ≡ none
      → r.1 ≡ none
      → length found ≤ i
      → r.2 ≡ before ++ steps
      → Balanced steps
      → Sought found i before r
  present :
      (fd : ℕ) (steps : List FdStep)
      → r.0.dir ≡ none
      → r.1 ≡ some fd
      → get_elem? found i ≡ some fd
      → r.2 ≡ before ++ (steps ++ opened fd ∷ [])
      → Balanced steps
      → Sought found i before r

-- What was sought behind steps that are balanced.
behind :
    {found found' : List ℕ} {i i' : ℕ} {before done_steps : List FdStep}
    → (length found ≤ i → length found' ≤ i')
    → ((fd : ℕ) → get_elem? found i ≡ some fd → get_elem? found' i' ≡ some fd)
    → Balanced done_steps
    → (r : AccelIter × Option ℕ × List FdStep) → Sought found i (before ++ done_steps) r
    → Sought found' i' before r
behind {before = before} {done_steps = s} shorter same b r
      (absent steps closed_dir is le trace balanced) =
    absent (s ++ steps) closed_dir is (shorter le) (trace ∙ append_assoc before s steps)
      (Balanced-append b balanced)
behind {before = before} {done_steps = s} shorter same b r
      (present fd steps closed_dir is at trace balanced) =
    present fd (s ++ steps) closed_dir is (same fd at)
      (trace
        ∙ append_assoc before s (steps ++ opened fd ∷ [])
        ∙ ap (λ t. before ++ t) (sym (append_assoc s steps (opened fd ∷ []))))
      (Balanced-append b balanced)

module _ (x : DirEntry) (es : List DirEntry) (fuel : ℕ) (iter : AccelIter) (open_dir : Dir)
    (is_open : iter.dir ≡ some open_dir)
    (rest : (count i : ℕ) (before : List FdStep)
      → Returns
          (Sought (devices es) i before)
          (find_loop fuel (accel_iter_next iter) count (count + i) before)) where
  -- The rest of the loop behind the entry with these answers.
  abbrev onwards :
      (Reply ℕ)
      → (Reply Bool)
      → (count i : ℕ) → List FdStep
      → Outcome (AccelIter × Option ℕ × List FdStep)
  onwards o v count i before =
      let (fd, opens) = openat_reply o v in
      let (found, count', closes) = find_opened fd count (count + i) in
      found_or found iter (before ++ (opens ++ closes))
        (find_loop fuel (accel_iter_next iter) count' (count + i) (before ++ (opens ++ closes)))

  onwards-Sought :
      (o : Reply ℕ) (v : Reply Bool) (count i : ℕ) (before : List FdStep)
      → Returns (Sought (own o v (devices es)) i before) (onwards o v count i before)
  unfolding openat_reply openat_version find_opened found_or accel_iter_close close_dir
  onwards-Sought (fail e) v count i before =
      Returns-map (behind (λ h. h) (λ fd h. h) nothing) (rest count i (before ++ []))
  onwards-Sought (done fd) (fail e) count i before =
      Returns-map (behind (λ h. h) (λ fd h. h) (pair fd nothing))
        (rest count i (before ++ opened fd ∷ closed fd ∷ []))
  onwards-Sought (done fd) (done false) count i before =
      Returns-map (behind (λ h. h) (λ fd h. h) (pair fd nothing))
        (rest count i (before ++ opened fd ∷ closed fd ∷ []))
  onwards-Sought (done fd) (done true) count zero before =
      let here : (count == count + zero) ≡ true = ground arith in
      simp (here, is_open) (ends (present fd [] refl refl refl refl nothing))
  onwards-Sought (done fd) (done true) count (suc i) before =
      let later : (count == count + suc i) ≡ false = ground arith in
      simp (later) (
        Returns-map (behind (λ h. omega arith) (λ fd h. h) (pair fd nothing)) (
          subst
            (λ w. Returns (Sought (devices es) i (before ++ opened fd ∷ closed fd ∷ [])) (
              find_loop fuel (accel_iter_next iter) (count + 1) w
                (before ++ opened fd ∷ closed fd ∷ [])))
            {x = count + 1 + i} (omega arith)
            (rest (count + 1) i (before ++ opened fd ∷ closed fd ∷ []))))

find_loop-Sought :
    (es : List DirEntry) (fuel end_errno : ℕ) (d : Dir) (errno : ℕ) (e : Option DirEntry)
    (count i : ℕ) (before : List FdStep)
    → length es < fuel
    → Returns (Sought (devices es) i before) (
        find_loop fuel
          (next_entry es end_errno
            (record { dir = some d; myerrno = errno; valid = false; entry = e }))
          count
          (count + i)
          before)
unfolding find_loop find_entry next_entry accel_iter_close close_dir accel_iter_next next_in
    accel_openat
find_loop-Sought es zero end_errno d errno e count i before h = absurd (omega arith)
find_loop-Sought [] (suc fuel) end_errno d errno e count i before h =
    ends (absent [] refl refl (omega arith) (sym (append-nil before)) nothing)
find_loop-Sought (x ∷ es) (suc fuel) end_errno d errno e count i before h =
    elim (Bool-cases x.dotted) [
      | inl hidden ↦
          simp (hidden)
            (find_loop-Sought es (suc fuel) end_errno d errno e count i before (omega arith))
      | inr shown ↦ simp (shown) (
          onwards-Sought x es fuel
            (record {
              dir = some (record { entries = es; end_errno = end_errno });
              myerrno = errno;
              valid = true;
              entry = some x;
            })
            (record { entries = es; end_errno = end_errno }) refl
            (λ count i before.
              find_loop-Sought es fuel end_errno (record { entries = es; end_errno = end_errno })
                errno (some x) count i before (omega arith))
            x.opens x.is_strela count i before)
    ]

-- The search of `strela_dev_init` ends with the directory closed. It finds the device `which` among
-- those that `strela_dev_count` counts in the same listing, in the listing's order: its descriptor
-- stays open and is the last one opened; all others are closed. Beyond their number it finds
-- none, and no descriptor stays open.
pub find_device-Sought :
    (opendir : Reply Dir) (which : ℕ)
    → Returns (Sought (devices (listing opendir)) which []) (find_device opendir which)
unfolding find_device accel_iter_make iter_of accel_iter_next next_in find_loop
find_device-Sought (done d) which =
    subst
      (λ w. Returns (Sought (devices d.entries) which []) (
        find_loop (suc (length d.entries))
          (next_entry d.entries d.end_errno
            (record { dir = some d; myerrno = 0; valid = false; entry = none }))
          0 w []))
      {x = 0 + which} (omega arith)
      (find_loop-Sought d.entries (suc (length d.entries)) d.end_errno d 0 none 0 which []
        (omega arith))
find_device-Sought (fail e) which = ends (absent [] refl refl (omega arith) refl nothing)
