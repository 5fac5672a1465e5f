-- ===== src/Discovery/Search.antt =====
-- Counting and finding the devices, against the listing of the directory (lib/strela.c,
-- `strela_dev_count` and the search of `strela_dev_init`).
use mathlib.Core.List.{append_assoc, append-nil}
use strela_pynq.Base.{
  ℕ, zero, suc, ◌+◌, ◌==◌, ◌<◌, ◌≡◌, inl, inr, refl, sym, subst, ap, ◌∙◌, arith, Bool, true, false,
  Bool-cases, List, [], ◌∷◌, ◌++◌, Option, none, some, if◌then◌else◌, length, Returns, ends,
  Returns-bind, Returns-map,
}
use strela_pynq.Device.{Reply, done, fail}
use strela_pynq.Discovery.{
  DirEntry, Dir, AccelIter, FdStep, opened, closed, enoent, openat_reply, openat_version,
  accel_openat, accel_iter_close, close_dir, next_entry, next_in, accel_iter_next, iter_of,
  accel_iter_make, count_opened, count_entry, count_loop, strela_dev_count,
}

-- The descriptors of the devices in the listing, in its order.
abbrev pub own : Reply ℕ → Reply Bool → List ℕ → List ℕ
own (done fd) (done true) rest = fd ∷ rest
own (done fd) (done false) rest = rest
own (done fd) (fail e) rest = rest
own (fail e) version rest = rest

abbrev pub devices : List DirEntry → List ℕ
devices [] = []
devices (e ∷ es) = let rest = devices es in if e.dotted then rest else own e.opens e.is_strela rest

-- Each descriptor is closed before the next is opened.
pub data Balanced : List FdStep → Type 0 where
  nothing : Balanced []
  pair : (fd : ℕ) {trace : List FdStep} → Balanced trace → Balanced (opened fd ∷ closed fd ∷ trace)

pub Balanced-append : {s t : List FdStep} → Balanced s → Balanced t → Balanced (s ++ t)
Balanced-append nothing q = q
Balanced-append (pair fd p) q = pair fd (Balanced-append p q)

pub record Counts (found : List ℕ) (end_errno count : ℕ) (before : List FdStep)
    (r : AccelIter × ℕ × List FdStep) : Type 0 where
  pub dir : r.0.dir ≡ none
  pub errno : r.0.myerrno ≡ end_errno
  pub number : r.1 ≡ count + length found
  pub steps : List FdStep
  pub trace : r.2 ≡ before ++ steps
  pub balanced : Balanced steps

-- One entry adds itself if it is a device, and leaves no descriptor open.
record Entry (x : DirEntry) (count : ℕ) (r : ℕ × List FdStep) : Type 0 where
  number : (rest : List ℕ) → r.0 + length rest ≡ count + length (own x.opens x.is_strela rest)
  balanced : Balanced r.1

count_entry-Entry : (x : DirEntry) (count : ℕ) → Entry x count (count_entry (some x) count)
unfolding count_entry count_opened accel_openat openat_reply openat_version
count_entry-Entry x count = by_reply x.opens x.is_strela
  where
    by_reply :
        (o : Reply ℕ) (v : Reply Bool)
        → Entry
            (record { dotted = x.dotted; opens = o; is_strela = v })
            count
            (count_entry (some (record { dotted = x.dotted; opens = o; is_strela = v })) count)
    by_reply (fail e) v = record { number = λ rest. refl; balanced = nothing }
    by_reply (done fd) (fail e) = record { number = λ rest. refl; balanced = pair fd nothing }
    by_reply (done fd) (done true) = record {
      number = λ rest. omega arith;
      balanced = pair fd nothing;
    }
    by_reply (done fd) (done false) = record { number = λ rest. refl; balanced = pair fd nothing }

-- The loop from an iterator at the first shown entry of `es`.
count_loop-Counts :
    (es : List DirEntry) (fuel end_errno : ℕ) (d : Dir) (errno : ℕ) (e : Option DirEntry)
    (count : ℕ) (before : List FdStep)
    → length es < fuel
    → Returns (Counts (devices es) end_errno count before) (
        count_loop fuel
          (next_entry es end_errno
            (record { dir = some d; myerrno = errno; valid = false; entry = e }))
          count
          before)
unfolding count_loop next_entry accel_iter_close close_dir accel_iter_next next_in
count_loop-Counts es zero end_errno d errno e count before h = absurd (omega arith)
count_loop-Counts [] (suc fuel) end_errno d errno e count before h = ends (record {
  dir = refl;
  errno = refl;
  number = omega arith;
  steps = [];
  trace = sym (append-nil before);
  balanced = nothing;
})
count_loop-Counts (x ∷ es) (suc fuel) end_errno d errno e count before h =
    elim (Bool-cases x.dotted) [
      | inl hidden ↦
          simp (hidden)
            (count_loop-Counts es (suc fuel) end_errno d errno e count before (omega arith))
      | inr shown ↦ simp (shown) (
          Returns-map further (
            count_loop-Counts es fuel end_errno (record { entries = es; end_errno = end_errno })
              errno (some x) (count_entry (some x) count).0
              (before ++ (count_entry (some x) count).1) (omega arith)))
    ]
  where
    further :
        (r : AccelIter × ℕ × List FdStep)
        → Counts
            (devices es)
            end_errno
            (count_entry (some x) count).0
            (before ++ (count_entry (some x) count).1)
            r
        → Counts (own x.opens x.is_strela (devices es)) end_errno count before r
    further r c = record {
      dir = c.dir;
      errno = c.errno;
      number = c.number ∙ (count_entry-Entry x count).number (devices es);
      steps = (count_entry (some x) count).1 ++ c.steps;
      trace = c.trace ∙ append_assoc before (count_entry (some x) count).1 c.steps;
      balanced = Balanced-append (count_entry-Entry x count).balanced c.balanced;
    }

-- The entries, and the error, of what opendir answers. No directory is no device and no error.
abbrev pub listing : Reply Dir → List DirEntry
listing (done d) = d.entries
listing (fail e) = []

abbrev pub listing_errno : Reply Dir → ℕ
listing_errno (done d) = d.end_errno
listing_errno (fail e) = if e == enoent then 0 else e

-- `strela_dev_count` ends, and counts the devices that the listing shows: the entries whose name has
-- no dot in front, that open, and that are STRELA's. It returns 0 exactly if opening and reading the
-- directory met no error, where a missing directory is none; an entry that cannot be opened or asked
-- for its driver is left out of the count and makes no difference to that. Every descriptor that it
-- opens is closed before the next.
pub strela_dev_count-devices :
    (opendir : Reply Dir)
    → Returns
        (λ r.
          (r.0 ≡ (listing_errno opendir == 0))
          × (r.1 ≡ length (devices (listing opendir)))
          × Balanced r.2)
        (strela_dev_count opendir)
unfolding strela_dev_count accel_iter_make iter_of accel_iter_next next_in count_loop
strela_dev_count-devices (done d) =
    Returns-bind
      (count_loop-Counts d.entries (suc (length d.entries)) d.end_errno d 0 none 0 [] (omega arith))
      (λ r c. ends (
        ap (λ e. e == 0) c.errno,
        omega (arith, c.number),
        subst Balanced (sym c.trace) c.balanced,
      ))
strela_dev_count-devices (fail e) = ends (refl, refl, nothing)
