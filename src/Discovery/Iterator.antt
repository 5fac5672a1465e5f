-- ===== src/Discovery/Iterator.antt =====
-- The invariant of the iterator over /dev/accel (lib/strela.c, `accel_iter`).
use strela_pynq.Base.{ℕ, ◌≡◌, inl, inr, true, false, Bool-cases, List, [], ◌∷◌, Option, none, some}
use strela_pynq.Device.{Reply, done, fail}
use strela_pynq.Discovery.{
  DirEntry, Dir, AccelIter, accel_iter_close, close_dir, next_entry, next_in, accel_iter_next,
  iter_of, accel_iter_make,
}

-- A valid iterator has the directory open and stands at an entry that is not hidden; any other has
-- the directory closed.
pub data IsIter : AccelIter → Type 0 where
  at_entry :
      (d : Dir) (errno : ℕ) (e : DirEntry)
      → e.dotted ≡ false
      → IsIter (record { dir = some d; myerrno = errno; valid = true; entry = some e })
  at_end :
      (errno : ℕ) (e : Option DirEntry)
      → IsIter (record { dir = none; myerrno = errno; valid = false; entry = e })

next_entry-IsIter :
    (es : List DirEntry) (end_errno : ℕ) (d : Dir) (errno : ℕ) (e : Option DirEntry)
    → IsIter (
        next_entry es end_errno
          (record { dir = some d; myerrno = errno; valid = false; entry = e }))
unfolding next_entry accel_iter_close close_dir
next_entry-IsIter [] end_errno d errno e = at_end end_errno none
next_entry-IsIter (x ∷ es) end_errno d errno e = elim (Bool-cases x.dotted) [
  | inl hidden ↦ simp (hidden) (next_entry-IsIter es end_errno d errno e)
  | inr shown ↦
      simp (shown) (at_entry (record { entries = es; end_errno = end_errno }) errno x shown)
]

accel_iter_next-IsIter : (iter : AccelIter) → IsIter iter → IsIter (accel_iter_next iter)
unfolding accel_iter_next next_in
accel_iter_next-IsIter iter (at_entry d errno e shown) =
    next_entry-IsIter d.entries d.end_errno d errno (some e)
accel_iter_next-IsIter iter (at_end errno e) = at_end errno e

accel_iter_close-IsIter : (iter : AccelIter) → IsIter iter → IsIter (accel_iter_close iter)
unfolding accel_iter_close close_dir
accel_iter_close-IsIter iter (at_entry d errno e shown) = at_end errno none
accel_iter_close-IsIter iter (at_end errno e) = at_end errno e

accel_iter_make-IsIter : (opendir : Reply Dir) → IsIter (accel_iter_make opendir)
unfolding accel_iter_make iter_of accel_iter_next next_in
accel_iter_make-IsIter (done d) = next_entry-IsIter d.entries d.end_errno d 0 none
accel_iter_make-IsIter (fail e) = at_end _ none

-- The iterators that any calls lead to.
pub data Reached (opendir : Reply Dir) : AccelIter → Type 0 where
  made : Reached opendir (accel_iter_make opendir)
  next : {iter : AccelIter} → Reached opendir iter → Reached opendir (accel_iter_next iter)
  close : {iter : AccelIter} → Reached opendir iter → Reached opendir (accel_iter_close iter)

-- However the iterator was made, moved on and closed: it is valid only with the directory open and at
-- an entry whose name does not start with a dot, and the directory is closed when it is not valid.
pub Reached-IsIter : {opendir : Reply Dir} {iter : AccelIter} → Reached opendir iter → IsIter iter
Reached-IsIter {opendir = opendir} made = accel_iter_make-IsIter opendir
Reached-IsIter (next r) = accel_iter_next-IsIter _ (Reached-IsIter r)
Reached-IsIter (close r) = accel_iter_close-IsIter _ (Reached-IsIter r)
