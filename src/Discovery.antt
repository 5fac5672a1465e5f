-- ===== src/Discovery.antt =====
-- Finding the devices (lib/strela.c, `accel_openat`, the iterator over /dev/accel, `strela_dev_count`
-- and the search of `strela_dev_init`). What the directory and the system calls answer is the
-- listing; the descriptors that are opened and closed are a trace, in order.
pub mod Find
pub mod Iterator
pub mod Search
use strela_pynq.Base.{
  ℕ, zero, suc, ◌+◌, ◌==◌, Bool, true, false, List, [], ◌∷◌, ◌++◌, Option, none, some,
  if◌then◌else◌, length, Outcome, returned, out_of_fuel, ◌>>=◌,
}
use strela_pynq.Device.{Reply, done, fail}

-- An entry of the directory: whether its name starts with a dot, what openat answers for it, and
-- whether DRM_IOCTL_VERSION succeeds and gives STRELA's name.
pub record DirEntry : Type 0 where
  pub dotted : Bool
  pub opens : Reply ℕ
  pub is_strela : Reply Bool

-- What readdir has still to give, and `errno` behind the last entry, 0 at the end.
pub record Dir : Type 0 where
  pub entries : List DirEntry
  pub end_errno : ℕ

pub data FdStep : Type 0 where
  opened closed : ℕ → FdStep

pub record AccelIter : Type 0 where
  pub dir : Option Dir
  pub myerrno : ℕ
  pub valid : Bool
  pub entry : Option DirEntry

abbrev pub enoent : ℕ
enoent = 2

-- `accel_openat`: the descriptor and whether it has STRELA's name, or none for -1.
openat_version : ℕ → Reply Bool → Option (ℕ × Bool) × List FdStep
openat_version fd (done b) = (some (fd, b), opened fd ∷ [])
openat_version fd (fail e) = (none, opened fd ∷ closed fd ∷ [])

openat_reply : Reply ℕ → Reply Bool → Option (ℕ × Bool) × List FdStep
openat_reply (done fd) version = openat_version fd version
openat_reply (fail e) version = (none, [])

unfoldable pub accel_openat : DirEntry → Option (ℕ × Bool) × List FdStep
unfolding openat_version openat_reply
accel_openat e = openat_reply e.opens e.is_strela

close_dir : Option Dir → AccelIter → AccelIter
close_dir none iter = iter
close_dir (some d) iter = record iter { dir = none; valid = false; entry = none }

unfoldable pub accel_iter_close : AccelIter → AccelIter
unfolding close_dir
accel_iter_close iter = close_dir iter.dir iter

-- The loop of `accel_iter_next` over what is left of the directory.
next_entry : List DirEntry → ℕ → AccelIter → AccelIter
next_entry [] end_errno iter = accel_iter_close (record iter { myerrno = end_errno })
next_entry (e ∷ es) end_errno iter =
    let rest = next_entry es end_errno iter in
    if e.dotted then rest else record iter {
      dir = some (record { entries = es; end_errno = end_errno });
      valid = true;
      entry = some e;
    }

next_in : Option Dir → AccelIter → AccelIter
next_in none iter = iter
next_in (some d) iter = next_entry d.entries d.end_errno iter

unfoldable pub accel_iter_next : AccelIter → AccelIter
unfolding next_in next_entry
accel_iter_next iter = next_in iter.dir (record iter { valid = false })

iter_of : Reply Dir → AccelIter
iter_of (done d) = record { dir = some d; myerrno = 0; valid = true; entry = none }
iter_of (fail e) = record {
  dir = none;
  myerrno = if e == enoent then 0 else e;
  valid = false;
  entry = none;
}

-- With what opendir answers.
unfoldable pub accel_iter_make : Reply Dir → AccelIter
unfolding iter_of
accel_iter_make opendir = accel_iter_next (iter_of opendir)

-- The body of the loop of `strela_dev_count`: a device of ours counts, and is closed again.
count_opened : Option (ℕ × Bool) → ℕ → ℕ × List FdStep
count_opened none count = (count, [])
count_opened (some (fd, is_strela)) count = (if is_strela then count + 1 else count, closed fd ∷ [])

-- With no name openat fails.
count_entry : Option DirEntry → ℕ → ℕ × List FdStep
count_entry none count = (count, [])
count_entry (some e) count =
    let (fd, opens) = accel_openat e in
    let (count', closes) = count_opened fd count in (count', opens ++ closes)

pub count_loop : ℕ → AccelIter → ℕ → List FdStep → Outcome (AccelIter × ℕ × List FdStep)
count_loop zero iter count trace = out_of_fuel
count_loop (suc fuel) iter count trace =
    let (count', steps) = count_entry iter.entry count in
    let rest = count_loop fuel (accel_iter_next iter) count' (trace ++ steps) in
    if iter.valid then rest else returned (iter, count, trace)

-- More than the entries of the directory.
abbrev pub fuel_of : Reply Dir → ℕ
fuel_of (done d) = suc (length d.entries)
fuel_of (fail e) = 1

-- Whether the result is 0 and not -1, the number of devices, and the descriptors' trace.
unfoldable pub strela_dev_count : Reply Dir → Outcome (Bool × ℕ × List FdStep)
unfolding count_loop count_entry count_opened
strela_dev_count opendir =
    count_loop (fuel_of opendir) (accel_iter_make opendir) 0 [] >>= λ (iter, count, trace).
    returned (iter.myerrno == 0, count, trace)

-- The body of the loop in `strela_dev_init`: the device that is looked for stays open.
find_opened : Option (ℕ × Bool) → (count which : ℕ) → Option ℕ × ℕ × List FdStep
find_opened none count which = (none, count, [])
find_opened (some (fd, false)) count which = (none, count, closed fd ∷ [])
find_opened (some (fd, true)) count which =
    if count == which then (some fd, count + 1, []) else (none, count + 1, closed fd ∷ [])

find_entry : Option DirEntry → (count which : ℕ) → Option ℕ × ℕ × List FdStep
find_entry none count which = (none, count, [])
find_entry (some e) count which =
    let (fd, opens) = accel_openat e in
    let (found, count', closes) = find_opened fd count which in (found, count', opens ++ closes)

-- `break` at the device, with the directory closed.
found_or :
    Option ℕ
    → AccelIter
    → List FdStep
    → Outcome (AccelIter × Option ℕ × List FdStep)
    → Outcome (AccelIter × Option ℕ × List FdStep)
found_or (some fd) iter trace rest = returned (accel_iter_close iter, some fd, trace)
found_or none iter trace rest = rest

pub find_loop :
    ℕ → AccelIter → (count which : ℕ) → List FdStep → Outcome (AccelIter × Option ℕ × List FdStep)
find_loop zero iter count which trace = out_of_fuel
find_loop (suc fuel) iter count which trace =
    let (found, count', steps) = find_entry iter.entry count which in
    let rest = find_loop fuel (accel_iter_next iter) count' which (trace ++ steps) in
    if iter.valid then found_or found iter (trace ++ steps) rest else returned (iter, none, trace)

-- The search of `strela_dev_init`: the descriptor of the device `which`, or -1.
unfoldable pub find_device : Reply Dir → (which : ℕ) → Outcome (AccelIter × Option ℕ × List FdStep)
unfolding find_loop find_entry find_opened found_or
find_device opendir which = find_loop (fuel_of opendir) (accel_iter_make opendir) 0 which []
