-- ===== src/Driver/Gem.antt =====
-- Buffer objects (driver/strela_gem.c). What the DRM and DMA layers answer is an argument. The
-- trace of `strela_gem_create` records what is acquired and released, the latest first.
pub mod Create
pub mod New
pub mod Sync
use strela_pynq.Base.{
  ℕ, ◌+◌, ◌-◌, ◌*◌, ◌/◌, ◌%◌, ◌^◌, ◌==◌, ltb, Bool, true, false, not, ◌&&◌, ◌||◌, List, [], ◌∷◌,
  Option, none, some, if◌then◌else◌, w64, sub64, bit_and,
}
use strela_pynq.Uapi.{
  GemNew, GemSync, word_size, sync_read, sync_write, sync_rw, sync_fini, sync_valid_flags_mask,
}
use strela_pynq.Driver.Binding.{Errno, einval, enoent, enomem}

pub data Direction : Type 0 where
  bidirectional to_device from_device : Direction

-- A call that hands a range to the device (`dma_sync_single_for_device`) or to the CPU.
pub record Transfer : Type 0 where
  pub for_device : Bool
  pub addr : ℕ
  pub length : ℕ
  pub direction : Direction

pub data SyncResult : Type 0 where
  refused : Errno → SyncResult
  nothing_to_do : SyncResult
  transferred : Transfer → SyncResult

-- An object that a handle names: its size in bytes and its DMA address.
pub record GemObject : Type 0 where
  pub size : ℕ
  pub dma_addr : ℕ

-- The direction that the flags ask for; none is refused.
unfoldable pub direction_of : (flags : ℕ) → Option Direction
direction_of flags =
    if bit_and flags sync_rw == sync_rw
    then some bidirectional
    else if not (bit_and flags sync_write == 0)
    then some to_device
    else if not (bit_and flags sync_read == 0)
    then some from_device
    else none

-- ~DRM_STRELA_SYNC_VALID_FLAGS_MASK, at `__u32`.
abbrev pub invalid_flags_mask : ℕ
invalid_flags_mask = 2 ^ 32 - 1 - sync_valid_flags_mask

-- IS_ALIGNED, whose alignment is a power of two.
unfoldable pub is_aligned_to : (n align : ℕ) → Bool
is_aligned_to n align = bit_and n (sub64 align 1) == 0

-- The range checks and the transfer, once the object is found.
unfoldable pub sync_object : GemSync → (align : ℕ) → Direction → GemObject → SyncResult
sync_object args align dir obj =
    if ltb obj.size args.offset || ltb (sub64 obj.size args.offset) args.length
    then refused einval
    else if not (is_aligned_to args.offset align) || not (is_aligned_to args.length align)
    then refused einval
    else if args.length == 0
    then nothing_to_do
    else transferred (record {
      for_device = not (bit_and args.flags sync_fini == 0);
      addr = w64 (obj.dma_addr + args.offset);
      length = args.length;
      direction = dir;
    })

find_and_sync : GemSync → (align : ℕ) → Option Direction → Option GemObject → SyncResult
find_and_sync args align none found = refused einval
find_and_sync args align (some dir) none = refused enoent
find_and_sync args align (some dir) (some obj) = sync_object args align dir obj

-- `align` is the cache alignment, `objects` the file's handles. The reference taken by the lookup
-- is dropped on every path behind it.
unfoldable pub strela_gem_sync_ioctl : GemSync → (align : ℕ) → (ℕ → Option GemObject) → SyncResult
unfolding find_and_sync sync_object
strela_gem_sync_ioctl args align objects =
    if not (bit_and args.flags invalid_flags_mask == 0)
    then refused einval
    else find_and_sync args align (direction_of args.flags) (objects args.handle)

pub data Resource : Type 0 where
  memory object_base mapping : Resource

pub data Event : Type 0 where
  acquire release : Resource → Event

-- What the layers below answer: whether `kzalloc` finds memory, the results of
-- `drm_gem_object_init` and `drm_gem_create_mmap_offset`, whether the DMA memory is there, and
-- whether its address is an error.
pub record CreateReplies : Type 0 where
  pub has_memory : Bool
  pub init : Option Errno
  pub mmap_offset : Option Errno
  pub has_pages : Bool
  pub mapping_error : Bool

-- `err_release`
abbrev pub err_release : Errno → List Event → Option Errno × List Event
err_release ret trace = (some ret, release memory ∷ release object_base ∷ trace)

map_pages : CreateReplies → List Event → Option Errno × List Event
map_pages r trace =
    if r.has_pages
    then if r.mapping_error
      then err_release enomem (release mapping ∷ acquire mapping ∷ trace)
      else (none, acquire mapping ∷ trace)
    else err_release enomem trace

-- `none` is success.
unfoldable pub strela_gem_create : CreateReplies → Option Errno × List Event
unfolding map_pages
strela_gem_create r =
    if r.has_memory
    then (elim r.init [
      | some ret ↦ (some ret, release memory ∷ acquire memory ∷ [])
      | none ↦
          let trace = acquire object_base ∷ acquire memory ∷ [] in
          elim r.mmap_offset [ some ret ↦ err_release ret trace | none ↦ map_pages r trace ]
    ])
    else (some enomem, [])

abbrev pub page_size : ℕ
page_size = 4096

-- PAGE_ALIGN
unfoldable pub page_align : ℕ → ℕ
page_align n = w64 (n + (page_size - 1)) / page_size * page_size

-- The size that `strela_gem_new_ioctl` creates an object of, or the error it returns first.
pub data NewCheck : Type 0 where
  bad : Errno → NewCheck
  create : ℕ → NewCheck

unfoldable pub gem_new_check : GemNew → NewCheck
gem_new_check args =
    if not (args.flags == 0)
    then bad einval
    else if args.size == 0 || not (is_aligned_to args.size word_size)
    then bad einval
    else create (page_align args.size)
