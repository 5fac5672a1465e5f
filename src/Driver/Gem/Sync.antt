-- ===== src/Driver/Gem/Sync.antt =====
-- Syncing a range of a buffer object.
use strela_pynq.Base.{ℕ, ◌+◌, ◌%◌, ◌^◌, ◌==◌, ◌≤◌, ◌<◌, ◌≡◌, not, some, bit_and, leb}
use strela_pynq.Uapi.{GemSync, sync_fini}
use strela_pynq.Driver.Gem.{
  Direction, from_device, to_device, bidirectional, Transfer, GemObject, direction_of,
  invalid_flags_mask,
}

-- The numbers of a request and of the object fit their types.
pub record Fits (args : GemSync) (obj : GemObject) : Type 0 where
  pub offset : args.offset < 2 ^ 64
  pub length : args.length < 2 ^ 64
  pub size : obj.dma_addr + obj.size < 2 ^ 64

-- A range that may be handed over: inside the object and in whole cache lines.
pub record IsSyncable (args : GemSync) (align : ℕ) (obj : GemObject) : Type 0 where
  pub inside : args.offset + args.length ≤ obj.size
  pub offset_aligned : args.offset % align ≡ 0
  pub length_aligned : args.length % align ≡ 0

-- The direction that a request asks for by its two lowest bits, to read and to write.
abbrev pub Asks : (flags : ℕ) → Direction → Type 0
Asks flags from_device = flags % 4 ≡ 1
Asks flags to_device = flags % 4 ≡ 2
Asks flags bidirectional = flags % 4 ≡ 3

-- The range of the request, as the DMA layer is given it: with the third bit, for the device.
abbrev pub handed_over : GemSync → GemObject → Direction → Transfer
handed_over args obj dir = record {
  for_device = leb 4 args.flags;
  addr = obj.dma_addr + args.offset;
  length = args.length;
  direction = dir;
}

-- What the driver computes from flags below 8.
record IsRead (flags : ℕ) (dir : Direction) : Type 0 where
  direction : direction_of flags ≡ some dir
  valid : bit_and flags invalid_flags_mask ≡ 0
  for_device : not (bit_and flags sync_fini == 0) ≡ leb 4 flags

-- The same transfer, with the code's test of the flags.
abbrev computed : GemSync → GemObject → Direction → Transfer
computed args obj dir = record {
  for_device = not (bit_and args.flags sync_fini == 0);
  addr = obj.dma_addr + args.offset;
  length = args.length;
  direction = dir;
}
