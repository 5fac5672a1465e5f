-- ===== src/Buffer/Overflow.antt =====
-- Buffers whose size in bytes is close to the end of the word (lib/strela.c, `strela_buffer_alloc`).
use strela_pynq.Base.{ℕ, ◌-◌, ◌^◌, ◌<◌, ◌≡◌, ◌==◌, refl, true, false, arith, returned, leb, mul64}
use strela_pynq.Memory.{Mem, null, Ptr}
use strela_pynq.FreeList.{FreeList, free_list_carve}
use strela_pynq.FreeList.Wrap.{HasRoom, head_found, free_list_alloc-wraps}
use strela_pynq.Device.{Device, strela_dev_ok}
use strela_pynq.Buffer.{Buffer, strela_buffer_alloc, ptr_to_buffer_offset}

-- The words of a buffer that is larger than the device's memory.
pub record IsHuge (words : ℕ) : Type 0 where
  pub above : 2 ^ 62 - 16 < words
  pub below : words < 2 ^ 62

-- On a device fit for use, of a size less than 16 words below 2 ^ 62, `strela_buffer_alloc` hands
-- out a valid buffer of that many words as soon as the policy is first fit and the first free block
-- has at least 88 bytes: its check for an overflow passes, and the rounding to a cache line wraps
-- to a block of 0 bytes.
pub strela_buffer_alloc-IsHuge :
    (dev : Device) (words : ℕ)
    → strela_dev_ok dev ≡ true
    → IsHuge words
    → HasRoom dev.mem dev.buffer_free_list
    → (dev' : Device) × (b : Buffer) × (strela_buffer_alloc dev words ≡ returned (dev', b))
      × (b.valid ≡ true)
      × (b.size_words ≡ words)
unfolding strela_buffer_alloc free_list_carve
strela_buffer_alloc-IsHuge dev words fit huge room = (
  dev',
  b,
  simp (
    fit,
    passes,
    free_list_alloc-wraps dev.mem dev.buffer_free_list (mul64 words 4) room (omega arith)
        (omega arith),
    given,
  ),
  refl,
  refl,
)
  where
    r : Mem × FreeList × Ptr
    r =
        free_list_carve dev.mem dev.buffer_free_list (head_found dev.buffer_free_list) 0
          (mul64 words 4)

    dev' : Device
    dev' = record dev { mem = r.0; buffer_free_list = r.1 }

    b : Buffer
    b = record {
      valid = true;
      offset_words_from_base = ptr_to_buffer_offset dev' r.2;
      size_words = words;
    }

    passes : leb words (mul64 words 4) ≡ true
    passes = ground (arith, huge)

    given : (r.2 == null) ≡ false
    given = ground arith
