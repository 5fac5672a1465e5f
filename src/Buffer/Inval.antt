-- ===== src/Buffer/Inval.antt =====
-- Invalidating a buffer (lib/strela.c, `strela_buffer_inval`).
use strela_pynq.Base.{ℕ, ◌+◌, ◌*◌, ◌%◌, ◌≤◌, ◌≡◌, ◌≢◌, true, arith, bit_or}
use strela_pynq.Uapi.{sync_prep, sync_read}
use strela_pynq.Device.{Device, done, gem_sync, log_call, strela_dev_ok}
use strela_pynq.Buffer.{Buffer, is_line_aligned, strela_buffer_inval, total_words}
use strela_pynq.Buffer.Flush.{IsPlaced, sync_request}

-- On a device fit for use, invalidating words inside a buffer that lies in the tensors' memory, one or
-- more whole lines of 16 words counted from its start, asks the driver, once, to take back exactly
-- those words and, where the driver grants it, nothing else changes.
pub strela_buffer_inval-request :
    (dev : Device) (b : Buffer) (offset count : ℕ)
    → strela_dev_ok dev ≡ true
    → IsPlaced b
    → offset % 16 ≡ 0
    → count % 16 ≡ 0
    → count ≢ 0
    → offset + count ≤ b.size_words
    → strela_buffer_inval dev b offset count (done tt)
      ≡ log_call dev (
          gem_sync (record {
            handle = dev.tensors_bo_handle;
            flags = bit_or sync_prep sync_read;
            offset = (b.offset_words_from_base + offset) * 4;
            length = count * 4;
          }))
unfolding strela_buffer_inval
strela_buffer_inval-request dev b offset count fit placed starts ends ne h = simp (
  aligned offset starts (omega (arith, placed.inside, h)),
  aligned count ends (omega (arith, placed.inside, h)),
  sync_request dev b fit placed 1 offset count h ne,
)
  where
    aligned : (n : ℕ) → n % 16 ≡ 0 → n ≤ total_words → is_line_aligned n ≡ true
    aligned n whole small = ground (arith, whole, small)
