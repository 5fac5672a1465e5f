-- ===== src/Buffer/Flush.antt =====
-- Flushing a buffer: what the library asks the driver for (lib/strela.c, `strela_buffer_flush`).
use strela_pynq.Base.{
  negsuc, ℕ, ◌+◌, ◌-◌, ◌*◌, ◌/◌, ◌%◌, ◌^◌, ◌==◌, ◌≤◌, ◌<◌, ◌≡◌, ◌≢◌, arith, true, false, sub64,
  add64, mul64, bit_or,
}
use strela_pynq.Uapi.{GemSync, sync_fini, sync_write, word_size}
use strela_pynq.Device.{Reply, done, Device, gem_sync, bad_arg, strela_dev_ok, set_err, log_call}
use strela_pynq.Kernel.{strela_sync}
use strela_pynq.Buffer.{
  Buffer, total_words, is_bad_range, strela_buffer_sync, strela_buffer_flush, line_end,
}
use strela_pynq.Buffer.Lines.{line_start_lem, line_end_lem}

-- A buffer that lies in the tensors' memory.
pub record IsPlaced (b : Buffer) : Type 0 where
  pub valid : b.valid ≡ true
  pub inside : b.offset_words_from_base + b.size_words ≤ total_words

-- The words of the whole lines that a range touches.
abbrev pub first_word : ℕ → ℕ
first_word offset = offset / 16 * 16

abbrev pub last_word : ℕ → ℕ → ℕ
last_word offset count = (offset + count + 15) / 16 * 16

-- What `strela_buffer_flush` asks the driver for.
abbrev pub flush_request : Device → Buffer → ℕ → ℕ → GemSync
flush_request dev b offset count = record {
  handle = dev.tensors_bo_handle;
  flags = bit_or sync_fini sync_write;
  offset = (b.offset_words_from_base + first_word offset) * 4;
  length = (last_word offset count - first_word offset) * 4;
}

-- A library error leaves no device fit for use.
pub in_error : (dev : Device) (e : ℕ) → strela_dev_ok (set_err dev (negsuc e)) ≡ false
unfolding strela_dev_ok
in_error dev e = ground arith

module _ (dev : Device) (b : Buffer) (fit : strela_dev_ok dev ≡ true) (placed : IsPlaced b) where
  good_range :
      (offset count : ℕ) → offset + count ≤ b.size_words → is_bad_range b offset count ≡ false
  unfolding is_bad_range
  good_range offset count h = ground (arith, placed.valid, placed.inside, h)

  sync_words :
      (handle flags offset count : ℕ)
      → count ≢ 0
      → strela_sync dev handle flags offset count (done tt)
        ≡ log_call dev (
            gem_sync (record {
              handle = handle;
              flags = flags;
              offset = mul64 offset word_size;
              length = mul64 count word_size;
            }))
  unfolding strela_sync
  sync_words handle flags offset count ne = simp (fit, nz)
    where
      nz : (count == 0) ≡ false
      nz = ground (arith, ne)

  pub sync_request :
      (flags offset count : ℕ)
      → offset + count ≤ b.size_words
      → count ≢ 0
      → strela_buffer_sync dev b flags offset count (done tt)
        ≡ log_call dev (
            gem_sync (record {
              handle = dev.tensors_bo_handle;
              flags = flags;
              offset = (b.offset_words_from_base + offset) * 4;
              length = count * 4;
            }))
  unfolding strela_buffer_sync
  sync_request flags offset count h ne = simp (
    good_range offset count h,
    fit,
    sync_words _ flags (add64 b.offset_words_from_base offset) count ne,
    start,
    bytes,
  )
    where
      start :
          mul64 (add64 b.offset_words_from_base offset) 4 ≡ (b.offset_words_from_base + offset) * 4
      start = omega (arith, placed.inside, h)

      bytes : mul64 count 4 ≡ count * 4
      bytes = omega (arith, placed.inside, h)

  -- On a device fit for use, flushing one or more words of a buffer that lies in the tensors' memory,
  -- starts at a cache line there and whose size is a whole number of lines makes one request to the
  -- driver and, where the driver grants it, nothing else changes. The request starts at the line that
  -- holds the first of the words and ends with the line that holds the last, so it is whole lines that
  -- hold all the words, none of them without a word, all inside the buffer.
  pub strela_buffer_flush-request :
      (offset count : ℕ)
      → b.offset_words_from_base % 16 ≡ 0
      → b.size_words % 16 ≡ 0
      → count ≢ 0
      → offset + count ≤ b.size_words
      → (strela_buffer_flush dev b offset count (done tt)
          ≡ log_call dev (gem_sync (flush_request dev b offset count)))
        × (first_word offset ≤ offset)
        × ((b.offset_words_from_base + first_word offset) * 4 % 64 ≡ 0)
        × ((last_word offset count - first_word offset) * 4 % 64 ≡ 0)
        × (offset < first_word offset + 16)
        × (offset + count ≤ last_word offset count)
        × (last_word offset count < offset + count + 16)
        × (last_word offset count ≤ b.size_words)
  unfolding strela_buffer_flush
  strela_buffer_flush-request offset count starts lines ne h = (
    simp (
      nz,
      line_start_lem offset (omega (arith, placed.inside, h)),
      width,
      sync_request 6 (first_word offset) (last_word offset count - first_word offset)
          (omega (arith, lines, h)) (omega (arith, ne)),
    ),
    omega arith,
    omega (arith, starts),
    omega arith,
    omega arith,
    omega arith,
    omega arith,
    omega (arith, lines, h),
  )
    where
      nz : (count == 0) ≡ false
      nz = ground (arith, ne)

      width :
          sub64 (line_end offset count) (first_word offset)
          ≡ last_word offset count - first_word offset
      width = omega (
        arith,
        line_end_lem offset count (omega (arith, placed.inside, h)),
        placed.inside,
        lines,
        h,
      )

  bad_range :
      (offset count : ℕ)
      → b.size_words < offset + count
      → count < 2 ^ 63
      → offset ≤ b.size_words
      → is_bad_range b offset count ≡ true
  unfolding is_bad_range
  bad_range offset count h small ho = ground (arith, placed.valid, placed.inside, h, small, ho)

  -- On a device fit for use, where the size of a buffer that lies in the tensors' memory is no whole
  -- number of cache lines, flushing one or more words up to its end is refused as a bad argument: the
  -- range is rounded up past the end that the check compares with.
  pub strela_buffer_flush-partial_line :
      (offset count : ℕ) (reply : Reply (Unit {0}))
      → b.size_words % 16 ≢ 0
      → count ≢ 0
      → offset + count ≡ b.size_words
      → strela_buffer_flush dev b offset count reply ≡ set_err dev bad_arg
  unfolding strela_buffer_flush strela_buffer_sync
  strela_buffer_flush-partial_line offset count reply part ne h = simp (
    nz,
    line_start_lem offset (omega (arith, placed.inside, h)),
    width,
    bad_range (first_word offset) (last_word offset count - first_word offset)
        (omega (arith, part, h)) (omega (arith, placed.inside, h)) (omega (arith, h)),
    fit,
    in_error dev 0,
  )
    where
      nz : (count == 0) ≡ false
      nz = ground (arith, ne)

      width :
          sub64 (line_end offset count) (first_word offset)
          ≡ last_word offset count - first_word offset
      width =
          omega
            (arith, line_end_lem offset count (omega (arith, placed.inside, h)), placed.inside, h)
