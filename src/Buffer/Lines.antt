-- ===== src/Buffer/Lines.antt =====
-- Rounding a range of words to cache lines (lib/strela.c, `strela_buffer_flush`).
use strela_pynq.Base.{ℕ, ◌+◌, ◌-◌, ◌*◌, ◌/◌, ◌^◌, ◌<◌, ◌≡◌, arith, bit_and, sub64, add64, ◌∙◌}
use strela_pynq.Bits.{and_halves, and-mask}
use strela_pynq.Buffer.{cacheline_mask, line_start, line_end}

-- Four binary digits of the mask are 0, the other sixty are 1.
and-cacheline_mask : (x : ℕ) → x < 2 ^ 64 → bit_and x cacheline_mask ≡ x / 16 * 16
and-cacheline_mask x small = omega (
  arith,
  and_halves x (2 ^ 64 - 16),
  and_halves (x / 2) (2 ^ 63 - 8),
  and_halves (x / 2 / 2) (2 ^ 62 - 4),
  and_halves (x / 2 / 2 / 2) (2 ^ 61 - 2),
  and-mask 60 (x / 2 / 2 / 2 / 2),
)

pub line_start_lem : (offset : ℕ) → offset < 2 ^ 64 → line_start offset ≡ offset / 16 * 16
unfolding line_start
line_start_lem offset small = and-cacheline_mask offset small

pub line_end_lem :
    (offset count : ℕ)
    → offset + count + 16 < 2 ^ 64
    → line_end offset count ≡ (offset + count + 15) / 16 * 16
unfolding line_end
line_end_lem offset count small =
    and-cacheline_mask (sub64 (add64 (add64 offset count) 16) 1) (omega arith) ∙ omega arith
