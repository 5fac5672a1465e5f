-- ===== src/Driver/Engine/Addresses.antt =====
-- What the hardware is told of a binding that the driver has checked (driver/strela_core.c,
-- `strela_hw_write_binding`; driver/strela_job.c, `strela_binding_check`).
use strela_pynq.Base.{ℕ, ◌+◌, ◌*◌, ◌/◌, ◌%◌, ◌^◌, ◌≤◌, ◌<◌, ◌≡◌, ◌∷◌}
use strela_pynq.Uapi.{StridedBinding, word_size}
use strela_pynq.Driver.Binding.{stride_or_one}
use strela_pynq.Driver.Engine.{Bound, Engine}

-- The range of a binding in an object at `dma_addr`.
abbrev pub bound_at : (dma_addr : ℕ) → StridedBinding → Bound
bound_at dma_addr b = record { dma_addr = dma_addr; offset = b.offset; count = b.count }

-- What is written for an input, and where the words lie that the hardware then reads.
pub record Programs (dma_addr obj_size : ℕ) (b : StridedBinding) (register : ℕ) (e f : Engine)
    : Type 0 where
  pub address : ℕ
  pub size : ℕ
  pub writes : f.writes ≡ (register + 4, size) ∷ (register, address) ∷ e.writes
  pub stride_bytes : size / 2 ^ 16 ≡ b.stride * 4
  pub total_bytes : size % 2 ^ 16 ≡ b.count * stride_or_one b.stride * 4
  pub from : dma_addr ≤ address
  pub inside :
      (i : ℕ)
      → i < b.count
      → address + i * stride_or_one b.stride * 4 + word_size ≤ dma_addr + obj_size
