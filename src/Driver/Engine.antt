-- ===== src/Driver/Engine.antt =====
-- The accelerator and the job on it (driver/strela_core.c; `strela_job_phase_done`,
-- `strela_run_job` and `strela_job_abort` of driver/strela_job.c). The state is what
-- `struct strela_device` keeps, with the trace of register writes and the fences signalled so far,
-- both the latest first. Each function runs under the device's lock, or takes it for its whole
-- body, so one call is one step.
pub mod Addresses
pub mod Fences
pub mod Reach
use strela_pynq.Base.{
  ℕ, ◌+◌, ◌*◌, ◌^◌, ◌==◌, Bool, true, false, not, ◌&&◌, List, [], ◌∷◌, ◌++◌, Option, none, some,
  if◌then◌else◌, u32, w64, bit_and,
}
use strela_pynq.Uapi.{word_size}
use strela_pynq.Driver.Binding.{strela_input_size}

-- enum strela_job_phase of the driver
pub data Phase : Type 0 where
  config exec : Phase

-- A bound range: the object's DMA address, and the range in words.
pub record Bound : Type 0 where
  pub dma_addr : ℕ
  pub offset : ℕ
  pub count : ℕ

-- One input and one output column.
pub record Column : Type 0 where
  pub input : Bound
  pub stride : ℕ
  pub output : Bound

-- A job is known by the number of its hardware fence.
pub record Job : Type 0 where
  pub fence : ℕ
  pub bitstream : Bound
  pub columns : List Column
  pub phase : Phase

-- A register write: the register's offset and the value.
abbrev pub Write : Type 0
Write = ℕ × ℕ

pub record Engine : Type 0 where
  pub is_sim : Bool
  pub active : Option Job
  pub irq_status : ℕ
  pub sim_abort : Bool
  pub sim_queued : Bool
  pub writes : List Write
  pub signalled : List ℕ

-- A device as it is allocated, in zeroed memory.
abbrev pub idle : Bool → Engine
idle is_sim = record {
  is_sim = is_sim;
  active = none;
  irq_status = 0;
  sim_abort = false;
  sim_queued = false;
  writes = [];
  signalled = [];
}

abbrev pub reg_ctrl : ℕ
reg_ctrl = 0x00

abbrev pub reg_conf_addr : ℕ
reg_conf_addr = 0x04

abbrev pub reg_conf_size : ℕ
reg_conf_size = 0x08

-- STRELA_REG_INP0_ADDR to STRELA_REG_INP3_ADDR, and the outputs', 8 apart; each size register
-- stands 4 behind its address register.
abbrev pub reg_inp0_addr : ℕ
reg_inp0_addr = 0x10

abbrev pub reg_out0_addr : ℕ
reg_out0_addr = 0x50

abbrev pub reg_out_arb_hold : ℕ
reg_out_arb_hold = 0xA0

abbrev pub reg_reset_dma : ℕ
reg_reset_dma = 0xF8

abbrev pub cmd_start_exec : ℕ
cmd_start_exec = 1

abbrev pub cmd_clear_state : ℕ
cmd_clear_state = 2

abbrev pub cmd_load_config : ℕ
cmd_load_config = 4

abbrev pub cmd_clear_config : ℕ
cmd_clear_config = 8

abbrev pub cmd_clear_int_config : ℕ
cmd_clear_int_config = 16

abbrev pub cmd_clear_int_exec : ℕ
cmd_clear_int_exec = 32

abbrev pub cmd_pending_int_config : ℕ
cmd_pending_int_config = 4

abbrev pub cmd_pending_int_exec : ℕ
cmd_pending_int_exec = 8

-- `writel(value, base + register)`
abbrev pub writel : Engine → (register value : ℕ) → Engine
writel e register value = record e { writes = (register, value) ∷ e.writes }

abbrev pub same_phase : Phase → Phase → Bool
same_phase config config = true
same_phase config exec = false
same_phase exec config = false
same_phase exec exec = true

unfoldable pub start_real : Engine → Phase → Engine
start_real e config =
    writel (writel (writel e reg_ctrl cmd_clear_config) reg_reset_dma 1) reg_ctrl cmd_load_config
start_real e exec = writel (writel e reg_ctrl cmd_clear_state) reg_ctrl cmd_start_exec

unfoldable pub start_sim : Engine → Phase → Engine
start_sim e config = record e { sim_abort = false; sim_queued = true }
start_sim e exec = e

unfoldable pub strela_hw_start : Engine → Phase → Engine
unfolding start_real start_sim
strela_hw_start e phase = if e.is_sim then start_sim e phase else start_real e phase

abbrev pub strela_binding_addr : Bound → ℕ
strela_binding_addr b = w64 (b.dma_addr + b.offset * word_size)

-- Addresses above 32 bits only raise a warning; `writel` takes the low 32 bits.
unfoldable pub strela_hw_write_binding : Engine → Bound → (addr_register size : ℕ) → Engine
strela_hw_write_binding e b addr_register size =
    writel (writel e addr_register (u32 (strela_binding_addr b))) (addr_register + 4) size

-- The loop of `strela_hw_program` over the columns from `i` on.
program_columns : Engine → List Column → ℕ → Engine
program_columns e [] i = e
program_columns e (c ∷ cs) i =
    let e₁ =
      strela_hw_write_binding e c.input (reg_inp0_addr + 8 * i)
        (strela_input_size c.input.count c.stride) in
    let e₂ =
      strela_hw_write_binding e₁ c.output (reg_out0_addr + 8 * i)
        (u32 (c.output.count * word_size)) in
    program_columns e₂ cs (i + 1)

program_real : Engine → Job → Engine
program_real e job =
    let e₁ =
      strela_hw_write_binding e job.bitstream reg_conf_addr
        (u32 (job.bitstream.count * word_size)) in
    writel (program_columns e₁ job.columns 0) reg_out_arb_hold 1

unfoldable pub strela_hw_program : Engine → Job → Engine
unfolding program_real program_columns strela_hw_write_binding
strela_hw_program e job = if e.is_sim then e else program_real e job

unfoldable pub strela_hw_stop : Engine → Engine
strela_hw_stop e =
    if e.is_sim
    then record e { sim_abort = true; sim_queued = false }
    else writel (writel (writel e reg_ctrl cmd_clear_config) reg_reset_dma 1) reg_ctrl
        cmd_clear_state

-- The `switch` of `strela_job_phase_done`, for the active job.
unfoldable pub finish_phase : Engine → Job → Phase → Engine
finish_phase e job config =
    strela_hw_start (record e { active = some (record job { phase = exec }) }) exec
finish_phase e job exec = record e { signalled = job.fence ∷ e.signalled; active = none }

-- The guard of `strela_job_phase_done`: an active job in the phase that ended.
unfoldable pub end_phase : Engine → Option Job → Phase → Engine
end_phase e none finished_phase = e
end_phase e (some job) finished_phase =
    if same_phase job.phase finished_phase then finish_phase e job finished_phase else e

unfoldable pub strela_job_phase_done : Engine → Phase → Engine
unfolding end_phase finish_phase
strela_job_phase_done e finished_phase = end_phase e e.active finished_phase

unfoldable pub strela_run_job : Engine → Job → Engine
strela_run_job e job =
    let job' = record job { phase = config } in
    strela_hw_start (strela_hw_program (record e { active = some job' }) job') config

unfoldable pub strela_job_abort : Engine → Engine
strela_job_abort e = strela_hw_stop (record e { active = none })

-- irqreturn_t
pub data IrqReturn : Type 0 where
  irq_none irq_handled irq_wake_thread : IrqReturn

-- `status` is what the control register reads as.
unfoldable pub strela_irq_handler : Engine → (status : ℕ) → Engine × IrqReturn
strela_irq_handler e status =
    if not (bit_and status cmd_pending_int_config == 0)
    then (record (writel e reg_ctrl cmd_clear_int_config) { irq_status = status }, irq_wake_thread)
    else if not (bit_and status cmd_pending_int_exec == 0)
    then (record (writel e reg_ctrl cmd_clear_int_exec) { irq_status = status }, irq_wake_thread)
    else (e, irq_none)

unfoldable pub strela_irq_thread_fn : Engine → Engine × IrqReturn
strela_irq_thread_fn e =
    let status = e.irq_status in
    let e' = record e { irq_status = 0 } in
    if not (bit_and status cmd_pending_int_config == 0)
    then (strela_job_phase_done e' config, irq_handled)
    else if not (bit_and status cmd_pending_int_exec == 0)
    then (strela_job_phase_done e' exec, irq_handled)
    else (e', irq_none)
