-- ===== src/OldDriver.antt =====
-- The first driver (driver/strela_driver.c): a character device with one DMA region, which user
-- space maps, and three requests. `OldDevice` is `struct strela_data`; the register writes and the
-- cache maintenance done so far are a trace, the latest first. The kernel's completions are a
-- parameter: their type `C`, `complete`, and the wait with its timeout in microseconds.
pub mod Bounds
pub mod Exclusive
pub mod Probe
pub mod Waits
use strela_pynq.Base.{
  ℕ, ◌+◌, ◌*◌, ◌^◌, ◌==◌, ltb, Bool, true, false, not, ◌&&◌, ◌||◌, List, [], ◌∷◌, Option, none,
  some, if◌then◌else◌, u32, bit_and, bit_or,
}
use strela_pynq.Uapi.{word_size}
use strela_pynq.Driver.Engine.{
  Write, IrqReturn, irq_none, irq_handled, irq_wake_thread, reg_ctrl, reg_conf_addr, reg_inp0_addr,
  reg_out0_addr, reg_out_arb_hold, reg_reset_dma, cmd_start_exec, cmd_clear_state, cmd_load_config,
  cmd_clear_config, cmd_clear_int_config, cmd_clear_int_exec, cmd_pending_int_config,
  cmd_pending_int_exec,
}

-- STRELA_DATA_REGION_SIZE
abbrev pub region_size : ℕ
region_size = 0x400000

-- What the functions return where it is not 0. `passed` is an error that a kernel call gave.
pub data Error : Type 0 where
  ebusy efault einval enotty etimedout erestartsys enomem eio : Error
  passed : (errno : ℕ) → Error

-- A range of `struct strela_ctrl`. The configuration and the outputs have no stride there: `flat`
-- is what they are checked with.
pub record Range : Type 0 where
  pub offset : ℕ
  pub count : ℕ
  pub stride : ℕ

abbrev pub flat : Range → Range
flat r = record r { stride = 1 }

pub record Ctrl : Type 0 where
  pub conf : Range
  pub inp0 : Range
  pub inp1 : Range
  pub inp2 : Range
  pub inp3 : Range
  pub out0 : Range
  pub out1 : Range
  pub out2 : Range
  pub out3 : Range

pub data Event : Type 0 where
  wrote : Write → Event
  flushed invalidated : Event

pub record OldDevice (C : Type 0) : Type 0 where
  pub dma_addr : ℕ
  pub in_use : Bool
  pub irq_status : ℕ
  pub conf_done : C
  pub exec_done : C
  pub events : List Event

-- wait_for_completion_interruptible_timeout: 0, -ERESTARTSYS, or the time that was left.
pub data Waited : Type 0 where
  timed_out interrupted in_time : Waited

unfoldable pub strela_open : {C : Type 0} → OldDevice C → Option Error × OldDevice C
strela_open d = if d.in_use then (some ebusy, d) else (none, record d { in_use = true })

unfoldable pub strela_release : {C : Type 0} → OldDevice C → Option Error × OldDevice C
strela_release d = (none, record d { in_use = false })

-- check_mul_overflow and check_add_overflow on `u32`: whether the result wrapped, and the result.
abbrev mul_wraps : (a b : ℕ) → Bool
mul_wraps a b = not (ltb (a * b) (2 ^ 32))

abbrev add_wraps : (a b : ℕ) → Bool
add_wraps a b = not (ltb (a + b) (2 ^ 32))

unfoldable pub strela_check_bounds : (offset_words count_words stride : ℕ) → Bool
strela_check_bounds offset_words count_words stride =
    if mul_wraps offset_words word_size
    then true
    else if mul_wraps count_words stride
    then true
    else if mul_wraps (u32 (count_words * stride)) word_size
    then true
    else if add_wraps (u32 (offset_words * word_size))
        (u32 (u32 (count_words * stride) * word_size))
    then true
    else ltb region_size
        (u32 (u32 (offset_words * word_size) + u32 (u32 (count_words * stride) * word_size)))

-- The operands of the nine checks, and their disjunction.
abbrev pub ranges : Ctrl → List Range
ranges ctrl =
    flat ctrl.conf
    ∷ ctrl.inp0
    ∷ ctrl.inp1
    ∷ ctrl.inp2
    ∷ ctrl.inp3
    ∷ flat ctrl.out0
    ∷ flat ctrl.out1
    ∷ flat ctrl.out2
    ∷ flat ctrl.out3
    ∷ []

abbrev pub any_out_of_bounds : List Range → Bool
any_out_of_bounds [] = false
any_out_of_bounds (r ∷ rs) = strela_check_bounds r.offset r.count r.stride || any_out_of_bounds rs

-- What an address register is given.
abbrev pub address_of : (dma_addr : ℕ) → Range → ℕ
address_of dma_addr r = u32 (dma_addr + u32 (r.offset * word_size))

-- STRELA_MKINPSIZE
unfoldable pub strela_mkinpsize : (stride count : ℕ) → ℕ
strela_mkinpsize stride count = bit_or (u32 (stride * 2 ^ 16)) (u32 (stride * count))

-- The two writes for a range without a stride, at its address register, and for an input.
abbrev flat_writes : (dma_addr register : ℕ) → Range → List Write → List Write
flat_writes dma_addr register r rest =
    (register, address_of dma_addr r) ∷ (register + 4, u32 (r.count * word_size)) ∷ rest

abbrev input_writes : (dma_addr register : ℕ) → Range → List Write → List Write
input_writes dma_addr register r rest =
    (register, address_of dma_addr r)
    ∷ (register + 4, strela_mkinpsize (u32 (r.stride * word_size)) r.count)
    ∷ rest

-- The writes of IOCTL_STRELA_CONTROL, in their order.
unfoldable pub control_writes : (dma_addr : ℕ) → Ctrl → List Write
control_writes a ctrl = flat_writes a reg_conf_addr ctrl.conf (
    input_writes a reg_inp0_addr ctrl.inp0 (
      input_writes a 0x18 ctrl.inp1 (
        input_writes a 0x20 ctrl.inp2 (
          input_writes a 0x28 ctrl.inp3 (
            flat_writes a reg_out0_addr ctrl.out0 (
              flat_writes a 0x58 ctrl.out1 (
                flat_writes a 0x60 ctrl.out2
                  (flat_writes a 0x68 ctrl.out3 ((reg_out_arb_hold, 1) ∷ [])))))))))

abbrev pub note_event : {C : Type 0} → OldDevice C → Event → OldDevice C
note_event d e = record d { events = e ∷ d.events }

abbrev pub write_all : {C : Type 0} → List Write → OldDevice C → OldDevice C
write_all [] d = d
write_all (w ∷ ws) d = write_all ws (note_event d (wrote w))

-- What a wait's result is to the caller.
abbrev pub of_wait : Waited → Option Error
of_wait timed_out = some etimedout
of_wait interrupted = some erestartsys
of_wait in_time = none

-- A request with its argument; `none` where copy_from_user fails.
pub data Request : Type 0 where
  control : Option Ctrl → Request
  config exec other : Request

ioctl_control : {C : Type 0} → Option Ctrl → OldDevice C → Option Error × OldDevice C
ioctl_control none d = (some efault, d)
ioctl_control (some ctrl) d =
    if any_out_of_bounds (ranges ctrl)
    then (some einval, d)
    else (none, write_all (control_writes d.dma_addr ctrl) d)

-- `during` is what the interrupts do to the device until the wait looks at the completion.
module _ {C : Type 0} (wait : C → (usecs : ℕ) → Waited × C)
    (during : OldDevice C → OldDevice C) where
  unfoldable pub ioctl_config : OldDevice C → Option Error × OldDevice C
  ioctl_config d =
      let d₁ = during (
        write_all
          ((reg_ctrl, cmd_clear_config) ∷ (reg_reset_dma, 1) ∷ (reg_ctrl, cmd_load_config) ∷ [])
          (note_event d flushed)) in
      let (w, c) = wait d₁.conf_done 5000 in
      (of_wait w, write_all ((reg_ctrl, cmd_clear_state) ∷ []) (record d₁ { conf_done = c }))

  unfoldable pub ioctl_exec : OldDevice C → Option Error × OldDevice C
  ioctl_exec d =
      let d₁ = during (write_all ((reg_ctrl, cmd_start_exec) ∷ []) (note_event d flushed)) in
      let (w, c) = wait d₁.exec_done 500000 in
      (of_wait w, note_event (record d₁ { exec_done = c }) invalidated)

  unfoldable pub strela_ioctl : Request → OldDevice C → Option Error × OldDevice C
  unfolding ioctl_control ioctl_config ioctl_exec
  strela_ioctl (control ctrl) d = ioctl_control ctrl d
  strela_ioctl config d = ioctl_config d
  strela_ioctl exec d = ioctl_exec d
  strela_ioctl other d = (some enotty, d)

-- `status` is what the control register reads as.
unfoldable pub strela_irq_handler :
    {C : Type 0} → (status : ℕ) → OldDevice C → IrqReturn × OldDevice C
strela_irq_handler status d =
    if not (bit_and status cmd_pending_int_config == 0)
    then (
      irq_wake_thread,
      record (note_event d (wrote (reg_ctrl, cmd_clear_int_config))) { irq_status = status },
    )
    else if not (bit_and status cmd_pending_int_exec == 0)
    then (
      irq_wake_thread,
      record (note_event d (wrote (reg_ctrl, cmd_clear_int_exec))) { irq_status = status },
    )
    else (irq_none, d)

unfoldable pub strela_irq_thread_fn :
    {C : Type 0} → (complete : C → C) → OldDevice C → IrqReturn × OldDevice C
strela_irq_thread_fn complete d =
    if not (bit_and d.irq_status cmd_pending_int_config == 0)
    then (irq_handled, record d { irq_status = 0; conf_done = complete d.conf_done })
    else if not (bit_and d.irq_status cmd_pending_int_exec == 0)
    then (irq_handled, record d { irq_status = 0; exec_done = complete d.exec_done })
    else (irq_none, d)

mmap_result : Bool → Option ℕ → Option Error
mmap_result false mapped = some einval
mmap_result true none = none
mmap_result true (some e) = some (passed e)

-- strela_mmap, with what dma_mmap_pages returns: `none` is 0.
unfoldable pub strela_mmap : (requested_size : ℕ) → (mapped : Option ℕ) → Option Error
unfolding mmap_result
strela_mmap requested_size mapped = mmap_result (requested_size == region_size) mapped
