-- ===== src/OldDriver/Waits.antt =====
-- The completions of the first driver (driver/strela_driver.c): what one interrupt does, and what a
-- late one leaves behind.
use strela_pynq.Base.{
  ℕ, ◌≡◌, ◌≢◌, ap, ◌∙◌, arith, ◌==◌, Bool-cases, inl, inr, ◌∷◌, none, some, bit_and,
}
use strela_pynq.Driver.Engine.{
  IrqReturn, irq_none, irq_handled, irq_wake_thread, reg_ctrl, cmd_clear_int_config,
  cmd_clear_int_exec, cmd_pending_int_config, cmd_pending_int_exec,
}
use strela_pynq.OldDriver.{
  OldDevice, Waited, timed_out, in_time, wrote, etimedout, config, strela_irq_handler,
  strela_irq_thread_fn, strela_ioctl, ioctl_config, of_wait,
}

-- One interrupt: the handler, and its thread if the handler wakes it.
after_handler : {C : Type 0} → (complete : C → C) → IrqReturn × OldDevice C → OldDevice C
after_handler complete (irq_wake_thread, d) = (strela_irq_thread_fn complete d).1
after_handler complete (irq_none, d) = d
after_handler complete (irq_handled, d) = d

unfoldable pub interrupt :
    {C : Type 0} → (complete : C → C) → (status : ℕ) → OldDevice C → OldDevice C
unfolding after_handler
interrupt complete status d = after_handler complete (strela_irq_handler status d)

-- What an interrupt does: one completion for the flag that its handler clears, or nothing.
pub data Interrupts {C : Type 0} (complete : C → C) (status : ℕ) (d : OldDevice C)
    : OldDevice C → Type 0 where
  configured :
      bit_and status cmd_pending_int_config ≢ 0
      → Interrupts complete status d (record d {
        irq_status = 0;
        conf_done = complete d.conf_done;
        events = wrote (reg_ctrl, cmd_clear_int_config) ∷ d.events;
      })
  executed :
      bit_and status cmd_pending_int_config ≡ 0
      → bit_and status cmd_pending_int_exec ≢ 0
      → Interrupts complete status d (record d {
        irq_status = 0;
        exec_done = complete d.exec_done;
        events = wrote (reg_ctrl, cmd_clear_int_exec) ∷ d.events;
      })
  foreign :
      bit_and status cmd_pending_int_config ≡ 0
      → bit_and status cmd_pending_int_exec ≡ 0
      → Interrupts complete status d d

interrupt-configured :
    {C : Type 0} (complete : C → C) (status : ℕ) (d : OldDevice C)
    → bit_and status cmd_pending_int_config ≢ 0
    → interrupt complete status d ≡ record d {
      irq_status = 0;
      conf_done = complete d.conf_done;
      events = wrote (reg_ctrl, cmd_clear_int_config) ∷ d.events;
    }
unfolding interrupt after_handler strela_irq_handler strela_irq_thread_fn
interrupt-configured complete status d is_config = ground (arith, is_config)

interrupt-executed :
    {C : Type 0} (complete : C → C) (status : ℕ) (d : OldDevice C)
    → bit_and status cmd_pending_int_config ≡ 0
    → bit_and status cmd_pending_int_exec ≢ 0
    → interrupt complete status d ≡ record d {
      irq_status = 0;
      exec_done = complete d.exec_done;
      events = wrote (reg_ctrl, cmd_clear_int_exec) ∷ d.events;
    }
unfolding interrupt after_handler strela_irq_handler strela_irq_thread_fn
interrupt-executed complete status d no_config is_exec = ground (arith, no_config, is_exec)

-- An interrupt of the device makes exactly one completion, and clears the flag that it makes it
-- for: with both flags pending the configuration's, so that the other stays pending for the next.
-- An interrupt of another device on the line changes nothing.
pub interrupt-Interrupts :
    {C : Type 0} (complete : C → C) (status : ℕ) (d : OldDevice C)
    → Interrupts complete status d (interrupt complete status d)
unfolding interrupt after_handler strela_irq_handler strela_irq_thread_fn
interrupt-Interrupts complete status d =
    elim (Bool-cases (bit_and status cmd_pending_int_config == 0)) [
      | inl none_conf ↦ elim (Bool-cases (bit_and status cmd_pending_int_exec == 0)) [
        | inl none_exec ↦
            simp (none_conf, none_exec)
              (foreign (ground (arith, none_conf)) (ground (arith, none_exec)))
        | inr some_exec ↦
            rw
              (interrupt-executed complete status d (ground (arith, none_conf))
                (ground (arith, some_exec)))
              (executed (ground (arith, none_conf)) (ground (arith, some_exec)))
      ]
      | inr some_conf ↦
          rw (interrupt-configured complete status d (ground (arith, some_conf)))
            (configured (ground (arith, some_conf)))
    ]

-- A configuration that timed out makes a later one succeed without any interrupt of its own: if its
-- interrupt comes after the wait, the completion stays, and the next IOCTL_STRELA_CONFIG returns
-- 0 at once although the device did nothing in its wait. (A wait that follows `complete` is
-- assumed to return in time.)
pub config-stale :
    {C : Type 0} (complete : C → C) (wait : C → ℕ → Waited × C) (d : OldDevice C) (status : ℕ)
    → ((c : C) (usecs : ℕ) → wait (complete c) usecs ≡ (in_time, c))
    → bit_and status cmd_pending_int_config ≢ 0
    → (wait d.conf_done 5000).0 ≡ timed_out
    → let first = strela_ioctl wait (λ e. e) config d in
      let second = strela_ioctl wait (λ e. e) config (interrupt complete status first.1) in
      (first.0 ≡ some etimedout) × (second.0 ≡ none)
unfolding strela_ioctl ioctl_config
config-stale complete wait d status takes pending late = (
  ap of_wait late,
  ap of_wait (
      ap (λ c. (wait c 5000).0)
        (ap (λ e. e.conf_done) (interrupt-configured complete status _ pending))
      ∙ ap (λ r. r.0) (takes _ 5000)),
)
