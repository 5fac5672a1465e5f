-- ===== src/Tests/OldDrivers.antt =====
-- The first driver's properties at concrete devices.
use strela_pynq.Base.{
  ℕ, zero, suc, ◌≡◌, ◌↔◌, refl, arith, true, false, [], none, some, given, failed, first_error,
}
use strela_pynq.OldDriver.{
  Range, Ctrl, OldDevice, Waited, timed_out, in_time, control, config, etimedout,
  strela_check_bounds, strela_open, strela_ioctl,
}
use strela_pynq.OldDriver.Bounds.{Inside, Controls, strela_check_bounds_iff, strela_ioctl-Controls}
use strela_pynq.OldDriver.Exclusive.{Runs, probed, opened}
use strela_pynq.OldDriver.Waits.{interrupt, config-stale}
use strela_pynq.OldDriver.Probe.{ProbeAnswers, strela_probe}
use strela_pynq.OldDriver.Probe.Settle.{Probes, probe_results, strela_probe-Probes}

-- A completion as the number of times it was made.
abbrev wait_count : ℕ → ℕ → Waited × ℕ
wait_count zero usecs = (timed_out, zero)
wait_count (suc n) usecs = (in_time, n)

abbrev idle : OldDevice ℕ
idle = record {
  dma_addr = 0x1000000;
  in_use = false;
  irq_status = 0;
  conf_done = 0;
  exec_done = 0;
  events = [];
}

abbrev last_words : Range
last_words = record { offset = 1044480; count = 1024; stride = 4 }

abbrev ctrl : Ctrl
ctrl = record {
  conf = record { offset = 0; count = 80; stride = 1 };
  inp0 = last_words;
  inp1 = last_words;
  inp2 = last_words;
  inp3 = last_words;
  out0 = record { offset = 512; count = 16; stride = 1 };
  out1 = record { offset = 528; count = 16; stride = 1 };
  out2 = record { offset = 544; count = 16; stride = 1 };
  out3 = record { offset = 560; count = 16; stride = 1 };
}

strela_check_bounds_iff_example : (strela_check_bounds (1044480) 1024 4 ≡ false) ↔ Inside last_words
strela_check_bounds_iff_example = strela_check_bounds_iff last_words

strela_ioctl-Controls_example :
    Controls idle ctrl (strela_ioctl wait_count (λ d. d) (control (some ctrl)) idle)
strela_ioctl-Controls_example = strela_ioctl-Controls wait_count (λ d. d) idle ctrl (omega arith)

config-stale_example :
    let first = strela_ioctl wait_count (λ e. e) config idle in
    let second = strela_ioctl wait_count (λ e. e) config (interrupt suc 4 first.1) in
    (first.0 ≡ some etimedout) × (second.0 ≡ none)
config-stale_example =
    config-stale suc wait_count idle 4 (λ c usecs. refl) (λ e. omega (arith, e)) refl

-- A device whose interrupt is not there.
abbrev no_irq : ProbeAnswers
no_irq = record {
  allocated = true;
  map_error = none;
  challenge1 = 5;
  challenge2 = 7;
  response = 12;
  pages = true;
  irq = failed 6;
  request_error = none;
  minor = given 0;
  cdev_error = none;
  device_error = none;
}

strela_probe-Probes_example :
    ((strela_probe no_irq).0 ≡ first_error (probe_results no_irq))
    × Probes no_irq (strela_probe no_irq)
strela_probe-Probes_example = strela_probe-Probes no_irq

-- Opened once.
opened_once : Runs (strela_open idle).1 1
unfolding strela_open
opened_once = opened idle 0 (probed idle refl) refl
