-- ===== src/Tests/Driver.antt =====
-- The driver at concrete requests.
use strela_pynq.Base.{ℕ, ◌≡◌, ◌↔◌, refl, arith, [], ◌∷◌, Option, none, some, true, false}
use strela_pynq.Uapi.{StridedBinding, GemSync}
use strela_pynq.Driver.Binding.{strela_binding_check}
use strela_pynq.Driver.Binding.Exact.{IsU32, Fits, strela_binding_check-Fits}
use strela_pynq.Driver.Engine.{
  idle, config, exec, Job, Engine, strela_run_job, strela_job_phase_done, strela_irq_handler,
  strela_irq_thread_fn,
}
use strela_pynq.Driver.Engine.Reach.{boot, run, interrupt, thread, simulate, Inv, Reach-Inv}
use strela_pynq.Driver.Gem.{GemObject, CreateReplies}

-- Sixteen words, every other one from word 8 on.
abbrev strided : StridedBinding
strided = record { handle = 1; offset = 8; count = 16; stride = 2 }

strided-IsU32 : IsU32 strided
strided-IsU32 = record { offset = omega arith; count = omega arith; stride = omega arith }

strela_binding_check-Fits_example : (strela_binding_check 160 strided ≡ none) ↔ Fits 160 strided
strela_binding_check-Fits_example = strela_binding_check-Fits 160 strided strided-IsU32

abbrev some_job : Job
some_job = record {
  fence = 7;
  bitstream = record { dma_addr = 4096; offset = 0; count = 80 };
  columns = [];
  phase = config;
}

-- One job through both phases on real hardware, and a late interrupt.
abbrev over : Engine
over =
    strela_job_phase_done
      (strela_job_phase_done
        (strela_irq_thread_fn (strela_irq_handler (strela_run_job (idle false) some_job) 4).0).0
        exec)
      exec

Reach-Inv_example : Inv (7 ∷ []) over
Reach-Inv_example =
    Reach-Inv false
      (simulate exec (simulate exec (thread (interrupt 4 (run some_job boot refl tt)))))

abbrev flush_lines : GemSync
flush_lines = record { handle = 1; flags = 6; offset = 64; length = 128 }

abbrev objects : ℕ → Option GemObject
objects h = some (record { size = 4096; dma_addr = 65536 })

-- The DMA address is an error.
abbrev no_mapping : CreateReplies
no_mapping = record {
  has_memory = true;
  init = none;
  mmap_offset = none;
  has_pages = true;
  mapping_error = true;
}
