-- ===== src/Tests/Sims.antt =====
-- The simulated device at concrete jobs.
use strela_pynq.Base.{refl, true, false, [], ◌∷◌, some}
use strela_pynq.Memory.{Mem}
use strela_pynq.Driver.Engine.{Bound, Engine, Job, config}
use strela_pynq.Driver.Sim.{strela_sim_work}
use strela_pynq.Driver.Sim.Work.{Ends, strela_sim_work-Ends}

abbrev input : Bound
input = record { dma_addr = 4096; offset = 0; count = 8 }

abbrev output : Bound
output = record { dma_addr = 8192; offset = 4; count = 6 }

abbrev numbered : Mem
numbered a = a

abbrev job : Job
job = record {
  fence = 3;
  bitstream = record { dma_addr = 0; offset = 0; count = 80 };
  columns = record { input = input; stride = 2; output = output } ∷ [];
  phase = config;
}

abbrev simulated : Engine
simulated = record {
  is_sim = true;
  active = some job;
  irq_status = 0;
  sim_abort = false;
  sim_queued = true;
  writes = [];
  signalled = [];
}

strela_sim_work-Ends_example :
    Ends simulated job (strela_sim_work simulated true (λ k. true) numbered).0
strela_sim_work-Ends_example =
    strela_sim_work-Ends simulated job (λ k. true) numbered refl refl refl (λ k. refl)
