-- ===== src/Driver/Sim.antt =====
-- The simulated device (driver/strela_core.c, `strela_sim_bypass_column`, `strela_sim_work`). The
-- words that the device reaches are a memory from DMA addresses to words. Each wait of the worker is
-- answered by whether its time passed, and not by an abort. Memory is coherent here, so the two
-- cache operations around a copy leave no trace.
pub mod Copy
pub mod Waits
pub mod Work
use strela_pynq.Base.{
  ℕ, zero, suc, ◌+◌, ◌*◌, ◌-◌, ◌^◌, ◌==◌, leb, ltb, Bool, true, false, ◌&&◌, List, [], ◌∷◌, Option,
  none, some, if◌then◌else◌, u32,
}
use strela_pynq.Memory.{Mem, store}
use strela_pynq.Uapi.{word_size}
use strela_pynq.Driver.Engine.{
  Bound, Column, Engine, Job, Phase, config, exec, strela_job_phase_done,
}

-- The addresses of `src[i * stride]` and `dst[i]`.
abbrev pub source : Bound → (stride i : ℕ) → ℕ
source b stride i = b.dma_addr + (b.offset + u32 (i * stride)) * word_size

abbrev pub target : Bound → (i : ℕ) → ℕ
target b i = b.dma_addr + (b.offset + i) * word_size

-- The loop from word `i` on, for `n` more words.
pub copy_column : (n i : ℕ) → Bound → (stride : ℕ) → Bound → Mem → Mem
copy_column zero i from stride to words = words
copy_column (suc n) i from stride to words =
    copy_column n (i + 1) from stride to (store words (target to i) (words (source from stride i)))

-- min(in->count, out->count)
abbrev pub copied : (from to : Bound) → ℕ
copied from to = if ltb from.count to.count then from.count else to.count

-- Whether the output has all its words, and the memory; `mapped` where both objects have an
-- address in the kernel.
unfoldable pub strela_sim_bypass_column :
    (mapped : Bool) → Bound → (stride : ℕ) → Bound → Mem → Bool × Mem
unfolding copy_column
strela_sim_bypass_column mapped from stride to words =
    let n = copied from to in
    (
      leb to.count from.count,
      if n == 0 then words else if mapped then copy_column n 0 from stride to words else words,
    )

-- The loop of `strela_sim_work` over the columns from `i` on: none where a wait is aborted.
pub work_columns : List Column → ℕ → (waits : ℕ → Bool) → (fed : Bool) → Mem → Option Bool × Mem
work_columns [] i waits fed words = (some fed, words)
work_columns (c ∷ cs) i waits fed words =
    let (fed', words') = strela_sim_bypass_column true c.input c.stride c.output words in
    let rest = work_columns cs (i + 1) waits (fed && fed') words' in
    if waits i then rest else (none, words)

-- The end of the worker, with what the columns gave.
unfoldable pub finish_work : Engine → Option Bool × Mem → Engine × Mem
finish_work e (none, words) = (e, words)
finish_work e (some false, words) = (e, words)
finish_work e (some true, words) = (strela_job_phase_done e exec, words)

unfoldable pub work_on :
    Option Job → Engine → (config_wait : Bool) → (waits : ℕ → Bool) → Mem → Engine × Mem
work_on none e config_wait waits words = (e, words)
work_on (some job) e config_wait waits words =
    let done_config = strela_job_phase_done e config in
    let result = finish_work done_config (work_columns job.columns 0 waits true words) in
    if config_wait then result else (e, words)

unfoldable pub strela_sim_work :
    Engine → (config_wait : Bool) → (waits : ℕ → Bool) → Mem → Engine × Mem
unfolding work_on work_columns finish_work
strela_sim_work e config_wait waits words = work_on e.active e config_wait waits words
