-- ===== src/Driver/Sim/Work.antt =====
-- A job on the simulated device that nothing interrupts (driver/strela_core.c, `strela_sim_work`).
use strela_pynq.Base.{
  ℕ, ◌+◌, ◌≤◌, ◌≡◌, refl, sym, ◌∙◌, ap, arith, leb, Bool, true, false, ◌&&◌, if◌then◌else◌,
  Bool-cases, inl, inr, List, [], ◌∷◌, Option, none, some,
}
use strela_pynq.Memory.{Mem}
use strela_pynq.Driver.Engine.{
  Column as EngineColumn, Engine, Job, config, exec, strela_job_phase_done, end_phase, finish_phase,
  strela_hw_start, start_sim,
}
use strela_pynq.Driver.Sim.{
  strela_sim_bypass_column, work_columns, finish_work, work_on, strela_sim_work,
}

-- Each input has all the words that its output waits for.
abbrev pub AllFed : List EngineColumn → Type 0
AllFed [] = Unit {0}
AllFed (c ∷ cs) = (c.output.count ≤ c.input.count) × AllFed cs

abbrev all_fed : List EngineColumn → Bool
all_fed [] = true
all_fed (c ∷ cs) = leb c.output.count c.input.count && all_fed cs

and_assoc : (a b c : Bool) → ((a && b) && c) ≡ (a && (b && c))
and_assoc true b c = refl
and_assoc false b c = refl

and_true : (a : Bool) → (a && true) ≡ a
and_true true = refl
and_true false = refl

work_columns_lem :
    (cs : List EngineColumn) (i : ℕ) (waits : ℕ → Bool) (fed : Bool) (words : Mem)
    → ((k : ℕ) → waits k ≡ true)
    → (work_columns cs i waits fed words).0 ≡ some (fed && all_fed cs)
unfolding work_columns strela_sim_bypass_column
work_columns_lem [] i waits fed words pass = ap some (sym (and_true fed))
work_columns_lem (c ∷ cs) i waits fed words pass =
    simp (pass) (work_columns_lem cs (i + 1) waits _ _ pass ∙ ap some (and_assoc fed _ _))

and-both : (a b : Bool) → (a && b) ≡ true → (a ≡ true) × (b ≡ true)
and-both true b h = (refl, h)
and-both false b h = absurd (ground (arith, h))

all_fed-AllFed : (cs : List EngineColumn) → all_fed cs ≡ true → AllFed cs
all_fed-AllFed [] h = tt
all_fed-AllFed (c ∷ cs) h =
    let (first, rest) = and-both (leb c.output.count c.input.count) (all_fed cs) h in
    (ground (arith, first), all_fed-AllFed cs rest)

AllFed-all_fed : (cs : List EngineColumn) → AllFed cs → all_fed cs ≡ true
AllFed-all_fed [] h = refl
AllFed-all_fed (c ∷ cs) h =
    let first : leb c.output.count c.input.count ≡ true = ground arith in
    simp (first, AllFed-all_fed cs h.1)

pub data Ends (e : Engine) (job : Job) (r : Engine) : Type 0 where
  signals :
      AllFed job.columns → r.signalled ≡ job.fence ∷ e.signalled → r.active ≡ none → Ends e job r
  starves :
      ¬ AllFed job.columns
      → r.signalled ≡ e.signalled
      → r.active ≡ some (record job { phase = exec })
      → Ends e job r

configured :
    (e : Engine) (job : Job)
    → e.active ≡ some job
    → job.phase ≡ config
    → e.is_sim ≡ true
    → strela_job_phase_done e config ≡ record e { active = some (record job { phase = exec }) }
unfolding strela_job_phase_done end_phase finish_phase strela_hw_start start_sim
configured e job on fresh sim = simp (on, fresh, sim)

abbrev executing : Engine → Job → Engine
executing e job = record e { active = some (record job { phase = exec }) }

worked :
    (e : Engine) (job : Job) (waits : ℕ → Bool) (words : Mem)
    → e.active ≡ some job
    → job.phase ≡ config
    → e.is_sim ≡ true
    → (strela_sim_work e true waits words).0
      ≡ (finish_work (executing e job) (work_columns job.columns 0 waits true words)).0
unfolding strela_sim_work work_on
worked e job waits words on fresh sim = simp (on, configured e job on fresh sim)

finished :
    (e : Engine) (p : Option Bool × Mem) (b : Bool)
    → p.0 ≡ some b
    → (finish_work e p).0 ≡ (if b then strela_job_phase_done e exec else e)
unfolding finish_work
finished e p b h = ap (λ (q : Option Bool × Mem). (finish_work e q).0) (λ i. (h i, p.1)) ∙ by_fed b
  where
    by_fed :
        (b : Bool)
        → (finish_work e (some b, p.1)).0 ≡ (if b then strela_job_phase_done e exec else e)
    by_fed true = refl
    by_fed false = refl

-- The worker of a simulated device with a job to configure, none of whose waits is aborted: if every
-- input has the words that its output waits for, it signals the job's fence, once, and takes the job
-- off the device; if some input has not, it leaves the job executing, without a signal.
pub strela_sim_work-Ends :
    (e : Engine) (job : Job) (waits : ℕ → Bool) (words : Mem)
    → e.active ≡ some job
    → job.phase ≡ config
    → e.is_sim ≡ true
    → ((k : ℕ) → waits k ≡ true)
    → Ends e job (strela_sim_work e true waits words).0
unfolding strela_sim_work work_on strela_job_phase_done end_phase finish_phase
strela_sim_work-Ends e job waits words on fresh sim pass =
    rw (worked e job waits words on fresh sim) (
      rw
        (finished (executing e job) (work_columns job.columns 0 waits true words) _
          (work_columns_lem job.columns 0 waits true words pass))
        (elim (Bool-cases (all_fed job.columns)) [
          | inl fed ↦ simp (fed) (signals (all_fed-AllFed job.columns fed) refl refl)
          | inr hungry ↦ simp (hungry) (
              starves (λ h. absurd (ground (arith, hungry, AllFed-all_fed job.columns h))) refl
                refl)
        ]))
