-- ===== src/Driver/Sim/Copy.antt =====
-- What the simulated device moves (driver/strela_core.c, `strela_sim_bypass_column`).
use strela_pynq.Base.{ℕ, ◌≤◌, ◌<◌, ◌≡◌, ◌≢◌, Bool, true}
use strela_pynq.Memory.{Mem}
use strela_pynq.Driver.Engine.{Bound}
use strela_pynq.Driver.Sim.{source, target, copied}

module _ (from : Bound) (stride : ℕ) (to : Bound) where
  -- What a column does: the words that it moves, and the memory around them.
  pub record Moves (words : Mem) (r : Bool × Mem) : Type 0 where
    pub fed : (r.0 ≡ true → to.count ≤ from.count) × (to.count ≤ from.count → r.0 ≡ true)
    pub moved : (j : ℕ) → j < copied from to → r.1 (target to j) ≡ words (source from stride j)
    pub spared : (x : ℕ) → ((j : ℕ) → j < to.count → x ≢ target to j) → r.1 x ≡ words x
