-- ===== src/Driver/Sim/Waits.antt =====
-- How long the simulated device waits (driver/strela_core.c, `strela_sim_phase_us`,
-- `strela_sim_wait`). The random number is an argument, and so is what `wait_event_hrtimeout` answers
-- to a timeout in nanoseconds.
use strela_pynq.Base.{
  ℕ, ◌+◌, ◌*◌, ◌/◌, ◌^◌, ◌==◌, ◌≤◌, ◌<◌, ◌≡◌, arith, Bool, true, false, if◌then◌else◌, u32, w64,
}
use strela_pynq.Driver.Engine.{Phase, config, exec, same_phase}

-- The answer of wait_event_hrtimeout: -ETIME, or 0.
pub data WaitAnswer : Type 0 where
  time_passed woken : WaitAnswer

abbrev is_time_passed : WaitAnswer → Bool
is_time_passed time_passed = true
is_time_passed woken = false

unfoldable pub strela_sim_wait : (wait_event : (ns : ℕ) → WaitAnswer) → (us : ℕ) → Bool
strela_sim_wait wait_event us = is_time_passed (wait_event (w64 (us * 1000)))

-- `random_below` is get_random_u32_below.
unfoldable pub strela_sim_phase_us :
    (sim_job_delay_us : ℕ) → (random_below : (ceil : ℕ) → ℕ) → Phase → ℕ
strela_sim_phase_us sim_job_delay_us random_below phase =
    let us = if same_phase phase config then sim_job_delay_us / 4 else sim_job_delay_us in
    let us' = if us == 0 then 1 else us in us' + random_below (u32 (us' / 2 + 1))

-- The time of a phase without the random part.
abbrev pub nominal_us : (sim_job_delay_us : ℕ) → Phase → ℕ
nominal_us d config = if d / 4 == 0 then 1 else d / 4
nominal_us d exec = if d == 0 then 1 else d

-- A phase lasts for at least its time, a quarter of the delay or the delay, but not 0, and for at most
-- half of that more; in nanoseconds it fits a word. The delay is 32 bits wide, and a random number
-- below a positive bound is below it.
pub strela_sim_phase_us-nominal :
    (d : ℕ) (random_below : ℕ → ℕ) (p : Phase)
    → d < 2 ^ 32
    → ((ceil : ℕ) → 0 < ceil → random_below ceil < ceil)
    → (nominal_us d p ≤ strela_sim_phase_us d random_below p)
      × (strela_sim_phase_us d random_below p ≤ nominal_us d p + nominal_us d p / 2)
      × (w64 (strela_sim_phase_us d random_below p * 1000)
          ≡ strela_sim_phase_us d random_below p * 1000)
unfolding strela_sim_phase_us
strela_sim_phase_us-nominal d random_below config small below =
    let us : ℕ = nominal_us d config in
    let bound : u32 (us / 2 + 1) ≡ us / 2 + 1 = ground (arith, small) in
    let r : random_below (u32 (us / 2 + 1)) < us / 2 + 1 =
      omega (arith, bound, below (u32 (us / 2 + 1)) (omega (arith, bound))) in
    let le : us < 2 ^ 32 = ground (arith, small) in
    (omega arith, omega (arith, r), omega (arith, r, le))
strela_sim_phase_us-nominal d random_below exec small below =
    let us : ℕ = nominal_us d exec in
    let bound : u32 (us / 2 + 1) ≡ us / 2 + 1 = ground (arith, small) in
    let r : random_below (u32 (us / 2 + 1)) < us / 2 + 1 =
      omega (arith, bound, below (u32 (us / 2 + 1)) (omega (arith, bound))) in
    let le : us < 2 ^ 32 = ground (arith, small) in
    (omega arith, omega (arith, r), omega (arith, r, le))
