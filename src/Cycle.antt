-- ===== src/Cycle.antt =====
-- components/cn105/cycle_management.h and cycle_management.cpp: the state of the polling cycle.
-- `CUSTOM_MILLIS` is an argument, the same for the whole call; `unsigned long` has 32 bits on the
-- target. `defer_cycle` doubles its delay in a build with debug logs: `debug`.
pub mod Timeout
pub mod Wrap
pub mod Tests
use mitsubishi_cn105esphome.Prelude.{ℕ, ◌+◌, ◌*◌, Bool, true, false, ltb, if◌then◌else◌}
use mitsubishi_cn105esphome.Prelude.Word.{u32, sub32}

abbrev pub defer_schedule_update_loop_delay : ℕ
defer_schedule_update_loop_delay = 750

pub record CycleManagement : Type 0 where
  pub cycle_running : Bool
  pub last_cycle_start_ms : ℕ
  pub last_complete_cycle_ms : ℕ
  pub last_cycle_end_ms : ℕ

unfoldable pub init : CycleManagement → ℕ → CycleManagement
init c now = record c {
  cycle_running = false;
  last_complete_cycle_ms = now;
  last_cycle_end_ms = now;
}

unfoldable pub defer_cycle : Bool → CycleManagement → ℕ → CycleManagement
defer_cycle debug c now =
    let delay =
      if debug then defer_schedule_update_loop_delay * 2 else defer_schedule_update_loop_delay in
    record c { last_complete_cycle_ms = u32 (now + delay) }

unfoldable pub cycle_started : CycleManagement → ℕ → CycleManagement
cycle_started c now = record c { last_cycle_start_ms = now; cycle_running = true }

unfoldable pub cycle_ended : CycleManagement → ℕ → CycleManagement
cycle_ended c now = record c {
  cycle_running = false;
  last_cycle_end_ms = now;
  last_complete_cycle_ms =
      if ltb c.last_complete_cycle_ms now then now else c.last_complete_cycle_ms;
}

unfoldable pub does_cycle_time_out : CycleManagement → ℕ → ℕ → Bool
does_cycle_time_out c update_interval now =
    if ltb now c.last_cycle_start_ms
    then false
    else ltb (u32 (2 * update_interval + 1000)) (sub32 now c.last_cycle_start_ms)

unfoldable pub check_timeout : CycleManagement → ℕ → ℕ → CycleManagement
unfolding does_cycle_time_out cycle_ended
check_timeout c update_interval now =
    if does_cycle_time_out c update_interval now then cycle_ended c now else c
