-- ===== src/Schedule/Tests.antt =====
-- Runs of components/cn105/scheduling_policy.h with an update interval of two seconds.
use mitsubishi_cn105esphome.Prelude.{◌+◌, ◌≡◌, refl, ◌⊎◌, true, false, arith}
use mitsubishi_cn105esphome.Prelude.Word.{u32}
use mitsubishi_cn105esphome.Schedule.{
  LoopAction, LoopInputs, decide_loop_action, should_suppress_repeat_command, is_cycle_starved,
  should_force_remote_temp_send,
}
use mitsubishi_cn105esphome.Schedule.Priority.{reads_not_starved}
use mitsubishi_cn105esphome.Schedule.Shift.{windows_shift}

-- Settings wait, and the last cycle ended nine seconds ago.
abbrev late : LoopInputs
late = record {
  now_ms = 20000;
  update_interval_ms = 2000;
  cycle_running = false;
  last_cycle_end_ms = 11000;
  last_complete_cycle_ms = 11000;
  wanted_settings_changed = true;
  wanted_run_states_changed = false;
  set_functions_pending = false;
  remote_temp_send_pending = false;
  remote_temp_pending_since_ms = 0;
  last_send_ms = 19000;
}

late_starts : decide_loop_action late ≡ LoopAction.start_cycle
unfolding decide_loop_action is_cycle_starved should_force_remote_temp_send
late_starts = refl

reads_not_starved_example :
    (decide_loop_action late ≡ LoopAction.start_cycle)
    ⊎ (decide_loop_action late ≡ LoopAction.send_remote_temp)
reads_not_starved_example = reads_not_starved late (omega arith) (omega arith) refl

windows_shift_example :
    (should_suppress_repeat_command true true
        (u32 (5000 + 4294964296))
        (u32 (1000 + 4294964296))
        2000
      ≡ should_suppress_repeat_command true true 5000 1000 2000)
    × (is_cycle_starved (u32 (5000 + 4294964296)) (u32 (1000 + 4294964296)) 2000
        ≡ is_cycle_starved 5000 1000 2000)
    × (should_force_remote_temp_send true
          (u32 (5000 + 4294964296))
          (u32 (1000 + 4294964296))
          (u32 (2000 + 4294964296))
          2000
        ≡ should_force_remote_temp_send true 5000 1000 2000 2000)
windows_shift_example =
    windows_shift true true 5000 1000 2000 2000 4294964296 (omega arith) (omega arith) (omega arith)
