-- ===== src/Cycle/Tests.antt =====
-- Runs of components/cn105/cycle_management.cpp, one of them across the wrap of the clock.
use mitsubishi_cn105esphome.Prelude.{ℕ, ◌≡◌, refl, true, false, List, [], ◌∷◌, arith}
use mitsubishi_cn105esphome.Schedule.{
  LoopAction, LoopInputs, starved, decide_loop_action, is_cycle_starved,
  should_force_remote_temp_send,
}
use mitsubishi_cn105esphome.Cycle.{CycleManagement, check_timeout, cycle_started, cycle_ended}
use mitsubishi_cn105esphome.Cycle.Wrap.{
  check_all, with_cycle, wrapped_cycle_blocks, end_all, wrapped_polls_only_starved,
}

abbrev running : CycleManagement
running = record {
  cycle_running = true;
  last_cycle_start_ms = 10000;
  last_complete_cycle_ms = 8000;
  last_cycle_end_ms = 8000;
}

abbrev writes : List ℕ
writes = 11000 ∷ 12000 ∷ []

-- Started half a second before the clock wraps.
abbrev before_wrap : CycleManagement
before_wrap = record {
  cycle_running = true;
  last_cycle_start_ms = 4294966796;
  last_complete_cycle_ms = 4294964000;
  last_cycle_end_ms = 4294964000;
}

abbrev waiting_writes : LoopInputs
waiting_writes = record {
  now_ms = 0;
  update_interval_ms = 2000;
  cycle_running = false;
  last_cycle_end_ms = 0;
  last_complete_cycle_ms = 0;
  wanted_settings_changed = true;
  wanted_run_states_changed = true;
  set_functions_pending = false;
  remote_temp_send_pending = false;
  remote_temp_pending_since_ms = 0;
  last_send_ms = 0;
}

wrapped_cycle_blocks_example :
    (decide_loop_action
        (with_cycle waiting_writes (check_all before_wrap 2000 (100 ∷ 60000 ∷ [])) 3600000)
      ≡ LoopAction.check_cycle_timeout)
    × (check_timeout (check_all before_wrap 2000 (100 ∷ 60000 ∷ [])) 2000 3600000 ≡ before_wrap)
wrapped_cycle_blocks_example =
    wrapped_cycle_blocks before_wrap waiting_writes 2000 (100 ∷ 60000 ∷ []) 3600000 refl
      (omega arith, (omega arith, tt)) (omega arith)

-- No write waits, and the cycles after the wrap end at 1 s and at 10 s.
abbrev no_writes_wait : LoopInputs
no_writes_wait = record waiting_writes {
  wanted_settings_changed = false;
  wanted_run_states_changed = false;
}

wrapped_starts :
    decide_loop_action (with_cycle no_writes_wait (end_all before_wrap (1000 ∷ 10000 ∷ [])) 18001)
    ≡ LoopAction.start_cycle
unfolding decide_loop_action is_cycle_starved should_force_remote_temp_send end_all cycle_ended
    cycle_started
wrapped_starts = refl

wrapped_polls_only_starved_example :
    starved (with_cycle no_writes_wait (end_all before_wrap (1000 ∷ 10000 ∷ [])) 18001) ≡ true
wrapped_polls_only_starved_example =
    wrapped_polls_only_starved before_wrap no_writes_wait (1000 ∷ 10000 ∷ []) 18001
      (omega arith, (omega arith, tt)) (omega arith) wrapped_starts
