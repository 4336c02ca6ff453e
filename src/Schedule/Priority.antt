-- ===== src/Schedule/Priority.antt =====
-- components/cn105/scheduling_policy.h, `decide_loop_action`: who goes first.
use mitsubishi_cn105esphome.Prelude.{◌+◌, ◌*◌, ◌<◌, ◌≡◌, ◌⊎◌, ◌↔◌, true, false, arith}
use mitsubishi_cn105esphome.Prelude.Word.{sub32}
use mitsubishi_cn105esphome.Schedule.{
  LoopAction, LoopInputs, forced, starved, passed, decide_loop_action, is_cycle_starved,
}

-- Nothing waits to be written.
abbrev pub NoWrites : LoopInputs → Type 0
NoWrites i =
    (i.wanted_settings_changed ≡ false)
    × (i.wanted_run_states_changed ≡ false)
    × (i.set_functions_pending ≡ false)

-- A cycle is started exactly when none runs, no stalled remote temperature is due, and either cycles
-- are starved, or nothing waits to be written and the update interval has passed.
starts_cycle_iff :
    (i : LoopInputs)
    → (decide_loop_action i ≡ LoopAction.start_cycle) ↔ (
        (i.cycle_running ≡ false)
        × (forced i ≡ false)
        × ((starved i ≡ true) ⊎ (NoWrites i × (passed i ≡ true))))
unfolding decide_loop_action
starts_cycle_iff i = (λ h. ground arith, λ h. ground arith)

-- The settings are sent exactly when they have changed and neither a running cycle, nor a stalled
-- remote temperature, nor starved cycles go first.
pub sends_settings_iff :
    (i : LoopInputs)
    → (decide_loop_action i ≡ LoopAction.send_settings) ↔ (
        (i.cycle_running ≡ false)
        × (forced i ≡ false)
        × (starved i ≡ false)
        × (i.wanted_settings_changed ≡ true))
unfolding decide_loop_action
sends_settings_iff i = (λ h. ground arith, λ h. ground arith)

-- However many writes wait, once the last cycle ended more than three intervals and two seconds ago
-- and no cycle runs, the loop starts a cycle or sends the stalled remote temperature. The interval
-- is small enough that the threshold does not wrap.
pub reads_not_starved :
    (i : LoopInputs)
    → i.update_interval_ms < 1431655098
    → 3 * i.update_interval_ms + 2000 < sub32 i.now_ms i.last_cycle_end_ms
    → i.cycle_running ≡ false
    → (decide_loop_action i ≡ LoopAction.start_cycle)
      ⊎ (decide_loop_action i ≡ LoopAction.send_remote_temp)
unfolding decide_loop_action is_cycle_starved
reads_not_starved i small late idle = ground arith
