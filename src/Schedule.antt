-- ===== src/Schedule.antt =====
-- components/cn105/scheduling_policy.h: what one iteration of the main loop does. Times are
-- `uint32_t` milliseconds, which wrap.
pub mod Priority
pub mod Shift
pub mod Tests
use mitsubishi_cn105esphome.Prelude.{
  ℕ, ◌+◌, ◌*◌, Bool, true, false, not, ◌||◌, ltb, leb, if◌then◌else◌,
}
use mitsubishi_cn105esphome.Prelude.Word.{u32, sub32}

abbrev pub command_settle_margin_ms : ℕ
command_settle_margin_ms = 2500

abbrev pub cycle_starvation_margin_ms : ℕ
cycle_starvation_margin_ms = 2000

abbrev pub remote_temp_stall_margin_ms : ℕ
remote_temp_stall_margin_ms = 3000

unfoldable pub command_settle_window_ms : ℕ → ℕ
command_settle_window_ms update_interval_ms =
    u32 (2 * update_interval_ms + command_settle_margin_ms)

unfoldable pub should_suppress_repeat_command : Bool → Bool → ℕ → ℕ → ℕ → Bool
unfolding command_settle_window_ms
should_suppress_repeat_command has_previous_command same_target now_ms last_command_ms interval =
    if not has_previous_command || not same_target
    then false
    else ltb (sub32 now_ms last_command_ms) (command_settle_window_ms interval)

unfoldable pub cycle_starvation_threshold_ms : ℕ → ℕ
cycle_starvation_threshold_ms update_interval_ms =
    u32 (3 * update_interval_ms + cycle_starvation_margin_ms)

unfoldable pub is_cycle_starved : ℕ → ℕ → ℕ → Bool
unfolding cycle_starvation_threshold_ms
is_cycle_starved now_ms last_cycle_end_ms update_interval_ms =
    ltb (cycle_starvation_threshold_ms update_interval_ms) (sub32 now_ms last_cycle_end_ms)

unfoldable pub remote_temp_stall_threshold_ms : ℕ → ℕ
unfolding cycle_starvation_threshold_ms
remote_temp_stall_threshold_ms update_interval_ms =
    u32 (cycle_starvation_threshold_ms update_interval_ms + remote_temp_stall_margin_ms)

unfoldable pub should_force_remote_temp_send : Bool → ℕ → ℕ → ℕ → ℕ → Bool
unfolding remote_temp_stall_threshold_ms
should_force_remote_temp_send send_pending now_ms pending_since_ms last_send_ms interval =
    if not send_pending
    then false
    else if ltb (sub32 now_ms pending_since_ms) (remote_temp_stall_threshold_ms interval)
    then false
    else ltb 300 (sub32 now_ms last_send_ms)

unfoldable pub has_update_interval_passed : ℕ → ℕ → ℕ → Bool
has_update_interval_passed now_ms last_complete_cycle_ms update_interval_ms =
    if ltb now_ms last_complete_cycle_ms
    then false
    else ltb update_interval_ms (sub32 now_ms last_complete_cycle_ms)

pub data LoopAction : Type 0 where
  idle check_cycle_timeout send_remote_temp send_settings send_run_states : LoopAction
  set_functions start_cycle : LoopAction

pub record LoopInputs : Type 0 where
  pub now_ms : ℕ
  pub update_interval_ms : ℕ
  pub cycle_running : Bool
  pub last_cycle_end_ms : ℕ
  pub last_complete_cycle_ms : ℕ
  pub wanted_settings_changed : Bool
  pub wanted_run_states_changed : Bool
  pub set_functions_pending : Bool
  pub remote_temp_send_pending : Bool
  pub remote_temp_pending_since_ms : ℕ
  pub last_send_ms : ℕ

-- The three tests that `decide_loop_action` makes on its inputs.
abbrev pub forced : LoopInputs → Bool
forced i =
    should_force_remote_temp_send i.remote_temp_send_pending i.now_ms i.remote_temp_pending_since_ms
      i.last_send_ms i.update_interval_ms

abbrev pub starved : LoopInputs → Bool
starved i = is_cycle_starved i.now_ms i.last_cycle_end_ms i.update_interval_ms

abbrev pub passed : LoopInputs → Bool
passed i = has_update_interval_passed i.now_ms i.last_complete_cycle_ms i.update_interval_ms

-- The last test of `decide_loop_action`.
read_or_idle : LoopInputs → LoopAction
read_or_idle i = if starved i || passed i then LoopAction.start_cycle else LoopAction.idle

unfoldable pub decide_loop_action : LoopInputs → LoopAction
unfolding read_or_idle
decide_loop_action i =
    if i.cycle_running
    then LoopAction.check_cycle_timeout
    else if forced i
    then LoopAction.send_remote_temp
    else if starved i
    then read_or_idle i
    else if i.wanted_settings_changed
    then LoopAction.send_settings
    else if i.wanted_run_states_changed
    then LoopAction.send_run_states
    else if i.set_functions_pending
    then LoopAction.set_functions
    else read_or_idle i
