-- ===== src/Device/Main.antt =====
-- components/cn105/component_entries.cpp: one call of `loop()`. Before the input is read the connection is
-- started and the policy is evaluated; `quiet_loop` is the call when no byte has arrived.
use mitsubishi_cn105esphome.Prelude.{
  ℕ, Bool, true, false, not, ◌&&◌, ◌||◌, List, [], ◌∷◌, if◌then◌else◌, leb,
}
use mitsubishi_cn105esphome.Prelude.Int.{pos}
use mitsubishi_cn105esphome.Prelude.Word.{sub32}
use mitsubishi_cn105esphome.Prelude.Float.{Float}
use mitsubishi_cn105esphome.Cycle.{check_timeout}
use mitsubishi_cn105esphome.Climate.{evaluate_fan_stop_and_ltp}
use mitsubishi_cn105esphome.Schedule.{LoopAction, LoopInputs, decide_loop_action}
use mitsubishi_cn105esphome.Link.{is_connected, maybe_start_connection}
use mitsubishi_cn105esphome.Requests.{enable_request, timer_bypass}
use mitsubishi_cn105esphome.Device.{Device, Component, with_link}
use mitsubishi_cn105esphome.Device.Sending.{
  settle_wanted_settings, settle_wanted_run_states, force_remote_temperature, store_functions,
  build_and_send_requests_info_packets,
}
use mitsubishi_cn105esphome.Device.Receiving.{process_byte}

module _ {F : Type 0} where
  abbrev pub loop_inputs : ℕ → Device F → LoopInputs
  loop_inputs now d = record {
    now_ms = now;
    update_interval_ms = d.link.update_interval;
    cycle_running = d.loop_cycle.cycle_running;
    last_cycle_end_ms = d.loop_cycle.last_cycle_end_ms;
    last_complete_cycle_ms = d.loop_cycle.last_complete_cycle_ms;
    wanted_settings_changed = d.climate.wanted_settings.has_changed;
    wanted_run_states_changed = d.wanted_run_states.has_changed;
    set_functions_pending = d.is_set_functions;
    remote_temp_send_pending = d.remote.should_send_external_temperature;
    remote_temp_pending_since_ms = d.remote.remote_temp_pending_since_ms;
    last_send_ms = d.link.last_send;
  }

  -- The requests 0x20 and 0x22 again, if they were asked for.
  unfoldable pub ask_functions : Component F → Component F
  ask_functions s =
      let d = s.context in
      if d.is_get_functions
      then record (timer_bypass (enable_request (timer_bypass (enable_request s 0x20) 0x20) 0x22)
          0x22) { context = record d { is_get_functions = false } }
      else s

module _ (fl : Float) (turn_off : Bool → Bool) (debug : Bool) where
  open fl use {F, of_int, sub, div, fabs, le, is_nan}

  -- `switch (cn105_policy::decide_loop_action(inputs))`.
  unfoldable pub act : ℕ → LoopAction → Component F → Component F
  unfolding ask_functions
  act now LoopAction.check_cycle_timeout s =
      let d = s.context in
      record s {
        context = record d { loop_cycle = check_timeout d.loop_cycle d.link.update_interval now };
      }
  act now LoopAction.send_remote_temp s = record s {
    context = force_remote_temperature fl now s.context;
  }
  act now LoopAction.send_settings s = record s {
    context = settle_wanted_settings fl turn_off debug now s.context;
  }
  act now LoopAction.send_run_states s = record s {
    context = settle_wanted_run_states fl turn_off debug now s.context;
  }
  act now LoopAction.set_functions s = record s {
    context = record (store_functions now (record s.context { is_set_functions = false })) {
      is_get_functions = true;
    };
  }
  act now LoopAction.start_cycle s = build_and_send_requests_info_packets fl now (ask_functions s)
  act now LoopAction.idle s = s

  -- The room temperature has changed by a tenth of a degree, or is known for the first time.
  unfoldable pub temp_changed : Device F → Bool
  temp_changed d =
      let t = d.climate.current_temperature in
      not (is_nan t)
      && (is_nan d.last_room_temp
          || le (div (of_int (pos 1)) (of_int (pos 10))) (fabs (sub t d.last_room_temp)))

  unfoldable pub reconcile : ℕ → Device F → Device F
  unfolding temp_changed
  reconcile now d =
      if temp_changed d || leb 5000 (sub32 now d.last_evaluation_time)
      then record d {
        last_evaluation_time = now;
        last_room_temp = d.climate.current_temperature;
        climate = evaluate_fan_stop_and_ltp fl now d.climate;
      }
      else d

  -- What comes before the input, and whether the unit is connected.
  unfoldable pub begin_loop : Bool → ℕ → Component F → Component F × Bool
  unfolding reconcile
  begin_loop wifi now s =
      let d = with_link (maybe_start_connection wifi now s.context.link) s.context in
      let can_talk_to_hp = is_connected d.link.state in
      (record s { context = if can_talk_to_hp then reconcile now d else d }, can_talk_to_hp)

  unfoldable pub quiet_loop : Bool → ℕ → Component F → Component F
  unfolding begin_loop act
  quiet_loop wifi now s =
      let (t, can_talk_to_hp) = begin_loop wifi now s in
      if can_talk_to_hp then act now (decide_loop_action (loop_inputs now t.context)) t else t

module _ (fl : Float) (turn_off : Bool → Bool) (debug : Bool) (btu_power btu_energy : fl.F) where
  open fl use {F}

  -- The loop of `process_input`, for the bytes that have arrived, each with the time at which it is read.
  unfoldable pub process_input : List (ℕ × ℕ) → Component F → Component F
  process_input [] s = s
  process_input ((now, b) ∷ bs) s =
      process_input bs (process_byte fl turn_off btu_power btu_energy now b s)

  unfoldable pub loop : Bool → ℕ → List (ℕ × ℕ) → Component F → Component F
  unfolding quiet_loop process_input
  loop wifi now [] s = quiet_loop fl turn_off debug wifi now s
  loop wifi now (b ∷ bs) s = process_input (b ∷ bs) (begin_loop fl turn_off debug wifi now s).0
