-- ===== src/Climate/Tests.antt =====
-- Runs of components/cn105/climate_controls.cpp and hp_readings.cpp on a unit that cools.
use mitsubishi_cn105esphome.Prelude.{◌≡◌, refl, inl, Bool, true, false, none, some}
use mitsubishi_cn105esphome.Prelude.Int.{pos}
use mitsubishi_cn105esphome.Prelude.Fixed.{Fixed, fixed, fixed-IsIeee, whole}
use mitsubishi_cn105esphome.Enums.Kinds.{HpPower, HpMode, HpFanMode, HpVaneMode, HpWideVaneMode}
use mitsubishi_cn105esphome.Settings.{HeatpumpSettings, no_settings, reset_wanted}
use mitsubishi_cn105esphome.Climate.{
  ClimateMode, ClimateFan, ClimateSwing, ClimateAction, Climate, reconcile_inputs,
  climate_mode_to_hp_mode, evaluate_fan_stop_and_ltp,
}
use mitsubishi_cn105esphome.Climate.Checks.{take_vanes}
use mitsubishi_cn105esphome.Climate.Readings.{check_power_and_mode_settings}
use mitsubishi_cn105esphome.Reconcile.{
  decide_reconciliation, next_ltp_active, resolve_physical_target, fan_stop_wants_running,
  find_mode_mismatch, find_temp_mismatch, same_as,
}
use mitsubishi_cn105esphome.Schedule.{should_suppress_repeat_command}
use mitsubishi_cn105esphome.Protocol.{normalize_setpoint}
use mitsubishi_cn105esphome.Climate.Settle.{adopted, at_rest, decision, evaluate_settles}
use mitsubishi_cn105esphome.Climate.Swing.{asked, vane_report, control_swing_settles}
use mitsubishi_cn105esphome.Climate.Lockout.{Undisturbed}
use mitsubishi_cn105esphome.Climate.Confirmed.{evaluate-Undisturbed}
use mitsubishi_cn105esphome.Climate.{issue_command, set_power_setting, flag_change}
use mitsubishi_cn105esphome.Enums.Table.{enum_from_str}

abbrev pub cooling_at_22 : HeatpumpSettings Fixed
cooling_at_22 = record no_settings {
  power = HpPower.on;
  mode = HpMode.cool;
  temperature = some (whole (pos 22));
  fan = HpFanMode.auto;
  vane = HpVaneMode.auto;
  wide_vane = HpWideVaneMode.swing;
}

-- Cooling at 22 degrees was commanded at 10 s.
abbrev pub commanded : Climate Fixed
commanded = record {
  desired_mode = ClimateMode.cool;
  desired_temp = whole (pos 22);
  mode = ClimateMode.cool;
  target_temperature = whole (pos 22);
  current_temperature = whole (pos 26);
  fan_mode = some ClimateFan.auto;
  swing_mode = ClimateSwing.horizontal;
  action = ClimateAction.cooling;
  current_settings = cooling_at_22;
  wanted_settings = record {
    settings = no_settings;
    has_changed = false;
    has_been_sent = false;
    last_change = 0;
  };
  operating = true;
  use_stage_for_operating_status = false;
  supports_horizontal = true;
  fan_stop_switch = some true;
  low_temp_protection_switch = none;
  diagnostic_sensor = none;
  low_temp_temp = whole (pos 12);
  low_temp_hysteresis = whole (pos 2);
  hysteresis = whole (pos 1);
  ltp_active = false;
  update_interval = 2000;
  first_real_state_received = true;
  has_issued_command = true;
  last_issued_command_target = record {
    power_on = true;
    mode = some HpMode.cool;
    temperature = whole (pos 22);
  };
  last_issued_command_ms = 10000;
  last_mode_command_time_ms = 10000;
  last_commanded_real_mode = ClimateMode.cool;
  last_commanded_real_temp = whole (pos 22);
  published = 0;
}

control_swing_settles_example :
    let s = asked ClimateSwing.vertical commanded in
    (take_vanes
      (vane_report s no_settings)
      (record s { wanted_settings = reset_wanted s.wanted_settings })).swing_mode
    ≡ ClimateSwing.vertical
control_swing_settles_example =
    control_swing_settles ClimateSwing.vertical commanded no_settings refl refl refl (cc)

abbrev obey_off : Bool → Bool
obey_off on = false

-- The unit has been switched off in the meantime.
abbrev switched_off : Climate Fixed
switched_off = record commanded {
  current_settings = record cooling_at_22 { power = HpPower.off };
  fan_stop_switch = some false;
}

switched_off_setpoint :
    (decision fixed 60000 (at_rest fixed switched_off)).target.power_on ≡ true
    → fixed.is_nan (
        fixed.div
          (fixed.round (
            fixed.mul
              (decision fixed 60000 (at_rest fixed switched_off)).target.temperature
              (whole (pos 2))))
          (whole (pos 2)))
      ≡ false
unfolding decide_reconciliation reconcile_inputs climate_mode_to_hp_mode next_ltp_active
    resolve_physical_target fan_stop_wants_running find_mode_mismatch find_temp_mismatch same_as
    should_suppress_repeat_command normalize_setpoint
switched_off_setpoint h = refl

switched_off_commands : (decision fixed 60000 (at_rest fixed switched_off)).should_command ≡ true
unfolding decide_reconciliation reconcile_inputs climate_mode_to_hp_mode next_ltp_active
    resolve_physical_target fan_stop_wants_running find_mode_mismatch find_temp_mismatch same_as
    should_suppress_repeat_command normalize_setpoint
switched_off_commands = refl

evaluate_settles_example :
    let e = evaluate_fan_stop_and_ltp fixed 60000 (at_rest fixed switched_off) in
    (evaluate_fan_stop_and_ltp fixed 70000 (adopted fixed e)).wanted_settings
    ≡ reset_wanted e.wanted_settings
evaluate_settles_example =
    evaluate_settles fixed fixed-IsIeee switched_off 60000 70000 refl switched_off_setpoint
      switched_off_commands

-- The unit reports the cooling that it was switched to, nine minutes later.
evaluate-Undisturbed_example :
    let e = evaluate_fan_stop_and_ltp fixed 60000 (at_rest fixed switched_off) in
    Undisturbed fixed obey_off
      (record switched_off { wanted_settings = reset_wanted e.wanted_settings })
      (check_power_and_mode_settings fixed obey_off 600000 cooling_at_22 true (adopted fixed e))
unfolding decide_reconciliation reconcile_inputs climate_mode_to_hp_mode next_ltp_active
    resolve_physical_target fan_stop_wants_running find_mode_mismatch find_temp_mismatch same_as
    should_suppress_repeat_command normalize_setpoint evaluate_fan_stop_and_ltp issue_command
    set_power_setting flag_change enum_from_str
evaluate-Undisturbed_example =
    evaluate-Undisturbed fixed obey_off fixed-IsIeee switched_off 60000 600000 cooling_at_22 true
      refl (cc) switched_off_commands (λ h. (switched_off_setpoint h, refl))
      (inl (refl, refl, refl))
