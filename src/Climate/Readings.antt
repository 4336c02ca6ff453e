-- ===== src/Climate/Readings.antt =====
-- components/cn105/hp_readings.cpp: what the settings that the unit reports change in the climate
-- entity. What the fan stop switch does with `turn_off` is not in this repository: `turn_off` is its
-- state afterwards.
use mitsubishi_cn105esphome.Prelude.{
  ℕ, Bool, true, false, not, ◌&&◌, ◌||◌, Option, none, some, if◌then◌else◌, value_or, ltb,
}
use mitsubishi_cn105esphome.Prelude.Word.{sub32}
use mitsubishi_cn105esphome.Prelude.Float.{Float}
use mitsubishi_cn105esphome.Enums.Kinds.{
  HpPower, HpMode, same, power_enum, mode_enum, fan_enum, vane_enum, wide_vane_enum,
}
use mitsubishi_cn105esphome.Settings.{HeatpumpSettings, same_settings}
use mitsubishi_cn105esphome.Climate.{
  ClimateMode, Climate, is_off, update_action, evaluate_fan_stop_and_ltp,
}
use mitsubishi_cn105esphome.Climate.Checks.{
  physical_mode, same_climate_mode, adopt_temperature, show_desired, publish, take_vanes,
  take_setpoint, setpoint_changed,
}

module _ (fl : Float) (turn_off : Bool → Bool) where
  open fl use {F, nan}

  unfoldable pub adopt_first : ℕ → HeatpumpSettings F → ClimateMode → Climate F → Climate F
  adopt_first now settings physical c =
      let first = record c { first_real_state_received = true } in
      let preserve =
        value_or c.fan_stop_switch false
        && (same_climate_mode c.desired_mode ClimateMode.heat
            || same_climate_mode c.desired_mode ClimateMode.cool)
        && same_climate_mode physical ClimateMode.off in
      evaluate_fan_stop_and_ltp fl now (
        if preserve
        then record (show_desired first) {
          last_commanded_real_mode = ClimateMode.off;
          last_commanded_real_temp = c.desired_temp;
        }
        else record (adopt_temperature settings.temperature
            (record first { desired_mode = physical; mode = physical })) {
              last_commanded_real_mode = physical;
              last_commanded_real_temp = value_or settings.temperature nan;
            })

  -- The external change of the mode: fan stop is switched off and the unit is followed.
  unfoldable pub follow_mode : HeatpumpSettings F → ClimateMode → Climate F → Climate F
  follow_mode settings physical c =
      let stopped = record c {
        fan_stop_switch = elim c.fan_stop_switch [
          | none ↦ none
          | some on ↦ some (if on then turn_off on else on)
        ];
        desired_mode = physical;
        mode = physical;
      } in
      publish (record (adopt_temperature settings.temperature stopped) {
        last_commanded_real_mode = physical;
        last_commanded_real_temp = value_or settings.temperature nan;
      })

  unfoldable pub follow_temperature : ℕ → Option F → Climate F → Climate F
  follow_temperature now none c = c
  follow_temperature now (some t) c =
      evaluate_fan_stop_and_ltp fl now
        (publish (record (adopt_temperature (some t) c) { last_commanded_real_temp = t }))

  unfoldable pub check_power_and_mode_settings :
      ℕ → HeatpumpSettings F → Bool → Climate F → Climate F
  unfolding physical_mode adopt_first follow_mode follow_temperature setpoint_changed
  check_power_and_mode_settings now settings update c =
      let physical = physical_mode settings.power settings.mode in
      let updated =
        if update
        then record c {
          current_settings = record c.current_settings {
            power = settings.power;
            mode = settings.mode;
          };
        }
        else c in
      if not c.first_real_state_received
      then adopt_first now settings physical updated
      else if ltb (sub32 now c.last_mode_command_time_ms) 5000
      then show_desired updated
      else if not (same_climate_mode physical c.last_commanded_real_mode)
      then follow_mode settings physical updated
      else if not (is_off physical)
          && setpoint_changed fl settings.temperature c.last_commanded_real_temp
      then follow_temperature now settings.temperature updated
      else show_desired updated

  unfoldable pub publish_state_to_ha : ℕ → ℕ → HeatpumpSettings F → Climate F → Climate F
  unfolding check_power_and_mode_settings take_vanes take_setpoint
  publish_state_to_ha now sent settings c =
      let mode_free =
        same c.wanted_settings.mode HpMode.unknown
        && same c.wanted_settings.power HpPower.unknown in
      let c1 = if mode_free then check_power_and_mode_settings now settings true c else c in
      let c2 = take_setpoint now sent settings (take_vanes settings (update_action c1)) in
      publish (
        show_desired (record c2 {
          current_settings = record c2.current_settings {
            i_see = settings.i_see;
            connected = true;
          };
        }))

  unfoldable pub heatpump_update : ℕ → ℕ → HeatpumpSettings F → Climate F → Climate F
  unfolding publish_state_to_ha
  heatpump_update now sent settings c =
      if same_settings fl settings c.current_settings
      then c
      else publish_state_to_ha now sent settings c
