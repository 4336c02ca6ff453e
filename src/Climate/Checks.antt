-- ===== src/Climate/Checks.antt =====
-- components/cn105/hp_readings.cpp: the checks that compare one reported setting with the current one,
-- and the setpoint. `sent` is `last_wanted_settings_send_ms_`.
use mitsubishi_cn105esphome.Prelude.{
  ℕ, suc, ◌+◌, ◌==◌, Bool, true, false, not, ◌&&◌, ◌||◌, Option, none, some, if◌then◌else◌,
  has_value, value_or, ltb,
}
use mitsubishi_cn105esphome.Prelude.Word.{sub32, u32}
use mitsubishi_cn105esphome.Prelude.Float.{Float}
use mitsubishi_cn105esphome.Enums.Kinds.{
  HpPower, HpMode, HpFanMode, HpVaneMode, HpWideVaneMode, same, power_enum, mode_enum, fan_enum,
  vane_enum, wide_vane_enum,
}
use mitsubishi_cn105esphome.Settings.{HeatpumpSettings}
use mitsubishi_cn105esphome.Reconcile.{setpoint_epsilon}
use mitsubishi_cn105esphome.Cycle.{defer_schedule_update_loop_delay}
use mitsubishi_cn105esphome.Climate.{ClimateMode, ClimateFan, ClimateSwing, Climate}

-- The swing mode of two vanes, the vertical one first.
abbrev pub swing_of : Bool → Bool → ClimateSwing
swing_of true true = ClimateSwing.both
swing_of true false = ClimateSwing.vertical
swing_of false true = ClimateSwing.horizontal
swing_of false false = ClimateSwing.off

unfoldable pub fan_of : HpFanMode → ClimateFan
fan_of HpFanMode.quiet = ClimateFan.quiet
fan_of HpFanMode.f1 = ClimateFan.low
fan_of HpFanMode.f2 = ClimateFan.medium
fan_of HpFanMode.f3 = ClimateFan.middle
fan_of HpFanMode.f4 = ClimateFan.high
fan_of _ = ClimateFan.auto

-- `physical_mode` of `check_power_and_mode_settings`.
unfoldable pub physical_mode : HpPower → HpMode → ClimateMode
physical_mode power mode =
    if not (same power HpPower.on)
    then ClimateMode.off
    else if same mode HpMode.heat
    then ClimateMode.heat
    else if same mode HpMode.dry
    then ClimateMode.dry
    else if same mode HpMode.cool
    then ClimateMode.cool
    else if same mode HpMode.fan
    then ClimateMode.fan_only
    else ClimateMode.off

abbrev pub same_climate_mode : ClimateMode → ClimateMode → Bool
same_climate_mode a b = index a == index b
  where
    index : ClimateMode → ℕ
    index ClimateMode.off = 0
    index ClimateMode.heat = 1
    index ClimateMode.cool = 2
    index ClimateMode.dry = 3
    index ClimateMode.fan_only = 4
    index ClimateMode.other = 5

module _ {F : Type 0} where
  unfoldable pub check_vane_settings : HeatpumpSettings F → Bool → Climate F → Climate F
  check_vane_settings settings update c =
      let updated =
        if update
        then record c { current_settings = record c.current_settings { vane = settings.vane } }
        else c in
      if same c.current_settings.vane settings.vane then c else record updated {
        swing_mode =
            swing_of (same settings.vane HpVaneMode.swing)
              (same updated.current_settings.wide_vane HpWideVaneMode.swing);
      }

  unfoldable pub check_wide_vane_settings : HeatpumpSettings F → Bool → Climate F → Climate F
  check_wide_vane_settings settings update c =
      let updated =
        if update
        then record c {
          current_settings = record c.current_settings { wide_vane = settings.wide_vane };
        }
        else c in
      if same c.current_settings.wide_vane settings.wide_vane then c else record updated {
        swing_mode =
            swing_of (same updated.current_settings.vane HpVaneMode.swing)
              (same settings.wide_vane HpWideVaneMode.swing);
      }

  unfoldable pub check_fan_settings : HeatpumpSettings F → Bool → Climate F → Climate F
  unfolding fan_of
  check_fan_settings settings update c =
      let updated =
        if update
        then record c { current_settings = record c.current_settings { fan = settings.fan } }
        else c in
      if same c.current_settings.fan settings.fan
      then c
      else record updated { fan_mode = some (fan_of settings.fan) }

  -- `desired_temp_` and `target_temperature`, if a temperature was reported.
  abbrev pub adopt_temperature : Option F → Climate F → Climate F
  adopt_temperature none c = c
  adopt_temperature (some t) c = record c { desired_temp = t; target_temperature = t }

  -- The mode and the target of the entity are what the user desires.
  abbrev pub show_desired : Climate F → Climate F
  show_desired c = record c { mode = c.desired_mode; target_temperature = c.desired_temp }

  abbrev pub publish : Climate F → Climate F
  publish c = record c { published = suc c.published }

  -- `if (<no value is wanted>) check_…(settings)`, for each of the four checks.
  unfoldable pub take_vanes : HeatpumpSettings F → Climate F → Climate F
  unfolding check_fan_settings check_vane_settings check_wide_vane_settings
  take_vanes settings c =
      let fan =
        if same c.wanted_settings.fan HpFanMode.unknown
        then check_fan_settings settings true c
        else c in
      let vane =
        if same fan.wanted_settings.vane HpVaneMode.unknown
        then check_vane_settings settings true fan
        else fan in
      if same vane.wanted_settings.wide_vane HpWideVaneMode.unknown
      then check_wide_vane_settings settings true vane
      else vane

  -- The setpoint, unless the user's own is on its way: `sent` is `last_wanted_settings_send_ms_`.
  unfoldable pub take_setpoint : ℕ → ℕ → HeatpumpSettings F → Climate F → Climate F
  take_setpoint now sent settings c =
      let w = c.wanted_settings in
      let pending = has_value w.temperature && w.has_changed && not w.has_been_sent in
      let grace = u32 (c.update_interval + defer_schedule_update_loop_delay) in
      let after_send = not (sent == 0) && ltb (sub32 now sent) grace in
      if pending || after_send then c else if has_value w.temperature then c else record c {
        target_temperature = value_or settings.temperature c.target_temperature;
        current_settings = record c.current_settings { temperature = settings.temperature };
      }

module _ (fl : Float) where
  open fl use {F, sub, fabs, le}

  -- `settings.temperature.has_value() && fabsf(*settings.temperature - …) >= 0.25f`.
  unfoldable pub setpoint_changed : Option F → F → Bool
  setpoint_changed none last = false
  setpoint_changed (some t) last = le (setpoint_epsilon fl) (fabs (sub t last))
