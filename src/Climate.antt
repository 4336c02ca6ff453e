-- ===== src/Climate.antt =====
-- components/cn105/climate_controls.cpp: what the Home Assistant side asks for, and the wanted
-- settings that it turns into. ESPHome's enumerations have the values that the code names, and one
-- for every other value. A component that is not configured (a null pointer) is `none`. The calls of
-- `publish_state` are counted, the log is left out.
pub mod Control
pub mod Checks
pub mod Readings
pub mod Settle
pub mod SwingReport
pub mod Swing
pub mod Lockout
pub mod Confirmed
pub mod Kept
pub mod Taking
pub mod Reported
pub mod Tests
use Prim.Native.String.{String}
use mitsubishi_cn105esphome.Prelude.{
  ℕ, ◌+◌, Bool, true, false, not, ◌&&◌, ◌||◌, Option, none, some, if◌then◌else◌, has_value,
  value_or,
}
use mitsubishi_cn105esphome.Prelude.Float.{Float}
use mitsubishi_cn105esphome.Enums.Kinds.{
  HpPower, HpMode, HpStage, HpVaneMode, HpWideVaneMode, same, stage_enum, vane_enum, wide_vane_enum,
}
use mitsubishi_cn105esphome.Enums.Wrappers.{
  hp_power_from_str, hp_fan_from_str, hp_vane_from_str, hp_wide_vane_from_str,
}
use mitsubishi_cn105esphome.Settings.{HeatpumpSettings, WantedHeatpumpSettings}
use mitsubishi_cn105esphome.Protocol.{normalize_setpoint}
use mitsubishi_cn105esphome.Reconcile.{
  PhysicalTarget, ReconcileInputs, ReconcileDecision, decide_reconciliation,
  protection_state_to_str,
}

pub data ClimateMode : Type 0 where
  off heat cool dry fan_only other : ClimateMode

pub data ClimateFan : Type 0 where
  off quiet diffuse low medium middle high on auto other : ClimateFan

pub data ClimateSwing : Type 0 where
  off vertical horizontal both other : ClimateSwing

pub data ClimateAction : Type 0 where
  off idle heating cooling drying fan : ClimateAction

-- The members of `CN105Climate` that the climate entity uses.
pub record Climate (F : Type 0) : Type 0 where
  pub desired_mode : ClimateMode
  pub desired_temp : F
  pub mode : ClimateMode
  pub target_temperature : F
  pub current_temperature : F
  pub fan_mode : Option ClimateFan
  pub swing_mode : ClimateSwing
  pub action : ClimateAction
  pub current_settings : HeatpumpSettings F
  pub wanted_settings : WantedHeatpumpSettings F
  pub operating : Bool
  pub use_stage_for_operating_status : Bool
  pub supports_horizontal : Bool
  pub fan_stop_switch : Option Bool
  pub low_temp_protection_switch : Option Bool
  pub diagnostic_sensor : Option String
  pub low_temp_temp : F
  pub low_temp_hysteresis : F
  pub hysteresis : F
  pub ltp_active : Bool
  pub update_interval : ℕ
  pub first_real_state_received : Bool
  pub has_issued_command : Bool
  pub last_issued_command_target : PhysicalTarget F
  pub last_issued_command_ms : ℕ
  pub last_mode_command_time_ms : ℕ
  pub last_commanded_real_mode : ClimateMode
  pub last_commanded_real_temp : F
  pub published : ℕ

unfoldable pub climate_mode_to_hp_mode : ClimateMode → Option HpMode
climate_mode_to_hp_mode ClimateMode.heat = some HpMode.heat
climate_mode_to_hp_mode ClimateMode.cool = some HpMode.cool
climate_mode_to_hp_mode ClimateMode.dry = some HpMode.dry
climate_mode_to_hp_mode ClimateMode.fan_only = some HpMode.fan
climate_mode_to_hp_mode ClimateMode.off = none
climate_mode_to_hp_mode ClimateMode.other = none

abbrev pub is_off : ClimateMode → Bool
is_off ClimateMode.off = true
is_off _ = false

module _ {F : Type 0} where
  abbrev pub with_wanted : Climate F → HeatpumpSettings F → Climate F
  with_wanted c s = record c { wanted_settings = record c.wanted_settings { settings = s } }

  unfoldable pub set_power_setting : Climate F → String → Climate F
  set_power_setting c setting =
      with_wanted c (record c.wanted_settings.settings { power = hp_power_from_str (some setting) })

  unfoldable pub set_fan_speed : Climate F → String → Climate F
  set_fan_speed c setting =
      with_wanted c (record c.wanted_settings.settings { fan = hp_fan_from_str (some setting) })

  unfoldable pub set_vane_setting : Climate F → String → Climate F
  set_vane_setting c setting =
      with_wanted c (record c.wanted_settings.settings { vane = hp_vane_from_str (some setting) })

  unfoldable pub set_wide_vane_setting : Climate F → String → Climate F
  set_wide_vane_setting c setting =
      with_wanted c
        (record c.wanted_settings.settings { wide_vane = hp_wide_vane_from_str (some setting) })

  -- `has_changed = true; has_been_sent = false; last_change = now`.
  unfoldable pub flag_change : ℕ → Climate F → Climate F
  flag_change now c = record c {
    wanted_settings = record c.wanted_settings {
      has_changed = true;
      has_been_sent = false;
      last_change = now;
    };
  }

  unfoldable pub set_action_if_operating_to : ClimateAction → Climate F → Climate F
  set_action_if_operating_to active c =
      let stage_is_active =
        c.use_stage_for_operating_status
        && not (same c.current_settings.stage HpStage.idle)
        && not (same c.current_settings.stage HpStage.unknown) in
      if c.operating
      then record c { action = active }
      else if stage_is_active
      then record c { action = active }
      else record c { action = ClimateAction.idle }

  unfoldable pub update_action : Climate F → Climate F
  unfolding set_action_if_operating_to
  update_action c = elim c.mode [
    | ClimateMode.heat ↦ set_action_if_operating_to ClimateAction.heating c
    | ClimateMode.cool ↦ set_action_if_operating_to ClimateAction.cooling c
    | ClimateMode.dry ↦ set_action_if_operating_to ClimateAction.drying c
    | ClimateMode.fan_only ↦ record c { action = ClimateAction.fan }
    | ClimateMode.off ↦ record c { action = ClimateAction.off }
    | ClimateMode.other ↦ record c { action = ClimateAction.off }
  ]

module _ (fl : Float) where
  open fl use {F}

  -- What `evaluate_fan_stop_and_ltp` asks the policy.
  unfoldable pub reconcile_inputs : ℕ → Climate F → ReconcileInputs F
  unfolding climate_mode_to_hp_mode
  reconcile_inputs now c =
      let desired_power_on = not (is_off c.desired_mode) in
      record {
        now_ms = now;
        update_interval_ms = c.update_interval;
        desired_power_on = desired_power_on;
        desired_mode = if desired_power_on then climate_mode_to_hp_mode c.desired_mode else none;
        desired_temp = c.desired_temp;
        current_power = c.current_settings.power;
        current_mode = c.current_settings.mode;
        current_temperature = c.current_settings.temperature;
        current_temp = c.current_temperature;
        ltp_enabled = value_or c.low_temp_protection_switch false;
        ltp_active = c.ltp_active;
        low_temp_temp = c.low_temp_temp;
        low_temp_hysteresis = c.low_temp_hysteresis;
        fan_stop_enabled = value_or c.fan_stop_switch false;
        hysteresis = c.hysteresis;
        has_issued_command = c.has_issued_command;
        last_issued = c.last_issued_command_target;
        last_issued_ms = c.last_issued_command_ms;
      }

  -- The wanted settings of a command.
  abbrev pub want_target : PhysicalTarget F → Climate F → Climate F
  want_target t c =
      if not t.power_on
      then set_power_setting c "OFF"
      else (let on = set_power_setting c "ON" in
          with_wanted on (record on.wanted_settings.settings {
            mode = value_or t.mode on.wanted_settings.mode;
            temperature = some (normalize_setpoint fl t.temperature);
          }))

  unfoldable pub issue_command : ℕ → ReconcileDecision F → Climate F → Climate F
  unfolding set_power_setting flag_change
  issue_command now d c =
      let target_ha_mode =
        if d.target.power_on
        then (if d.ltp_active then ClimateMode.heat else c.desired_mode)
        else ClimateMode.off in
      flag_change now (
        want_target d.target (record c {
          has_issued_command = true;
          last_issued_command_target = d.target;
          last_issued_command_ms = now;
          last_mode_command_time_ms = now;
          last_commanded_real_mode = target_ha_mode;
          last_commanded_real_temp = d.target.temperature;
        }))

  unfoldable pub evaluate_fan_stop_and_ltp : ℕ → Climate F → Climate F
  unfolding reconcile_inputs issue_command
  evaluate_fan_stop_and_ltp now c =
      let d = decide_reconciliation fl (reconcile_inputs now c) in
      let latched = record c { ltp_active = d.ltp_active } in
      let commanded =
        if (d.mode_mismatch || d.temp_mismatch) && d.suppressed_repeat
        then latched
        else if d.should_command
        then issue_command now d latched
        else latched in
      record commanded {
        diagnostic_sensor =
            if has_value c.diagnostic_sensor
            then some (protection_state_to_str d.protection)
            else none;
      }
