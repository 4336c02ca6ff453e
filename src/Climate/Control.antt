-- ===== src/Climate/Control.antt =====
-- components/cn105/climate_controls.cpp: a call of Home Assistant, and when the settings that it
-- wants are sent.
use mitsubishi_cn105esphome.Prelude.{
  ℕ, suc, Bool, true, false, not, ◌&&◌, ◌||◌, Option, none, some, if◌then◌else◌, has_value, ltb,
  leb,
}
use mitsubishi_cn105esphome.Prelude.Int.{pos}
use mitsubishi_cn105esphome.Prelude.Word.{sub32}
use mitsubishi_cn105esphome.Prelude.Float.{Float}
use mitsubishi_cn105esphome.Enums.Kinds.{
  HpVaneMode, HpWideVaneMode, same, vane_enum, wide_vane_enum,
}
use mitsubishi_cn105esphome.Settings.{
  WantedHeatpumpSettings, WantedHeatpumpRunStates, reset_wanted, has_payload,
}
use mitsubishi_cn105esphome.Climate.{
  ClimateMode, ClimateFan, ClimateSwing, Climate, is_off, set_power_setting, set_fan_speed,
  set_vane_setting, set_wide_vane_setting, flag_change, evaluate_fan_stop_and_ltp,
}

-- `esphome::climate::ClimateCall`, by its getters.
pub record ClimateCall (F : Type 0) : Type 0 where
  pub mode : Option ClimateMode
  pub target_temperature : Option F
  pub fan_mode : Option ClimateFan
  pub swing_mode : Option ClimateSwing

module _ {F : Type 0} where
  -- `if (vane_is_swing) set_vane_setting("AUTO")`.
  unfoldable pub stop_vane : Climate F → Climate F
  stop_vane c =
      if same c.current_settings.vane HpVaneMode.swing then set_vane_setting c "AUTO" else c

  unfoldable pub stop_wide_vane : Climate F → Climate F
  stop_wide_vane c =
      if c.supports_horizontal && same c.current_settings.wide_vane HpWideVaneMode.swing
      then set_wide_vane_setting c "|"
      else c

  unfoldable pub swing_wide_vane : Climate F → Climate F
  swing_wide_vane c = if c.supports_horizontal then set_wide_vane_setting c "SWING" else c

  unfoldable pub control_swing : Climate F → Climate F
  unfolding stop_vane stop_wide_vane swing_wide_vane
  control_swing c = elim c.swing_mode [
    | ClimateSwing.off ↦ stop_wide_vane (stop_vane c)
    | ClimateSwing.vertical ↦ stop_wide_vane (set_vane_setting c "SWING")
    | ClimateSwing.horizontal ↦ swing_wide_vane (stop_vane c)
    | ClimateSwing.both ↦ swing_wide_vane (set_vane_setting c "SWING")
    | ClimateSwing.other ↦ c
  ]

  -- `switch (this->fan_mode.value())`.
  unfoldable pub control_fan_to : ClimateFan → Climate F → Climate F
  control_fan_to ClimateFan.off c =
      set_power_setting (record c { desired_mode = ClimateMode.off; mode = ClimateMode.off }) "OFF"
  control_fan_to ClimateFan.quiet c = set_fan_speed c "QUIET"
  control_fan_to ClimateFan.diffuse c = set_fan_speed c "QUIET"
  control_fan_to ClimateFan.low c = set_fan_speed c "1"
  control_fan_to ClimateFan.medium c = set_fan_speed c "2"
  control_fan_to ClimateFan.middle c = set_fan_speed c "3"
  control_fan_to ClimateFan.high c = set_fan_speed c "4"
  control_fan_to ClimateFan.on c = set_fan_speed c "AUTO"
  control_fan_to ClimateFan.auto c = set_fan_speed c "AUTO"
  control_fan_to ClimateFan.other c = set_fan_speed c "AUTO"

  unfoldable pub process_fan_change : ClimateCall F → Climate F → Climate F × Bool
  process_fan_change call c = elim call.fan_mode [
    | none ↦ (c, false)
    | some m ↦ (control_fan_to m (record c { fan_mode = some m }), true)
  ]

  unfoldable pub process_swing_change : ClimateCall F → Climate F → Climate F × Bool
  process_swing_change call c = elim call.swing_mode [
    | none ↦ (c, false)
    | some m ↦ (control_swing (record c { swing_mode = m }), true)
  ]

  unfoldable pub finalize_control_if_updated : ℕ → Bool → Climate F → Climate F
  finalize_control_if_updated now updated c =
      if not updated
      then c
      else (let flagged = flag_change now c in record flagged { published = suc flagged.published })

module _ (fl : Float) where
  open fl use {F, of_int, is_nan}

  -- The mode of the call, with the fallback of 21 degrees.
  unfoldable pub take_mode : Option ClimateMode → Climate F → Climate F
  take_mode none c = c
  take_mode (some m) c = record c {
    desired_mode = m;
    mode = m;
    desired_temp =
        if not (is_off m) && is_nan c.desired_temp then of_int (pos 21) else c.desired_temp;
  }

  unfoldable pub take_temperature : Option F → Climate F → Climate F
  take_temperature none c = c
  take_temperature (some t) c = record c { desired_temp = t; target_temperature = t }

  unfoldable pub control_delegate : ℕ → ClimateCall F → Climate F → Climate F
  unfolding take_mode take_temperature process_fan_change process_swing_change
      finalize_control_if_updated
  control_delegate now call c =
      let updated = has_value call.mode || has_value call.target_temperature in
      let c1 = take_temperature call.target_temperature (take_mode call.mode c) in
      let c2 = if updated then evaluate_fan_stop_and_ltp fl now c1 else c1 in
      let (c3, fan) = process_fan_change call c2 in
      let (c4, swing) = process_swing_change call c3 in
      finalize_control_if_updated now (swing || (fan || updated)) c4

-- What `check_pending_wanted_settings` does: nothing, drop the change, or `send_wanted_settings`.
pub data PendingAction : Type 0 where
  wait drop send : PendingAction

-- The guards that `check_pending_wanted_settings` and `check_pending_wanted_run_states` share.
unfoldable pub may_send : Bool → Bool → ℕ → ℕ → ℕ → ℕ → Bool
may_send has_been_sent has_changed last_change last_send debounce_delay now =
    if has_been_sent
    then false
    else if not has_changed || ltb (sub32 now last_change) debounce_delay
    then false
    else not (leb (sub32 now last_send) 300)

module _ {F : Type 0} where
  unfoldable pub check_pending_wanted_settings :
      ℕ → ℕ → ℕ → WantedHeatpumpSettings F → PendingAction × WantedHeatpumpSettings F
  unfolding may_send reset_wanted has_payload
  check_pending_wanted_settings debounce_delay last_send now w =
      if not (may_send w.has_been_sent w.has_changed w.last_change last_send debounce_delay now)
      then (PendingAction.wait, w)
      else if not (has_payload w)
      then (PendingAction.drop, reset_wanted w)
      else (PendingAction.send, w)

unfoldable pub check_pending_wanted_run_states : ℕ → ℕ → ℕ → WantedHeatpumpRunStates → PendingAction
unfolding may_send
check_pending_wanted_run_states debounce_delay last_send now w =
    if may_send w.has_been_sent w.has_changed w.last_change last_send debounce_delay now
    then PendingAction.send
    else PendingAction.wait
