-- ===== src/Settings.antt =====
-- components/cn105/cn105_types.h: the settings, run states and status that are held of the unit.
use mitsubishi_cn105esphome.Prelude.{
  ℕ, Bool, true, false, not, ◌&&◌, ◌||◌, Option, none, some, if◌then◌else◌, has_value,
}
use mitsubishi_cn105esphome.Prelude.Int.{pos}
use mitsubishi_cn105esphome.Prelude.Float.{Float}
use mitsubishi_cn105esphome.Enums.Kinds.{
  HpPower, HpMode, HpFanMode, HpVaneMode, HpWideVaneMode, HpStage, HpSubMode, HpAutoSubMode,
  HpAirflowControl, same, power_enum, mode_enum, fan_enum, vane_enum, wide_vane_enum,
}

pub record HeatpumpSettings (F : Type 0) : Type 0 where
  pub power : HpPower
  pub mode : HpMode
  pub temperature : Option F
  pub fan : HpFanMode
  pub vane : HpVaneMode
  pub wide_vane : HpWideVaneMode
  pub i_see : Bool
  pub connected : Bool
  pub stage : HpStage
  pub sub_mode : HpSubMode
  pub auto_sub_mode : HpAutoSubMode

-- A derived class: the settings and what was done with them.
pub record WantedHeatpumpSettings (F : Type 0) : Type 0 where
  pub settings : HeatpumpSettings F
  pub open settings use *
  pub has_changed : Bool
  pub has_been_sent : Bool
  pub last_change : ℕ

pub record HeatpumpStatus (F : Type 0) : Type 0 where
  pub room_temperature : F
  pub outside_air_temperature : F
  pub operating : Bool
  pub compressor_frequency : F
  pub input_power : F
  pub kwh : F
  pub runtime_hours : F

pub record HeatpumpRunStates : Type 0 where
  pub airflow_control : HpAirflowControl

pub record WantedHeatpumpRunStates : Type 0 where
  pub airflow_control : HpAirflowControl
  pub has_changed : Bool
  pub has_been_sent : Bool
  pub last_change : ℕ

unfoldable pub reset_settings : {F : Type 0} → HeatpumpSettings F → HeatpumpSettings F
reset_settings s = record s {
  power = HpPower.unknown;
  mode = HpMode.unknown;
  temperature = none;
  fan = HpFanMode.unknown;
  vane = HpVaneMode.unknown;
  wide_vane = HpWideVaneMode.unknown;
  stage = HpStage.unknown;
  sub_mode = HpSubMode.unknown;
  auto_sub_mode = HpAutoSubMode.unknown;
}

-- A `HeatpumpSettings` as it is constructed.
abbrev pub no_settings : {F : Type 0} → HeatpumpSettings F
no_settings = record {
  power = HpPower.unknown;
  mode = HpMode.unknown;
  temperature = none;
  fan = HpFanMode.unknown;
  vane = HpVaneMode.unknown;
  wide_vane = HpWideVaneMode.unknown;
  i_see = false;
  connected = false;
  stage = HpStage.unknown;
  sub_mode = HpSubMode.unknown;
  auto_sub_mode = HpAutoSubMode.unknown;
}

unfoldable pub reset_wanted : {F : Type 0} → WantedHeatpumpSettings F → WantedHeatpumpSettings F
unfolding reset_settings
reset_wanted w = record w {
  settings = reset_settings w.settings;
  has_changed = false;
  has_been_sent = false;
}

unfoldable pub reset_run_states : WantedHeatpumpRunStates → WantedHeatpumpRunStates
reset_run_states w = record w {
  airflow_control = HpAirflowControl.unknown;
  has_changed = false;
  has_been_sent = false;
}

unfoldable pub has_payload : {F : Type 0} → WantedHeatpumpSettings F → Bool
has_payload w =
    not (same w.power HpPower.unknown)
    || not (same w.mode HpMode.unknown)
    || has_value w.temperature
    || not (same w.fan HpFanMode.unknown)
    || not (same w.vane HpVaneMode.unknown)
    || not (same w.wide_vane HpWideVaneMode.unknown)

module _ (fl : Float) where
  open fl use {F, of_int, sub, div, fabs, lt, eq, is_nan}

  temp_equal : Option F → Option F → Bool
  temp_equal none none = true
  temp_equal none (some b) = false
  temp_equal (some a) none = false
  temp_equal (some a) (some b) = lt (fabs (sub a b)) (div (of_int (pos 1)) (of_int (pos 100)))

  -- `operator==`: the sub-modes and `connected` are not compared.
  unfoldable pub same_settings : HeatpumpSettings F → HeatpumpSettings F → Bool
  unfolding temp_equal
  same_settings a b =
      same a.power b.power
      && same a.mode b.mode
      && temp_equal a.temperature b.temperature
      && same a.fan b.fan
      && same a.vane b.vane
      && same a.wide_vane b.wide_vane
      && (if a.i_see then b.i_see else not b.i_see)

  same_or_nan : F → F → Bool
  same_or_nan a b = if is_nan a then is_nan b else eq a b

  unfoldable pub same_status : HeatpumpStatus F → HeatpumpStatus F → Bool
  unfolding same_or_nan
  same_status a b =
      same_or_nan a.room_temperature b.room_temperature
      && same_or_nan a.outside_air_temperature b.outside_air_temperature
      && (if a.operating then b.operating else not b.operating)
      && same_or_nan a.compressor_frequency b.compressor_frequency
      && same_or_nan a.input_power b.input_power
      && same_or_nan a.kwh b.kwh
      && same_or_nan a.runtime_hours b.runtime_hours
