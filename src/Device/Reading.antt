-- ===== src/Device/Reading.antt =====
-- components/cn105/hp_readings.cpp and cn105.cpp: what the component does with the payload of a response.
use mitsubishi_cn105esphome.Prelude.{
  ℕ, Bool, true, not, ◌&&◌, ◌||◌, Option, none, some, List, [], ◌∷◌, if◌then◌else◌, leb, ◌==◌,
  has_value, value_or, length, drop, get_or,
}
use mitsubishi_cn105esphome.Prelude.Int.{pos}
use mitsubishi_cn105esphome.Prelude.Float.{Float}
use mitsubishi_cn105esphome.Enums.Kinds.{
  HpPower, HpMode, HpFanMode, HpVaneMode, HpWideVaneMode, HpStage, HpSubMode, HpAutoSubMode, same,
  power_enum, mode_enum, fan_enum, vane_enum, wide_vane_enum, stage_enum, sub_mode_enum,
  auto_sub_mode_enum, airflow_control_enum,
}
use mitsubishi_cn105esphome.Settings.{HeatpumpSettings, HeatpumpStatus, no_settings, same_status}
use mitsubishi_cn105esphome.Decoder.{
  DecodedSettings, DecodedRoomTemperature, DecodedStatus, DecodedSubModes, decode_settings,
  decode_room_temperature, decode_status, decode_sub_modes, resolve_or_keep,
  unit_adopted_remote_temperature,
}
use mitsubishi_cn105esphome.Decoder.Energy.{convert_input_power_to_w, convert_energy_usage_to_kwh}
use mitsubishi_cn105esphome.Functions.{set_data1, set_data2}
use mitsubishi_cn105esphome.Climate.{Climate, update_action}
use mitsubishi_cn105esphome.Climate.Checks.{publish}
use mitsubishi_cn105esphome.Climate.Readings.{heatpump_update}
use mitsubishi_cn105esphome.Requests.{disable_request}
use mitsubishi_cn105esphome.Device.{Device, Component}

-- The constants of the energy conversions are `btu_power` and `btu_energy`, as in Decoder.Energy.
module _ (fl : Float) (turn_off : Bool → Bool) (btu_power btu_energy : fl.F) where
  open fl use {F, of_int}

  -- The settings that a response reports. AUTO is reported as FAN.
  unfoldable pub received_settings :
      DecodedSettings F → Bool → HeatpumpSettings F → HeatpumpSettings F
  unfolding resolve_or_keep
  received_settings decoded has_wide_vane current =
      let mode = resolve_or_keep decoded.mode current.mode HpMode.fan in
      record no_settings {
        power = resolve_or_keep decoded.power current.power HpPower.off;
        i_see = decoded.i_see;
        mode = if has_value decoded.mode && same mode HpMode.auto then HpMode.fan else mode;
        temperature =
            if decoded.legacy_temperature_encoding
            then current.temperature
            else decoded.temperature;
        fan = resolve_or_keep decoded.fan current.fan HpFanMode.auto;
        vane = resolve_or_keep decoded.vane current.vane HpVaneMode.auto;
        wide_vane =
            if decoded.wide_vane_present && has_wide_vane
            then resolve_or_keep decoded.wide_vane current.wide_vane HpWideVaneMode.center
            else HpWideVaneMode.unknown;
      }

  -- `get_settings_from_response_packet`, once the payload is decoded or found too short.
  unfoldable pub take_settings : ℕ → Option (DecodedSettings F) → Device F → Device F
  unfolding received_settings
  take_settings now none d = d
  take_settings now (some decoded) d =
      let has_wide_vane = d.climate.supports_horizontal || d.has_horizontal_vane_select in
      let settings = received_settings decoded has_wide_vane d.climate.current_settings in
      record d {
        wide_vane_adj =
            if decoded.wide_vane_present && has_wide_vane
            then decoded.wide_vane_adjustment
            else d.wide_vane_adj;
        current_airflow_control =
            if d.has_airflow_control_select
            then value_or decoded.airflow_control d.current_airflow_control
            else d.current_airflow_control;
        climate = heatpump_update fl turn_off now d.last_wanted_settings_send_ms settings d.climate;
      }

  unfoldable pub get_settings_from_response_packet : ℕ → List ℕ → Device F → Device F
  unfolding take_settings
  get_settings_from_response_packet now bytes d =
      take_settings now (decode_settings fl (some bytes) (length bytes)) d

  unfoldable pub status_changed : HeatpumpStatus F → Device F → Device F
  status_changed status d = if same_status fl status d.current_status then d else record d {
    current_status = status;
    climate = publish (
        update_action (record d.climate {
          operating = status.operating;
          current_temperature = status.room_temperature;
        }));
  }

  unfoldable pub take_room_temperature : Option (DecodedRoomTemperature F) → Device F → Device F
  unfolding status_changed
  take_room_temperature none d = d
  take_room_temperature (some decoded) d =
      let reported = value_or decoded.room_temperature d.current_status.room_temperature in
      let using_remote =
        unit_adopted_remote_temperature fl (some reported) d.remote.remote_temperature
          d.remote.remote_temp_keepalive_active d.remote_temp_margin in
      status_changed
        (record d.current_status {
          outside_air_temperature = decoded.outside_air_temperature;
          room_temperature =
              if using_remote then value_or d.remote.remote_temperature reported else reported;
          runtime_hours = value_or decoded.runtime_hours d.current_status.runtime_hours;
        })
        d

  unfoldable pub get_room_temperature_from_response_packet : List ℕ → Device F → Device F
  unfolding take_room_temperature
  get_room_temperature_from_response_packet bytes d =
      take_room_temperature (decode_room_temperature fl (some bytes) (length bytes)) d

  unfoldable pub take_status : Option (DecodedStatus F) → Device F → Device F
  unfolding status_changed
  take_status none d = d
  take_status (some decoded) d =
      status_changed
        (record d.current_status {
          operating = decoded.operating;
          compressor_frequency = decoded.compressor_frequency;
          input_power =
              convert_input_power_to_w fl btu_power btu_energy
                (of_int (pos decoded.raw_input_power)) d.power_unit_is_btu;
          kwh =
              convert_energy_usage_to_kwh fl btu_power btu_energy
                (of_int (pos decoded.raw_energy_usage)) d.power_unit_is_btu;
        })
        d

  unfoldable pub get_operating_and_compressor_freq_from_response_packet :
      List ℕ → Device F → Device F
  unfolding take_status
  get_operating_and_compressor_freq_from_response_packet bytes d =
      take_status (decode_status fl (some bytes) (length bytes)) d

  -- `get_power_from_response_packet`, on the climate entity.
  unfoldable pub take_sub_modes : Option DecodedSubModes → Climate F → Climate F
  unfolding resolve_or_keep
  take_sub_modes none c = c
  take_sub_modes (some decoded) c =
      let now = c.current_settings in
      let stage = resolve_or_keep decoded.stage now.stage HpStage.idle in
      let staged = record c { current_settings = record now { stage = stage } } in
      let shown =
        if same stage now.stage
        then c
        else if c.use_stage_for_operating_status
        then publish (update_action staged)
        else staged in
      record shown {
        current_settings = record shown.current_settings {
          sub_mode = resolve_or_keep decoded.sub_mode now.sub_mode HpSubMode.normal;
          auto_sub_mode =
              resolve_or_keep decoded.auto_sub_mode now.auto_sub_mode HpAutoSubMode.auto_off;
        };
      }

  unfoldable pub get_power_from_response_packet : List ℕ → Device F → Device F
  unfolding take_sub_modes
  get_power_from_response_packet bytes d = record d {
    climate = take_sub_modes (decode_sub_modes (some bytes) (length bytes)) d.climate;
  }

-- The loop of `check_and_disable`.
abbrev pub all_zeros : List ℕ → Bool
all_zeros [] = true
all_zeros (b ∷ bs) = b == 0 && all_zeros bs

module _ {F : Type 0} where
  -- `check_and_disable` and the handlers of 0x20 and 0x22. The selects of hardware settings are left out.
  unfoldable pub functions_response : ℕ → List ℕ → Component F → Component F
  functions_response code bytes s =
      let rest = drop 1 bytes in
      let d = s.context in
      let off = disable_request (disable_request s 0x20) 0x22 in
      let once = if d.has_hardware_settings then s else disable_request s code in
      if not (get_or bytes 0 0 == code)
      then s
      else if all_zeros rest
      then off
      else if not (leb 16 (length bytes))
      then once
      else record once {
        context = record d {
          functions =
              if code == 0x20 then set_data1 d.functions rest else set_data2 d.functions rest;
        };
      }
