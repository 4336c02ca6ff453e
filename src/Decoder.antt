-- ===== src/Decoder.antt =====
-- components/cn105/decoder.h: what the bytes of a 0x62 response say. `data` is the payload, `none`
-- for a null pointer; an index is never negative. `x & 0x0F` is `x % 16`, and so on for the other
-- masks of low bits; the bytes that `|` joins have no bit in common, so it is a sum.
pub mod RoundTrip
pub mod ErrorInfo
pub mod Energy
pub mod Known
pub mod Tests
use mitsubishi_cn105esphome.Prelude.{
  ℕ, ◌+◌, ◌-◌, ◌*◌, ◌/◌, ◌%◌, Bool, true, false, not, ◌&&◌, ◌||◌, Option, none, some, List, ltb,
  leb, ◌==◌, if◌then◌else◌, get_or,
}
use mitsubishi_cn105esphome.Prelude.Int.{pos, sub_ℕ}
use mitsubishi_cn105esphome.Prelude.Float.{Float}
use mitsubishi_cn105esphome.Enums.Kinds.{
  HpPower, HpMode, HpFanMode, HpVaneMode, HpWideVaneMode, HpStage, HpSubMode, HpAutoSubMode,
  HpAirflowControl, Enum, same,
}
use mitsubishi_cn105esphome.Enums.Wrappers.{
  hp_power_from_wire, hp_mode_from_wire, hp_fan_from_wire, hp_vane_from_wire,
  hp_wide_vane_from_wire, hp_stage_from_wire, hp_sub_mode_from_wire, hp_auto_sub_mode_from_wire,
  hp_airflow_control_from_wire,
}

abbrev pub settings_min_len : ℕ
settings_min_len = 15

abbrev pub room_temp_min_len : ℕ
room_temp_min_len = 7

abbrev pub room_temp_runtime_len : ℕ
room_temp_runtime_len = 14

abbrev pub status_min_len : ℕ
status_min_len = 9

abbrev pub power_min_len : ℕ
power_min_len = 6

abbrev pub error_info_min_len : ℕ
error_info_min_len = 6

abbrev pub Payload : Type 0
Payload = Option (List ℕ)

unfoldable pub payload_byte : Payload → ℕ → ℕ → ℕ → ℕ
payload_byte none length index default_val = default_val
payload_byte (some bytes) length index default_val =
    if leb length index then default_val else get_or bytes index default_val

-- `data == nullptr || length < n`.
abbrev pub too_short : Payload → ℕ → ℕ → Bool
too_short none length n = true
too_short (some bytes) length n = ltb length n

unfoldable pub resolve_or_keep : {E : Type 0} ⦃e : Enum E⦄ → Option E → E → E → E
resolve_or_keep (some decoded) current fallback = decoded
resolve_or_keep ⦃e⦄ none current fallback =
    if not (same current e.unknown_value) then current else fallback

pub record DecodedSettings (F : Type 0) : Type 0 where
  pub power : Option HpPower
  pub power_byte : ℕ
  pub mode : Option HpMode
  pub mode_byte : ℕ
  pub i_see : Bool
  pub temperature : Option F
  pub legacy_temperature_encoding : Bool
  pub fan : Option HpFanMode
  pub fan_byte : ℕ
  pub vane : Option HpVaneMode
  pub vane_byte : ℕ
  pub wide_vane_present : Bool
  pub wide_vane : Option HpWideVaneMode
  pub wide_vane_byte : ℕ
  pub wide_vane_adjustment : Bool
  pub target_humidity : Option ℕ
  pub humidity_byte : ℕ
  pub airflow_control_reported : Bool
  pub airflow_control : Option HpAirflowControl
  pub airflow_byte : ℕ

pub record DecodedRoomTemperature (F : Type 0) : Type 0 where
  pub outside_air_temperature : F
  pub room_temperature : Option F
  pub room_temperature_is_legacy : Bool
  pub legacy_room_temp_byte : ℕ
  pub runtime_hours : Option F

pub record DecodedStatus (F : Type 0) : Type 0 where
  pub operating : Bool
  pub compressor_frequency : F
  pub raw_input_power : ℕ
  pub raw_energy_usage : ℕ

pub record DecodedSubModes : Type 0 where
  pub stage : Option HpStage
  pub stage_byte : ℕ
  pub sub_mode : Option HpSubMode
  pub sub_mode_byte : ℕ
  pub auto_sub_mode : Option HpAutoSubMode
  pub auto_sub_mode_byte : ℕ

pub record DecodedErrorInfo : Type 0 where
  pub code : ℕ
  pub sub_code : ℕ
  pub no_error : Bool

unfoldable pub decode_sub_modes : Payload → ℕ → Option DecodedSubModes
unfolding payload_byte
decode_sub_modes bytes length =
    if too_short bytes length power_min_len
    then none
    else some (record {
      stage = hp_stage_from_wire (payload_byte bytes length 4 0);
      stage_byte = payload_byte bytes length 4 0;
      sub_mode = hp_sub_mode_from_wire (payload_byte bytes length 3 0);
      sub_mode_byte = payload_byte bytes length 3 0;
      auto_sub_mode = hp_auto_sub_mode_from_wire (payload_byte bytes length 5 0);
      auto_sub_mode_byte = payload_byte bytes length 5 0;
    })

unfoldable pub decode_error_info : Payload → ℕ → Option DecodedErrorInfo
unfolding payload_byte
decode_error_info bytes length =
    let code = payload_byte bytes length 4 0 % 128 in
    let sub_code = payload_byte bytes length 5 0 in
    if too_short bytes length error_info_min_len
    then none
    else some (record { code = code; sub_code = sub_code; no_error = code == 0 && sub_code == 0 })

module _ (fl : Float) where
  open fl use {F, nan, of_int, div, mul, sub, fabs, le, is_nan}

  -- `(static_cast<int>(byte) - 128) / 2.0f`.
  abbrev pub half_degrees : ℕ → F
  half_degrees byte = div (of_int (sub_ℕ byte 128)) (of_int (pos 2))

  unfoldable pub decode_settings : Payload → ℕ → Option (DecodedSettings F)
  unfolding payload_byte
  decode_settings bytes length =
      let raw_mode = payload_byte bytes length 4 0 in
      let i_see = ltb 0x08 raw_mode in
      let mode_byte = if i_see then raw_mode - 0x08 else raw_mode in
      let temp_byte = payload_byte bytes length 11 0 in
      let wide_vane_raw = payload_byte bytes length 10 0 in
      let present = not (wide_vane_raw == 0) in
      let humidity = payload_byte bytes length 12 0 in
      let airflow_byte = payload_byte bytes length 14 0 in
      let reported = wide_vane_raw == 0x80 && i_see in
      if too_short bytes length settings_min_len
      then none
      else some (record {
        power = hp_power_from_wire (payload_byte bytes length 3 0);
        power_byte = payload_byte bytes length 3 0;
        mode = hp_mode_from_wire mode_byte;
        mode_byte = mode_byte;
        i_see = i_see;
        temperature = if not (temp_byte == 0) then some (half_degrees temp_byte) else none;
        legacy_temperature_encoding = temp_byte == 0;
        fan = hp_fan_from_wire (payload_byte bytes length 6 0);
        fan_byte = payload_byte bytes length 6 0;
        vane = hp_vane_from_wire (payload_byte bytes length 7 0);
        vane_byte = payload_byte bytes length 7 0;
        wide_vane_present = present;
        wide_vane = if present then hp_wide_vane_from_wire (wide_vane_raw % 16) else none;
        wide_vane_byte = if present then wide_vane_raw % 16 else 0;
        wide_vane_adjustment = present && (wide_vane_raw / 16 == 8);
        target_humidity = if ltb 0 humidity && leb humidity 100 then some humidity else none;
        humidity_byte = humidity;
        airflow_control_reported = reported;
        airflow_control =
            if reported
            then hp_airflow_control_from_wire airflow_byte
            else some HpAirflowControl.even;
        airflow_byte = airflow_byte;
      })

  unfoldable pub decode_room_temperature : Payload → ℕ → Option (DecodedRoomTemperature F)
  unfolding payload_byte
  decode_room_temperature bytes length =
      let outside_byte = payload_byte bytes length 5 0 in
      let room_byte = payload_byte bytes length 6 0 in
      let legacy = room_byte == 0 in
      let legacy_byte = payload_byte bytes length 3 0 in
      let minutes =
        payload_byte bytes length 11 0 * 65536
        + payload_byte bytes length 12 0 * 256
        + payload_byte bytes length 13 0 in
      if too_short bytes length room_temp_min_len
      then none
      else some (record {
        outside_air_temperature = if ltb 1 outside_byte then half_degrees outside_byte else nan;
        room_temperature =
            if not legacy
            then some (half_degrees room_byte)
            else if leb legacy_byte 31
            then some (of_int (pos (10 + legacy_byte)))
            else none;
        room_temperature_is_legacy = legacy;
        legacy_room_temp_byte = if legacy then legacy_byte else 0;
        runtime_hours =
            if leb room_temp_runtime_len length
            then some (div (of_int (pos minutes)) (of_int (pos 60)))
            else none;
      })

  unfoldable pub unit_adopted_remote_temperature : Option F → Option F → Bool → F → Bool
  unit_adopted_remote_temperature none remote keepalive_active margin = false
  unit_adopted_remote_temperature (some reported) none keepalive_active margin = false
  unit_adopted_remote_temperature (some reported) (some remote) keepalive_active margin =
      if not keepalive_active
      then false
      else if is_nan reported || is_nan remote
      then false
      else le (fabs (sub reported remote)) margin

  unfoldable pub decode_status : Payload → ℕ → Option (DecodedStatus F)
  unfolding payload_byte
  decode_status bytes length =
      let operating = not (payload_byte bytes length 4 0 == 0) in
      if too_short bytes length status_min_len
      then none
      else some (record {
        operating = operating;
        compressor_frequency =
            if operating then of_int (pos (payload_byte bytes length 3 0)) else of_int (pos 0);
        raw_input_power = payload_byte bytes length 5 0 * 256 + payload_byte bytes length 6 0;
        raw_energy_usage = payload_byte bytes length 7 0 * 256 + payload_byte bytes length 8 0;
      })
