-- ===== src/Packet.antt =====
-- components/cn105/hp_writings.cpp: the packets that are sent to the unit, as lists of 22 bytes.
pub mod Layout
pub mod Frames
pub mod Received
pub mod Tests
use Prim.Native.Nat.{bit_or}
use mitsubishi_cn105esphome.Prelude.{
  ℕ, ◌+◌, Bool, true, false, Option, none, some, List, [], ◌∷◌, ◌++◌, if◌then◌else◌, get_or, set,
  replicate, value_or, has_value,
}
use mitsubishi_cn105esphome.Prelude.Int.{pos}
use mitsubishi_cn105esphome.Prelude.Word.{u8}
use mitsubishi_cn105esphome.Prelude.Float.{Float}
use mitsubishi_cn105esphome.Enums.Kinds.{
  HpPower, HpMode, HpFanMode, HpVaneMode, HpWideVaneMode, HpAirflowControl, same, power_enum,
  mode_enum, fan_enum, vane_enum, wide_vane_enum, airflow_control_enum,
}
use mitsubishi_cn105esphome.Enums.Wrappers.{
  hp_power_to_wire, hp_mode_to_wire, hp_fan_to_wire, hp_vane_to_wire, hp_wide_vane_to_wire,
  hp_airflow_control_to_wire,
}
use mitsubishi_cn105esphome.Protocol.{
  checksum, encode_temperature_b, encode_remote_temperature, two,
}
use mitsubishi_cn105esphome.Settings.{
  HeatpumpSettings, WantedHeatpumpSettings, WantedHeatpumpRunStates,
}

abbrev pub header : List ℕ
header = 0xfc ∷ 0x41 ∷ 0x01 ∷ 0x30 ∷ 0x10 ∷ 0x01 ∷ 0x00 ∷ 0x00 ∷ []

abbrev pub infoheader : List ℕ
infoheader = 0xfc ∷ 0x42 ∷ 0x01 ∷ 0x30 ∷ 0x10 ∷ []

abbrev pub connect : List ℕ
connect = 0xfc ∷ 0x5a ∷ 0x01 ∷ 0x30 ∷ 0x02 ∷ 0xca ∷ 0x01 ∷ 0xa8 ∷ []

pub data VaneType : Type 0 where
  standard split_horizontal split_vertical : VaneType

-- `prepare_set_packet` with the length `PACKET_LEN`.
unfoldable pub prepare_set_packet : List ℕ
prepare_set_packet = header ++ replicate 14 0

-- `packet[21] = check_sum(packet, 21)`.
unfoldable pub add_checksum : List ℕ → List ℕ
add_checksum packet = set packet 21 (checksum packet 21)

-- `packet[i] = value; packet[f] += flag`, if the value has a wire byte.
pub put_field : Option ℕ → ℕ → ℕ → ℕ → List ℕ → List ℕ
put_field none i f flag packet = packet
put_field (some b) i f flag packet = let p = set packet i b in set p f (u8 (get_or p f 0 + flag))

-- The field with the wire value `wire`, unless it is not wanted.
abbrev pub put_wanted : Bool → Option ℕ → ℕ → ℕ → ℕ → List ℕ → List ℕ
put_wanted unset wire i f flag packet = if unset then packet else put_field wire i f flag packet

-- `switch (this->vane_type_)`.
pub put_left_vane : VaneType → ℕ → List ℕ → List ℕ
put_left_vane VaneType.split_horizontal b packet = set packet 16 b
put_left_vane VaneType.split_vertical b packet = packet
put_left_vane VaneType.standard b packet = packet

pub put_wide_vane : Option ℕ → Bool → VaneType → List ℕ → List ℕ
unfolding put_left_vane
put_wide_vane none adj type packet = packet
put_wide_vane (some b) adj type packet =
    let p = set packet 18 (bit_or b (if adj then 0x80 else 0x00)) in
    put_left_vane type b (set p 7 (u8 (get_or p 7 0 + 0x01)))

unfoldable pub create_info_packet : ℕ → List ℕ
unfolding add_checksum
create_info_packet code = add_checksum (infoheader ++ code ∷ replicate 16 0)

-- `send_first_connection_packet`: the handshake in the mode that is in effect.
unfoldable pub connection_packet : Bool → List ℕ
connection_packet installer_mode_effective =
    let packet = set connect 1 (if installer_mode_effective then 0x5B else 0x5A) in
    set packet 7 (checksum packet 7)

unfoldable pub run_states_packet : WantedHeatpumpRunStates → List ℕ
unfolding add_checksum prepare_set_packet put_field
run_states_packet w = add_checksum (
    put_wanted (same w.airflow_control HpAirflowControl.unknown)
      (hp_airflow_control_to_wire w.airflow_control) 11 6 0x20 (set prepare_set_packet 5 0x08))

module _ (fl : Float) where
  open fl use {F, of_int, div, lt}

  unfoldable pub get_temperature_setting : Option F → Option F → F → F
  get_temperature_setting (some wanted) current target_temperature = wanted
  get_temperature_setting none current target_temperature = value_or current target_temperature

  pub put_temperature : Option F → Option F → F → List ℕ → List ℕ
  unfolding get_temperature_setting
  put_temperature wanted current target packet =
      if has_value wanted
      then (let p =
            set packet 19
              (encode_temperature_b fl (get_temperature_setting wanted current target)) in
          set p 6 (u8 (get_or p 6 0 + 0x04)))
      else packet

  unfoldable pub create_packet :
      WantedHeatpumpSettings F → HeatpumpSettings F → F → Bool → VaneType → List ℕ
  unfolding prepare_set_packet add_checksum put_field put_temperature put_wide_vane
  create_packet w current target_temperature wide_vane_adj vane_type =
      let p0 = prepare_set_packet in
      let p1 = put_wanted (same w.power HpPower.unknown) (hp_power_to_wire w.power) 8 6 0x01 p0 in
      let p2 = put_wanted (same w.mode HpMode.unknown) (hp_mode_to_wire w.mode) 9 6 0x02 p1 in
      let p3 = put_temperature w.temperature current.temperature target_temperature p2 in
      let p4 = put_wanted (same w.fan HpFanMode.unknown) (hp_fan_to_wire w.fan) 11 6 0x08 p3 in
      let p5 = put_wanted (same w.vane HpVaneMode.unknown) (hp_vane_to_wire w.vane) 12 6 0x10 p4 in
      let p6 =
        if same w.wide_vane HpWideVaneMode.unknown
        then p5
        else put_wide_vane (hp_wide_vane_to_wire w.wide_vane) wide_vane_adj vane_type p5 in
      add_checksum p6

  -- `std::max(8.0f, std::min(t, 37.5f))`.
  pub clamp_sent : F → F
  clamp_sent t =
      let top = div (of_int (pos 75)) (two fl) in
      let low = if lt top t then top else t in
      if lt (of_int (pos 8)) low then low else of_int (pos 8)

  -- The bytes 6 to 8 of `send_remote_temperature_packet`.
  pub put_remote : Option F → List ℕ → List ℕ
  unfolding clamp_sent
  put_remote none packet = set packet 8 0x80
  put_remote (some t) packet =
      let (enc_a, enc_b) = encode_remote_temperature fl (clamp_sent t) in
      set (set (set packet 6 0x01) 7 enc_a) 8 enc_b

  unfoldable pub remote_temperature_packet : Option F → List ℕ
  unfolding add_checksum prepare_set_packet put_remote
  remote_temperature_packet remote =
      add_checksum (put_remote remote (set prepare_set_packet 5 0x07))
