-- ===== src/Packet/Frames.antt =====
-- components/cn105/hp_writings.cpp: every packet that is built is a frame with a valid checksum.
use mitsubishi_cn105esphome.Prelude.{
  ℕ, ◌≡◌, refl, ap, ◌∙◌, Bool, Option, none, some, List, [], ◌∷◌, ◌++◌, arith, if◌then◌else◌,
  length, set, replicate,
}
use mitsubishi_cn105esphome.Prelude.Float.{Float}
use mitsubishi_cn105esphome.Enums.Kinds.{
  HpMode, HpFanMode, HpVaneMode, HpWideVaneMode, HpAirflowControl, same, power_enum, mode_enum,
  fan_enum, vane_enum, wide_vane_enum, airflow_control_enum,
}
use mitsubishi_cn105esphome.Enums.Table.{enum_to_wire}
use mitsubishi_cn105esphome.Enums.Wrappers.{
  hp_power_to_wire, hp_mode_to_wire, hp_fan_to_wire, hp_vane_to_wire, hp_wide_vane_to_wire,
  hp_airflow_control_to_wire,
}
use mitsubishi_cn105esphome.Protocol.{encode_temperature_b}
use mitsubishi_cn105esphome.Protocol.Checksum.{checksum_cong}
use mitsubishi_cn105esphome.Settings.{HeatpumpSettings, WantedHeatpumpSettings}
use mitsubishi_cn105esphome.Parser.Frame.{frame, body}
use mitsubishi_cn105esphome.Packet.{
  VaneType, add_checksum, create_packet, create_info_packet, remote_temperature_packet,
  prepare_set_packet, put_field, put_wanted, put_wide_vane, put_temperature, clamp_sent,
}
use mitsubishi_cn105esphome.Protocol.{encode_remote_temperature}
use mitsubishi_cn105esphome.Packet.Layout.{
  SetBytes, set_payload, unsigned, wanted_bytes, upto, start, power_stage, mode_stage, fan_stage,
  vane_stage, wide_stage, put_power, put_mode, put_fan, put_vane, put_wide,
}

-- Sixteen bytes of payload between a header and the checksum.
pub sign_frame :
    (cmd b0 b1 b2 b3 b4 b5 b6 b7 b8 b9 b10 b11 b12 b13 b14 b15 : ℕ)
    → let xs =
        b0 ∷ b1 ∷ b2 ∷ b3 ∷ b4 ∷ b5 ∷ b6 ∷ b7 ∷ b8 ∷ b9 ∷ b10 ∷ b11 ∷ b12 ∷ b13 ∷ b14 ∷ b15 ∷ [] in
      add_checksum ((0xfc ∷ cmd ∷ 0x01 ∷ 0x30 ∷ 0x10 ∷ xs) ++ 0 ∷ []) ≡ frame cmd 0x01 0x30 xs
unfolding add_checksum
sign_frame cmd b0 b1 b2 b3 b4 b5 b6 b7 b8 b9 b10 b11 b12 b13 b14 b15 =
    ap (λ c. body cmd 0x01 0x30 xs ++ c ∷ [])
      (checksum_cong (body cmd 0x01 0x30 xs ++ 0 ∷ []) (body cmd 0x01 0x30 xs) 21 refl)
  where
    xs : List ℕ
    xs = b0 ∷ b1 ∷ b2 ∷ b3 ∷ b4 ∷ b5 ∷ b6 ∷ b7 ∷ b8 ∷ b9 ∷ b10 ∷ b11 ∷ b12 ∷ b13 ∷ b14 ∷ b15 ∷ []

-- The last setting that `create_packet` puts.
abbrev wide_put : {F : Type 0} → WantedHeatpumpSettings F → Bool → VaneType → List ℕ → List ℕ
wide_put w adj type packet =
    if same w.wide_vane HpWideVaneMode.unknown
    then packet
    else put_wide_vane (hp_wide_vane_to_wire w.wide_vane) adj type packet

module _ (fl : Float) where
  open fl use {F}

  -- The byte of the wanted setpoint.
  abbrev pub setpoint_byte : Option F → Option ℕ
  setpoint_byte none = none
  setpoint_byte (some t) = some (encode_temperature_b fl t)

  temperature_stage :
      (t current : Option F) (target : F) (packet : List ℕ)
      → put_temperature fl t current target packet ≡ put_field (setpoint_byte t) 19 6 0x04 packet
  unfolding put_temperature put_field
  temperature_stage none current target packet = refl
  temperature_stage (some t) current target packet = refl

  put_setpoint :
      (adj : Bool) (type : VaneType) (p m t : Option ℕ)
      → put_field t 19 6 0x04 (upto adj type p m none none none none)
        ≡ upto adj type p m t none none none
  unfolding put_field
  put_setpoint adj type p m t = ground arith

  -- The bytes that the wanted settings amount to.
  abbrev pub bytes_of_wanted : WantedHeatpumpSettings F → Bool → VaneType → SetBytes
  bytes_of_wanted w adj type =
      wanted_bytes (hp_power_to_wire w.power) (hp_mode_to_wire w.mode) (setpoint_byte w.temperature)
        (hp_fan_to_wire w.fan) (hp_vane_to_wire w.vane) (hp_wide_vane_to_wire w.wide_vane) adj type

  -- One stage after the other.
  create_packet-unsigned :
      (w : WantedHeatpumpSettings F) (current : HeatpumpSettings F) (target : F) (adj : Bool)
      (type : VaneType)
      → create_packet fl w current target adj type
        ≡ add_checksum (unsigned (bytes_of_wanted w adj type))
  unfolding create_packet
  create_packet-unsigned w current target adj type =
      let p = hp_power_to_wire w.power in
      let m = hp_mode_to_wire w.mode in
      let t = setpoint_byte w.temperature in
      let f = hp_fan_to_wire w.fan in
      let v = hp_vane_to_wire w.vane in
      ap add_checksum (
        ap
          (λ q. wide_put w adj type (
            put_wanted (same w.vane HpVaneMode.unknown) v 12 6 0x10 (
              put_wanted (same w.fan HpFanMode.unknown) f 11 6 0x08 (
                put_temperature fl w.temperature current.temperature target
                  (put_wanted (same w.mode HpMode.unknown) m 9 6 0x02 q)))))
          (put_power w.power prepare_set_packet
            ∙ ap (put_field p 8 6 0x01) (start adj type)
            ∙ power_stage adj type p)
        ∙ ap
            (λ q. wide_put w adj type (
              put_wanted (same w.vane HpVaneMode.unknown) v 12 6 0x10 (
                put_wanted (same w.fan HpFanMode.unknown) f 11 6 0x08
                  (put_temperature fl w.temperature current.temperature target q))))
            (put_mode w.mode _ ∙ mode_stage adj type p m)
        ∙ ap
            (λ q. wide_put w adj type (
              put_wanted (same w.vane HpVaneMode.unknown) v 12 6 0x10
                (put_wanted (same w.fan HpFanMode.unknown) f 11 6 0x08 q)))
            (temperature_stage w.temperature current.temperature target _
              ∙ put_setpoint adj type p m t)
        ∙ ap (λ q. wide_put w adj type (put_wanted (same w.vane HpVaneMode.unknown) v 12 6 0x10 q))
            (put_fan w.fan _ ∙ fan_stage adj type p m t f)
        ∙ ap (wide_put w adj type) (put_vane w.vane _ ∙ vane_stage adj type p m t f v)
        ∙ put_wide w.wide_vane adj type _
        ∙ wide_stage adj type p m t f v (hp_wide_vane_to_wire w.wide_vane))

  -- The SET packet is a frame of the command 0x41 whose payload holds the wanted settings: a flag
  -- and the wire byte for each that is known and has one, 0 for the others, whatever the current
  -- settings are.
  pub create_packet-frame :
      (w : WantedHeatpumpSettings F) (current : HeatpumpSettings F) (target : F) (adj : Bool)
      (type : VaneType)
      → create_packet fl w current target adj type
        ≡ frame 0x41 0x01 0x30 (set_payload (bytes_of_wanted w adj type))
  create_packet-frame w current target adj type =
      create_packet-unsigned w current target adj type
      ∙ sign_frame 0x41 _ _ _ _ _ _ _ _ _ _ _ _ _ _ _ _

  -- The payload of the remote temperature packet.
  abbrev pub remote_payload : Option F → List ℕ
  remote_payload none = 0x07 ∷ 0 ∷ 0 ∷ 0x80 ∷ replicate 12 0
  remote_payload (some t) =
      let enc = encode_remote_temperature fl (clamp_sent fl t) in
      0x07 ∷ 1 ∷ enc.0 ∷ enc.1 ∷ replicate 12 0

  pub remote-frame :
      (r : Option F) → remote_temperature_packet fl r ≡ frame 0x41 0x01 0x30 (remote_payload r)
  unfolding remote_temperature_packet
  remote-frame none = sign_frame 0x41 _ _ _ _ _ _ _ _ _ _ _ _ _ _ _ _
  remote-frame (some t) = sign_frame 0x41 _ _ _ _ _ _ _ _ _ _ _ _ _ _ _ _

pub info-frame : (code : ℕ) → create_info_packet code ≡ frame 0x42 0x01 0x30 (code ∷ replicate 15 0)
unfolding create_info_packet
info-frame code = sign_frame 0x42 _ _ _ _ _ _ _ _ _ _ _ _ _ _ _ _

-- The payload of the run-states packet.
abbrev pub run_states_payload : HpAirflowControl → List ℕ
run_states_payload a = elim (hp_airflow_control_to_wire a) [
  | none ↦ 0x08 ∷ replicate 15 0
  | some b ↦ 0x08 ∷ 0x20 ∷ 0 ∷ 0 ∷ 0 ∷ 0 ∷ b ∷ replicate 9 0
]

pub put_airflow :
    (a : HpAirflowControl)
    → add_checksum (
        put_wanted
          (same a HpAirflowControl.unknown)
          (hp_airflow_control_to_wire a)
          11
          6
          0x20
          (set prepare_set_packet 5 0x08))
      ≡ frame 0x41 0x01 0x30 (run_states_payload a)
unfolding enum_to_wire prepare_set_packet put_field
put_airflow HpAirflowControl.even = sign_frame 0x41 _ _ _ _ _ _ _ _ _ _ _ _ _ _ _ _
put_airflow _ = sign_frame 0x41 _ _ _ _ _ _ _ _ _ _ _ _ _ _ _ _

pub run_states_length : (a : HpAirflowControl) → length (run_states_payload a) ≡ 16
unfolding enum_to_wire
run_states_length HpAirflowControl.even = refl
run_states_length _ = refl
