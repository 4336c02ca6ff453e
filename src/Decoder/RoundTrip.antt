-- ===== src/Decoder/RoundTrip.antt =====
-- components/cn105/decoder.h: a settings response says what the unit put into it.
use mitsubishi_cn105esphome.Prelude.{
  ℕ, ◌+◌, ◌≤◌, ◌<◌, ◌≡◌, refl, ap, ◌∙◌, not, ltb, ◌==◌, ◌-◌, ◌%◌, ◌/◌, Bool, true, false, some,
  List, [], ◌∷◌, arith, if◌then◌else◌,
}
use mitsubishi_cn105esphome.Prelude.Float.{Float}
use mitsubishi_cn105esphome.Enums.Kinds.{HpPower, HpMode, HpFanMode, HpVaneMode, HpWideVaneMode}
use mitsubishi_cn105esphome.Enums.Wrappers.{
  hp_power_to_wire, hp_mode_to_wire, hp_fan_to_wire, hp_vane_to_wire, hp_wide_vane_to_wire,
  hp_mode_from_wire, hp_wide_vane_from_wire,
}
use mitsubishi_cn105esphome.Enums.RoundTrip.{wire_round_trip}
use mitsubishi_cn105esphome.Enums.Table.{enum_to_wire}
use mitsubishi_cn105esphome.Decoder.{DecodedSettings, decode_settings, half_degrees}

-- The wire bytes of a unit's state, and its setpoint as 128 more than twice the degrees. The bytes
-- that the decoder does not read are arbitrary.
pub record UnitBytes : Type 0 where
  pub power : ℕ
  pub mode : ℕ
  pub i_see : Bool
  pub fan : ℕ
  pub vane : ℕ
  pub wide_vane : ℕ
  pub adjustment : Bool
  pub setpoint : ℕ
  pub humidity : ℕ
  pub airflow : ℕ
  pub others : ℕ

-- The payload of a 0x02 response.
unfoldable pub settings_response : UnitBytes → List ℕ
settings_response u =
    0x02
    ∷ u.others
    ∷ u.others
    ∷ u.power
    ∷ (u.mode + (if u.i_see then 8 else 0))
    ∷ u.others
    ∷ u.fan
    ∷ u.vane
    ∷ u.others
    ∷ u.others
    ∷ (u.wide_vane + (if u.adjustment then 128 else 0))
    ∷ u.setpoint
    ∷ u.humidity
    ∷ u.others
    ∷ u.airflow
    ∷ []

-- A mode byte is at least 1 and at most 8.
mode_byte_range : (m : HpMode) (b : ℕ) → hp_mode_to_wire m ≡ some b → (1 ≤ b) × (b ≤ 8)
unfolding enum_to_wire
mode_byte_range m b h = ground arith

wide_byte_range : (w : HpWideVaneMode) (b : ℕ) → hp_wide_vane_to_wire w ≡ some b → b < 16
unfolding enum_to_wire
wide_byte_range w b h = ground arith

-- The flag and the mode share a byte, and come apart again.
i_see_bits :
    (flag : Bool) (b : ℕ)
    → 1 ≤ b
    → b ≤ 8
    → let raw = b + (if flag then 8 else 0) in
      (ltb 8 raw ≡ flag) × ((if ltb 8 raw then raw - 8 else raw) ≡ b)
i_see_bits true b l h = ground arith
i_see_bits false b l h = ground arith

adjustment_bits :
    (flag : Bool) (b : ℕ)
    → 0 < b
    → b < 16
    → let raw = b + (if flag then 128 else 0) in
      (not (raw == 0) ≡ true) × (raw % 16 ≡ b) × ((raw / 16 == 8) ≡ flag)
adjustment_bits true b l h = ground arith
adjustment_bits false b l h = ground arith

module _ (fl : Float) where
  -- If the bytes of a response encode a power, a mode, a fan speed, a vane and a wide vane, where
  -- the wide-vane byte is not 0 with its adjustment bit, and the setpoint byte is not 0, then the
  -- decoder finds exactly these, the i-See flag, the adjustment and the setpoint in half degrees,
  -- and that the wide vane is present.
  pub decode_settings-response :
      (u : UnitBytes) (p : HpPower) (m : HpMode) (f : HpFanMode) (v : HpVaneMode)
      (w : HpWideVaneMode)
      → hp_power_to_wire p ≡ some u.power
      → hp_mode_to_wire m ≡ some u.mode
      → hp_fan_to_wire f ≡ some u.fan
      → hp_vane_to_wire v ≡ some u.vane
      → hp_wide_vane_to_wire w ≡ some u.wide_vane
      → 0 < u.wide_vane
      → 0 < u.setpoint
      → (d : DecodedSettings fl.F) × (decode_settings fl (some (settings_response u)) 15 ≡ some d)
        × (d.power ≡ some p)
        × (d.mode ≡ some m)
        × (d.i_see ≡ u.i_see)
        × (d.fan ≡ some f)
        × (d.vane ≡ some v)
        × (d.wide_vane ≡ some w)
        × (d.wide_vane_adjustment ≡ u.adjustment)
        × (d.temperature ≡ some (half_degrees fl u.setpoint))
        × (d.wide_vane_present ≡ true)
  unfolding decode_settings settings_response
  decode_settings-response u p m f v w hp hm hf hv hw pw ps =
      let is_wide =
        adjustment_bits u.adjustment u.wide_vane pw (wide_byte_range w u.wide_vane hw) in
      let (least, most) = mode_byte_range m u.mode hm in
      let is_mode = i_see_bits u.i_see u.mode least most in
      (
        _,
        refl,
        (wire_round_trip.0 p u.power).0 hp,
        ap hp_mode_from_wire is_mode.1 ∙ (wire_round_trip.1 m u.mode).0 hm,
        is_mode.0,
        (wire_round_trip.2 f u.fan).0 hf,
        (wire_round_trip.3 v u.vane).0 hv,
        rw is_wide.0 (ap hp_wide_vane_from_wire is_wide.1 ∙ (wire_round_trip.4 w u.wide_vane).0 hw),
        rw is_wide.0 is_wide.2,
        ground arith,
        is_wide.0,
      )
