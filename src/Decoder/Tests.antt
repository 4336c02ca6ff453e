-- ===== src/Decoder/Tests.antt =====
-- Runs of components/cn105/decoder.h on a 0x02 response.
use mitsubishi_cn105esphome.Prelude.{◌≡◌, refl, true, some, [], ◌∷◌, arith}
use mitsubishi_cn105esphome.Prelude.Fixed.{Fixed, fixed}
use mitsubishi_cn105esphome.Enums.Kinds.{
  HpPower, HpMode, HpFanMode, HpVaneMode, HpWideVaneMode, mode_enum,
}
use mitsubishi_cn105esphome.Enums.Table.{enum_to_wire, codes}
use mitsubishi_cn105esphome.Decoder.{
  DecodedSettings, decode_settings, decode_error_info, half_degrees,
}
use mitsubishi_cn105esphome.Decoder.ErrorInfo.{get_error_info_from_response_packet}
use mitsubishi_cn105esphome.Decoder.RoundTrip.{
  UnitBytes, settings_response, decode_settings-response,
}

-- Cooling at 21.5 degrees with i-See, wide vane in the middle and adjusted.
abbrev cooling : UnitBytes
cooling = record {
  power = 1;
  mode = 3;
  i_see = true;
  fan = 2;
  vane = 7;
  wide_vane = 3;
  adjustment = true;
  setpoint = 171;
  humidity = 0;
  airflow = 0;
  others = 0;
}

decode_settings-response_example :
    (d : DecodedSettings Fixed) × (decode_settings fixed (some (settings_response cooling)) 15
      ≡ some d)
    × (d.power ≡ some HpPower.on)
    × (d.mode ≡ some HpMode.cool)
    × (d.i_see ≡ true)
    × (d.fan ≡ some HpFanMode.f1)
    × (d.vane ≡ some HpVaneMode.swing)
    × (d.wide_vane ≡ some HpWideVaneMode.center)
    × (d.wide_vane_adjustment ≡ true)
    × (d.temperature ≡ some (half_degrees fixed 171))
    × (d.wide_vane_present ≡ true)
unfolding enum_to_wire
decode_settings-response_example =
    decode_settings-response fixed cooling HpPower.on HpMode.cool HpFanMode.f1 HpVaneMode.swing
      HpWideVaneMode.center refl refl refl refl refl (omega arith) (omega arith)

-- Error 0x11 of sub-code 0xA2, with bit 7 of the code byte set.
error_shown :
    get_error_info_from_response_packet (some (4 ∷ 0 ∷ 0 ∷ 0 ∷ 0x91 ∷ 0xA2 ∷ [])) 6 (some [])
    ≡ some (codes "Error 0x11 sub 0xA2")
unfolding get_error_info_from_response_packet decode_error_info
error_shown = refl
