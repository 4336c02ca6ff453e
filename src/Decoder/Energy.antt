-- ===== src/Decoder/Energy.antt =====
-- components/cn105/decoder.h: the conversions of the two energy counters.
use mitsubishi_cn105esphome.Prelude.{Bool, if◌then◌else◌}
use mitsubishi_cn105esphome.Prelude.Int.{pos}
use mitsubishi_cn105esphome.Prelude.Float.{Float}

module _ (fl : Float) where
  open fl use {F, of_int, mul, div}

  -- The literals 1055.05558262f and 1055.05585262f, as the compiler rounds them.
  module _ (btu_power btu_energy : F) where
    unfoldable pub convert_input_power_to_w : F → Bool → F
    convert_input_power_to_w raw power_unit_is_btu =
        if power_unit_is_btu then mul raw (div (of_int (pos 3600)) btu_power) else raw

    unfoldable pub convert_energy_usage_to_kwh : F → Bool → F
    convert_energy_usage_to_kwh raw power_unit_is_btu =
        if power_unit_is_btu
        then mul (mul (of_int (pos 1000)) raw) (div btu_energy (of_int (pos 3600000)))
        else div raw (of_int (pos 10))
