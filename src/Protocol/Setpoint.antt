-- ===== src/Protocol/Setpoint.antt =====
-- components/cn105/cn105_protocol.h: the range and the wire form of a setpoint.
use mitsubishi_cn105esphome.Prelude.{ℕ, ◌+◌, ◌<◌, ◌≡◌, true, false, arith}
use mitsubishi_cn105esphome.Prelude.Int.{pos}
use mitsubishi_cn105esphome.Prelude.Float.{Float, IsIeee}
use mitsubishi_cn105esphome.Protocol.{
  two, setpoint_min, setpoint_max, normalize_setpoint, encode_temperature_b,
}

module _ (fl : Float) (ieee : IsIeee fl) where
  open fl use {F, is_nan, le, lt, mul, div, round, of_int}

  -- Unless rounding gives a NaN, the normalised setpoint lies in the range that the unit accepts.
  pub normalize_setpoint_bounds :
      (t : F)
      → is_nan (div (round (mul t (two fl))) (two fl)) ≡ false
      → (le (setpoint_min fl) (normalize_setpoint fl t) ≡ true)
        × (le (normalize_setpoint fl t) (setpoint_max fl) ≡ true)
  unfolding normalize_setpoint
  normalize_setpoint_bounds t h = ground (
    arith,
    ieee.of_int_not_nan (pos 16),
    ieee.of_int_not_nan (pos 31),
    ieee.le_refl (of_int (pos 16)),
    ieee.le_refl (of_int (pos 31)),
    ieee.lt_of_int 16 31,
    ieee.le_of_lt (of_int (pos 16)) (of_int (pos 31)),
    ieee.le_of_not_lt (div (round (mul t (two fl))) (two fl)) (of_int (pos 16)),
    ieee.le_of_not_lt (of_int (pos 31)) (div (round (mul t (two fl))) (two fl)),
  )

  -- Half degrees from 0 to 63.5 are encoded as twice their value plus 128.
  pub encode_temperature_b_half :
      (n : ℕ) → n < 128 → encode_temperature_b fl (div (of_int (pos n)) (two fl)) ≡ n + 128
  unfolding encode_temperature_b
  encode_temperature_b_half n h = ground (
    arith,
    ieee.double_half n,
    ieee.round_of_int (pos n),
    ieee.add_of_int n 128,
    ieee.to_u8_of_int (n + 128),
  )
