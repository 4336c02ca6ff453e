-- ===== src/Protocol.antt =====
-- components/cn105/cn105_protocol.h: the checksum and the encodings of a temperature.
pub mod Checksum
pub mod Setpoint
pub mod Tests
use mitsubishi_cn105esphome.Prelude.{
  ℕ, zero, suc, ◌+◌, ◌-◌, ◌*◌, ◌/◌, ◌%◌, Bool, true, List, get_or, if◌then◌else◌,
}
use mitsubishi_cn105esphome.Prelude.Int.{ℤ, pos}
use mitsubishi_cn105esphome.Prelude.Float.{Float}
use mitsubishi_cn105esphome.Prelude.Word.{u8}

-- The loop of `checksum`: `rounds` bytes from index `i` are added to the `uint8_t` sum.
sum_bytes : List ℕ → ℕ → ℕ → ℕ → ℕ
sum_bytes bytes i zero sum = sum
sum_bytes bytes i (suc rounds) sum = sum_bytes bytes (suc i) rounds (u8 (sum + get_or bytes i 0))

-- `(0xfc - sum) & 0xff` of a `sum` below 256.
unfoldable pub checksum : List ℕ → ℕ → ℕ
unfolding sum_bytes
checksum bytes len = u8 (0xfc + 256 - sum_bytes bytes 0 len 0)

module _ (fl : Float) where
  open fl use {F, of_int, mul, div, round, lt, add, sub, to_u8}

  abbrev pub two : F
  two = of_int (pos 2)

  abbrev pub setpoint_min : F
  setpoint_min = of_int (pos 16)

  abbrev pub setpoint_max : F
  setpoint_max = of_int (pos 31)

  unfoldable pub normalize_setpoint : F → F
  normalize_setpoint temperature =
      let rounded = div (round (mul temperature two)) two in
      if lt rounded setpoint_min
      then setpoint_min
      else if lt setpoint_max rounded
      then setpoint_max
      else rounded

  unfoldable pub encode_temperature_b : F → ℕ
  encode_temperature_b temperature = to_u8 (add (round (mul temperature two)) (of_int (pos 128)))

  -- `temperature` after the two guards of `encode_remote_temperature`.
  pub clamp_remote : F → F
  clamp_remote temperature =
      if lt temperature (of_int (pos 8))
      then of_int (pos 8)
      else if lt (div (of_int (pos 75)) two) temperature
      then div (of_int (pos 75)) two
      else temperature

  -- The output parameters `enc_a` and `enc_b`.
  unfoldable pub encode_remote_temperature : F → ℕ × ℕ
  unfolding clamp_remote
  encode_remote_temperature temperature =
      let rounded = round (mul (clamp_remote temperature) two) in
      (to_u8 (sub rounded (of_int (pos 16))), to_u8 (add rounded (of_int (pos 128))))
