-- ===== src/Uptime.antt =====
-- components/cn105/uptime_connection_sensor.h and uptime_connection_sensor.cpp: class
-- HpUpTimeConnectionSensor, which shows for how many seconds the unit has been connected. The link calls
-- `start` and `stop`, ESPHome and the end of a cycle call `update`. What `publish_state` is called with is
-- `published`.
pub mod Clock
pub mod Tests
use mitsubishi_cn105esphome.Prelude.{
  ℕ, ◌+◌, ◌-◌, ◌*◌, ◌/◌, ◌%◌, Bool, true, false, List, [], ◌∷◌, ltb, if◌then◌else◌,
}
use mitsubishi_cn105esphome.Prelude.Int.{pos}
use mitsubishi_cn105esphome.Prelude.Float.{Float}

pub record HpUpTimeConnectionSensor (F : Type 0) : Type 0 where
  pub connected : Bool
  pub uptime_accumulator : ℕ
  pub start_time : ℕ
  pub published : F

-- `uint64_t`: sums, and differences of two values below 2 ^ 64.
abbrev pub u64 : ℕ → ℕ
u64 n = n % 18446744073709551616

abbrev pub sub64 : ℕ → ℕ → ℕ
sub64 a b = (a + 18446744073709551616 - b) % 18446744073709551616

-- `uptime_accumulator_` after `get_uptime_ms_`, which returns it. The low 32 bits are cleared before the
-- 32-bit clock is put there, so that `|` is a sum.
unfoldable pub get_uptime_ms : ℕ → ℕ → ℕ
get_uptime_ms ms accumulator =
    let last_ms = accumulator % 4294967296 in
    let rolled = if ltb ms last_ms then u64 (accumulator + 4294967296) else accumulator in
    rolled / 4294967296 * 4294967296 + ms

-- The calls of the sensor.
pub data Call : Type 0 where
  update start stop : Call

module _ (fl : Float) where
  open fl use {F, of_int, div}

  abbrev pub seconds : ℕ → F
  seconds ms = div (of_int (pos ms)) (of_int (pos 1000))

  unfoldable pub refresh : ℕ → HpUpTimeConnectionSensor F → HpUpTimeConnectionSensor F
  refresh ms s =
      let now = get_uptime_ms ms s.uptime_accumulator in
      record s {
        uptime_accumulator = now;
        published = if s.connected then seconds (sub64 now s.start_time) else of_int (pos 0);
      }

  unfoldable pub started : ℕ → HpUpTimeConnectionSensor F → HpUpTimeConnectionSensor F
  unfolding refresh
  started ms s =
      let now = get_uptime_ms ms s.uptime_accumulator in
      refresh ms (record s { uptime_accumulator = now; start_time = now; connected = true })

  unfoldable pub stopped : ℕ → HpUpTimeConnectionSensor F → HpUpTimeConnectionSensor F
  unfolding refresh
  stopped ms s = refresh ms (record s { connected = false })

  abbrev pub called : Call → ℕ → HpUpTimeConnectionSensor F → HpUpTimeConnectionSensor F
  called Call.update ms s = refresh ms s
  called Call.start ms s = started ms s
  called Call.stop ms s = stopped ms s

  -- The calls with the times at which they are made, counted from power-up without a wrap; `millis()` is
  -- the low 32 bits.
  unfoldable pub call_all :
      List (Call × ℕ) → HpUpTimeConnectionSensor F → HpUpTimeConnectionSensor F
  unfolding refresh started stopped
  call_all [] s = s
  call_all ((c, t) ∷ cs) s = call_all cs (called c (t % 4294967296) s)
