-- ===== src/Uptime/Tests.antt =====
-- Runs of components/cn105/uptime_connection_sensor.cpp across a wrap of the clock.
use mitsubishi_cn105esphome.Prelude.{ℕ, ◌≡◌, refl, arith, false, none, some, List, [], ◌∷◌}
use mitsubishi_cn105esphome.Prelude.Int.{pos}
use mitsubishi_cn105esphome.Prelude.Fixed.{Fixed, fixed, whole}
use mitsubishi_cn105esphome.Uptime.{
  HpUpTimeConnectionSensor, Call, get_uptime_ms, call_all, seconds,
}
use mitsubishi_cn105esphome.Uptime.Clock.{Knows, call_all-Knows}

-- The sensor as it is constructed.
abbrev new_sensor : HpUpTimeConnectionSensor Fixed
new_sensor = record {
  connected = false;
  uptime_accumulator = 0;
  start_time = 0;
  published = whole (pos 0);
}

-- A start 296 ms before the clock wraps, and an update 704 ms after it.
abbrev calls : List (Call × ℕ)
calls = (Call.start, 4294967000) ∷ (Call.update, 4294968000) ∷ []

sensor_shows : (call_all fixed calls new_sensor).published ≡ seconds fixed 1000
unfolding call_all get_uptime_ms
sensor_shows = refl

call_all-Knows_example :
    let s = call_all fixed calls new_sensor in
    Knows fixed s 4294968000 (some 4294967000) × (s.published ≡ seconds fixed 1000)
call_all-Knows_example =
    call_all-Knows fixed Call.start 4294967000 ((Call.update, 4294968000) ∷ []) new_sensor 0 none
      (record { time = refl; small = omega arith; link = refl; begin = λ u e. absurd (cc) })
      (omega arith)
