-- ===== src/Packet/Tests.antt =====
-- Runs of components/cn105/hp_writings.cpp that switch a unit to cooling at 21 degrees.
use mitsubishi_cn105esphome.Prelude.{
  ℕ, ◌≡◌, refl, true, false, some, ◌∷◌, replicate, length-replicate,
}
use mitsubishi_cn105esphome.Prelude.Int.{pos}
use mitsubishi_cn105esphome.Prelude.Fixed.{Fixed, fixed, whole}
use mitsubishi_cn105esphome.Enums.Kinds.{HpPower, HpMode, HpWideVaneMode, HpAirflowControl}
use mitsubishi_cn105esphome.Settings.{WantedHeatpumpSettings, WantedHeatpumpRunStates, no_settings}
use mitsubishi_cn105esphome.Parser.{fresh, feed_all}
use mitsubishi_cn105esphome.Parser.Frame.{IsIdle, Parsed, frame}
use mitsubishi_cn105esphome.Packet.{
  VaneType, create_packet, remote_temperature_packet, run_states_packet, create_info_packet,
}
use mitsubishi_cn105esphome.Packet.Layout.{set_payload}
use mitsubishi_cn105esphome.Packet.Frames.{
  bytes_of_wanted, create_packet-frame, remote_payload, run_states_payload,
}
use mitsubishi_cn105esphome.Packet.Received.{packets-Parsed}
use mitsubishi_cn105esphome.Functions.{HeatpumpFunctions, get_data1, get_data2}
use mitsubishi_cn105esphome.Functions.Sending.{
  functions_packet, functions_set_part1, functions_set_part2,
}

abbrev cool_21 : WantedHeatpumpSettings Fixed
cool_21 = record {
  settings = record no_settings {
    power = HpPower.on;
    mode = HpMode.cool;
    temperature = some (whole (pos 21));
    wide_vane = HpWideVaneMode.center;
  };
  has_changed = true;
  has_been_sent = false;
  last_change = 1000;
}

abbrev airflow_even : WantedHeatpumpRunStates
airflow_even = record {
  airflow_control = HpAirflowControl.even;
  has_changed = true;
  has_been_sent = false;
  last_change = 1000;
}

create_packet-frame_example :
    create_packet fixed cool_21 no_settings (whole (pos 20)) true VaneType.split_horizontal
    ≡ frame 0x41 0x01 0x30
        (set_payload (bytes_of_wanted fixed cool_21 true VaneType.split_horizontal))
create_packet-frame_example =
    create_packet-frame fixed cool_21 no_settings (whole (pos 20)) true VaneType.split_horizontal

IsIdle-fresh : IsIdle fresh
unfolding fresh
IsIdle-fresh = record {
  sized = length-replicate {A = ℕ} 128 0;
  no_start = refl;
  open_frame = refl;
  undeclared = refl;
}

abbrev thirty : HeatpumpFunctions
thirty = record { raw = replicate 30 9; is_valid1 = true; is_valid2 = true }

packets-Parsed_example :
    Parsed
      (feed_all fresh
        (create_packet fixed cool_21 no_settings (whole (pos 20)) false VaneType.standard))
      0x41
      (set_payload (bytes_of_wanted fixed cool_21 false VaneType.standard))
    × Parsed
        (feed_all fresh (remote_temperature_packet fixed (some (whole (pos 19)))))
        0x41
        (remote_payload fixed (some (whole (pos 19))))
    × Parsed
        (feed_all fresh (run_states_packet airflow_even))
        0x41
        (run_states_payload airflow_even.airflow_control)
    × Parsed (feed_all fresh (create_info_packet 0x09)) 0x42 (0x09 ∷ replicate 15 0)
    × Parsed
        (feed_all fresh (functions_packet functions_set_part1 (get_data1 thirty)))
        0x41
        (functions_set_part1 ∷ get_data1 thirty)
    × Parsed
        (feed_all fresh (functions_packet functions_set_part2 (get_data2 thirty)))
        0x41
        (functions_set_part2 ∷ get_data2 thirty)
packets-Parsed_example =
    packets-Parsed fixed fresh cool_21 no_settings (whole (pos 20)) false VaneType.standard
      (some (whole (pos 19))) airflow_even 0x09 thirty IsIdle-fresh refl
