-- ===== src/Packet/Received.antt =====
-- components/cn105/hp_writings.cpp and heatpump_functions.cpp: what is built is what a parser reads.
use mitsubishi_cn105esphome.Prelude.{
  ℕ, ◌+◌, ◌≤◌, ◌≡◌, subst, sym, Bool, Option, none, some, List, [], ◌∷◌, arith, length, replicate,
}
use mitsubishi_cn105esphome.Prelude.Float.{Float}
use mitsubishi_cn105esphome.Settings.{
  HeatpumpSettings, WantedHeatpumpSettings, WantedHeatpumpRunStates,
}
use mitsubishi_cn105esphome.Parser.{FrameParser, feed_all}
use mitsubishi_cn105esphome.Parser.Frame.{IsIdle, Parsed, frame, feed_all-frame}
use mitsubishi_cn105esphome.Packet.{
  VaneType, create_packet, create_info_packet, run_states_packet, remote_temperature_packet,
}
use mitsubishi_cn105esphome.Packet.Layout.{set_payload}
use mitsubishi_cn105esphome.Packet.Frames.{
  bytes_of_wanted, create_packet-frame, remote_payload, remote-frame, info-frame,
  run_states_payload, put_airflow, run_states_length,
}
use mitsubishi_cn105esphome.Functions.{
  HeatpumpFunctions, get_data1, get_data2, max_function_code_count,
}
use mitsubishi_cn105esphome.Functions.Sending.{
  functions_packet, functions_set_part1, functions_set_part2,
}
use mitsubishi_cn105esphome.Functions.Parts.{functions_packet-frame, length-get_data}

-- Every packet of 22 bytes that the component builds, for the settings, the remote temperature, the run
-- states, the requests and the two halves of thirty functions, is read, by a parser that waits, as a
-- complete frame with a valid checksum, the command and the payload that were meant.
pub packets-Parsed :
    (fl : Float) (q : FrameParser) (w : WantedHeatpumpSettings fl.F)
    (current : HeatpumpSettings fl.F) (target : fl.F) (adj : Bool) (type : VaneType)
    (remote : Option fl.F) (run : WantedHeatpumpRunStates) (code : ℕ) (f : HeatpumpFunctions)
    → IsIdle q
    → length f.raw ≡ max_function_code_count
    → Parsed
        (feed_all q (create_packet fl w current target adj type))
        0x41
        (set_payload (bytes_of_wanted fl w adj type))
      × Parsed (feed_all q (remote_temperature_packet fl remote)) 0x41 (remote_payload fl remote)
      × Parsed (feed_all q (run_states_packet run)) 0x41 (run_states_payload run.airflow_control)
      × Parsed (feed_all q (create_info_packet code)) 0x42 (code ∷ replicate 15 0)
      × Parsed
          (feed_all q (functions_packet functions_set_part1 (get_data1 f)))
          0x41
          (functions_set_part1 ∷ get_data1 f)
      × Parsed
          (feed_all q (functions_packet functions_set_part2 (get_data2 f)))
          0x41
          (functions_set_part2 ∷ get_data2 f)
packets-Parsed fl q w current target adj type remote run code f idle full = (
  sent (create_packet-frame fl w current target adj type) (omega arith),
  remote_sent remote,
  sent (unfold run_states_packet in put_airflow run.airflow_control)
      (omega (arith, run_states_length run.airflow_control)),
  sent (info-frame code) (omega arith),
  half functions_set_part1 (get_data1 f) (length-get_data f full).0,
  half functions_set_part2 (get_data2 f) (length-get_data f full).1,
)
  where
    sent :
        {packet : List ℕ} {cmd : ℕ} {xs : List ℕ}
        → packet ≡ frame cmd 0x01 0x30 xs
        → length xs + 6 ≤ 128
        → Parsed (feed_all q packet) cmd xs
    sent {cmd = c} {xs = ys} e fits =
        subst (λ bytes. Parsed (feed_all q bytes) c ys) (sym e)
          (feed_all-frame q [] c 0x01 0x30 ys idle tt fits)

    remote_sent :
        (r : Option fl.F)
        → Parsed (feed_all q (remote_temperature_packet fl r)) 0x41 (remote_payload fl r)
    remote_sent none = sent (remote-frame fl none) (omega arith)
    remote_sent (some t) = sent (remote-frame fl (some t)) (omega arith)

    half :
        (c : ℕ) (bytes : List ℕ)
        → length bytes ≡ 15
        → Parsed (feed_all q (functions_packet c bytes)) 0x41 (c ∷ bytes)
    half c bytes h = sent (functions_packet-frame c bytes h) (omega (arith, h))
