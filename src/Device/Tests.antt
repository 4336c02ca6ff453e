-- ===== src/Device/Tests.antt =====
-- Runs of the whole component: a unit that cools is polled, and answers.
use mitsubishi_cn105esphome.Prelude.{
  replicate, ℕ, ◌≡◌, refl, Bool, true, false, none, List, [], ◌∷◌, ◌++◌, ◌+◌, arith, length,
}
use mitsubishi_cn105esphome.Prelude.Int.{pos}
use mitsubishi_cn105esphome.Prelude.Fixed.{Fixed, fixed, whole}
use mitsubishi_cn105esphome.Enums.Kinds.{
  HpPower, HpMode, HpFanMode, HpVaneMode, HpWideVaneMode, HpAirflowControl,
}
use mitsubishi_cn105esphome.Packet.{VaneType, create_info_packet}
use mitsubishi_cn105esphome.Parser.{fresh, feed_all}
use mitsubishi_cn105esphome.Parser.Frame.{IsIdle, body, frame}
use mitsubishi_cn105esphome.Protocol.{checksum}
use mitsubishi_cn105esphome.Functions.{cleared}
use mitsubishi_cn105esphome.Requests.{info_request, send_next_after}
use mitsubishi_cn105esphome.Link.{DriverState, Link, maybe_start_connection, write_within}
use mitsubishi_cn105esphome.Schedule.{
  decide_loop_action, should_force_remote_temp_send, is_cycle_starved, has_update_interval_passed,
}
use mitsubishi_cn105esphome.Link.Steps.{powered}
use mitsubishi_cn105esphome.Remote.{no_remote}
use mitsubishi_cn105esphome.Climate.Tests.{commanded}
use mitsubishi_cn105esphome.Device.{Device, Component, with_link, write_checked}
use mitsubishi_cn105esphome.Device.Sending.{build_and_send_requests_info_packets}
use mitsubishi_cn105esphome.Device.Main.{quiet_loop}
use mitsubishi_cn105esphome.Device.Receiving.{process_byte, on_response, with_parser}
use mitsubishi_cn105esphome.Device.Start.{
  register_info_requests, on_response-codes, register_info_requests-Ended,
}
use mitsubishi_cn105esphome.Enums.Table.{enum_to_wire}
use mitsubishi_cn105esphome.Decoder.RoundTrip.{UnitBytes, settings_response}
use mitsubishi_cn105esphome.Climate.Taking.{Taken}
use mitsubishi_cn105esphome.Device.Main.{process_input}
use mitsubishi_cn105esphome.Device.Report.{unit_settings}
use mitsubishi_cn105esphome.Device.Arrival.{settings_frame-Taken}
use mitsubishi_cn105esphome.Requests.Order.{codes}
use mitsubishi_cn105esphome.Requests.Ends.{Ended, answer_all}
use mitsubishi_cn105esphome.Device.OneWrite.{One}
use mitsubishi_cn105esphome.Device.OnePacket.{quiet_loop-One}
use mitsubishi_cn105esphome.Device.OneReply.{process_byte-One}

-- Connected at 18 s.
abbrev unit_link : Link
unit_link = record (powered 100 500 false 2000 true fresh) {
  state = DriverState.connected;
  last_response_ms = 18000;
}

abbrev device : Device Fixed
device = record {
  link = unit_link;
  climate = commanded;
  loop_cycle = record {
    cycle_running = false;
    last_cycle_start_ms = 0;
    last_complete_cycle_ms = 17000;
    last_cycle_end_ms = 17000;
  };
  remote = no_remote;
  functions = cleared;
  parts = record {
    pending_functions_packet2 = [];
    functions_part2_pending = false;
    fn_set_part2 = none;
  };
  current_status = record {
    room_temperature = whole (pos 26);
    outside_air_temperature = whole (pos 31);
    operating = true;
    compressor_frequency = whole (pos 40);
    input_power = whole (pos 500);
    kwh = whole (pos 3);
    runtime_hours = whole (pos 7);
  };
  current_airflow_control = HpAirflowControl.unknown;
  wanted_run_states = record {
    airflow_control = HpAirflowControl.unknown;
    has_changed = false;
    has_been_sent = false;
    last_change = 0;
  };
  wide_vane_adj = false;
  vane_type = VaneType.standard;
  debounce_delay = 100;
  is_get_functions = false;
  is_set_functions = false;
  last_wanted_settings_send_ms = 0;
  last_room_temp = whole (pos 26);
  last_evaluation_time = 19000;
  last_rx_byte_ms = 0;
  nb_cycles = 0;
  nb_complete_cycles = 0;
  remote_temp_margin = whole (pos 1);
  power_unit_is_btu = false;
  has_horizontal_vane_select = true;
  has_airflow_control_select = false;
  has_hardware_settings = false;
}

abbrev component : Component Fixed
component = record {
  requests = info_request 0x02 0 true ∷ info_request 0x03 0 true ∷ [];
  context = device;
  events = [];
}

abbrev stays : Bool → Bool
stays on = on

abbrev polled : Component Fixed
polled = quiet_loop fixed stays false true 20000 component

-- A cycle starts with the request for the settings.
polled_wire : polled.context.link.wire ≡ create_info_packet 0x02 ∷ []
unfolding quiet_loop with_link maybe_start_connection decide_loop_action
    should_force_remote_temp_send is_cycle_starved has_update_interval_passed
    build_and_send_requests_info_packets send_next_after write_checked write_within
polled_wire = refl

quiet_loop-One_example : One component.context polled.context × (polled.events ≡ [])
quiet_loop-One_example = quiet_loop-One fixed stays false true 20000 component refl

-- The room temperature, 26 degrees, in a frame whose last byte is to come.
abbrev room : List ℕ
room = body 0x62 0x01 0x30 (0x03 ∷ 0 ∷ 0 ∷ 0 ∷ 0 ∷ 0 ∷ 180 ∷ 0 ∷ [])

abbrev answered : Component Fixed
answered = record component {
  context = record device {
    link = record unit_link { parser = feed_all fresh room };
    last_rx_byte_ms = 20100;
  };
}

process_byte-One_example :
    let t =
      process_byte fixed stays (whole (pos 1)) (whole (pos 1)) 20105 (checksum room 13) answered in
    One answered.context t.context × (t.events ≡ [])
process_byte-One_example =
    process_byte-One fixed stays (whole (pos 1)) (whole (pos 1)) 20105 (checksum room 13) answered
      refl

steady : ℕ → ℕ
steady rounds = 20000

-- Each answer comes in a frame of its own, with the code that was asked for.
abbrev answer_frame : ℕ → ℕ → Component Fixed → Component Fixed
answer_frame k code s =
    with_parser fixed stays (whole (pos 1)) (whole (pos 1))
      (feed_all fresh (frame 0x62 0x01 0x30 (code ∷ replicate 15 k))) (steady k) s

answer_frame-codes :
    (k code : ℕ) (s : Component Fixed) → codes (answer_frame k code s).requests ≡ codes s.requests
answer_frame-codes k code s = refl

register_info_requests-Ended_example :
    let r = register_info_requests true 60000 component in
    Ended
      (answer_all
        (λ k. on_response fixed stays (whole (pos 1)) (whole (pos 1)) (steady k))
        (λ k. on_response-codes fixed stays (whole (pos 1)) (whole (pos 1)) (steady k))
        answer_frame
        answer_frame-codes
        steady
        (length r.requests)
        (send_next_after 20000 r 0)).events
register_info_requests-Ended_example =
    register_info_requests-Ended fixed stays (whole (pos 1)) (whole (pos 1)) steady 20000 60000 true
      component answer_frame answer_frame-codes

-- A unit that cools, with the bytes 5 ms apart.
abbrev cooling_unit : UnitBytes
cooling_unit = record {
  power = 1;
  mode = 3;
  i_see = true;
  fan = 2;
  vane = 7;
  wide_vane = 3;
  adjustment = true;
  setpoint = 171;
  humidity = 0;
  airflow = 0;
  others = 0;
}

abbrev spaced : ℕ → List ℕ → List (ℕ × ℕ)
spaced t [] = []
spaced t (b ∷ bs) = (t, b) ∷ spaced (t + 5) bs

abbrev settings_bytes : List (ℕ × ℕ)
settings_bytes =
    spaced 20105 (
      0x62 ∷ 0x01 ∷ 0x30 ∷ 15 ∷ 2 ∷ 0 ∷ 0 ∷ 1 ∷ 11 ∷ 0 ∷ 2 ∷ 7 ∷ 0 ∷ 0 ∷ 131 ∷ 171 ∷ 0 ∷ 0 ∷ 0 ∷ [])

settings_frame-Taken_example :
    let sum = checksum (body 0x62 0x01 0x30 (settings_response cooling_unit)) 20 in
    Taken
      (unit_settings fixed stays
        (whole (pos 1))
        (whole (pos 1))
        HpPower.on
        HpMode.cool
        HpFanMode.f1
        HpVaneMode.swing
        HpWideVaneMode.center
        true)
      component.context.climate
      (process_input fixed stays false
        (whole (pos 1))
        (whole (pos 1))
        ((20100, 0xFC) ∷ settings_bytes ++ (20200, sum) ∷ [])
        component).context.climate
unfolding settings_response enum_to_wire fresh
settings_frame-Taken_example =
    settings_frame-Taken fixed stays false (whole (pos 1)) (whole (pos 1)) 20100 20200 0x01 0x30
      settings_bytes component cooling_unit HpPower.on HpMode.cool HpFanMode.f1 HpVaneMode.swing
      HpWideVaneMode.center idle refl (omega arith) refl refl refl refl refl (omega arith)
      (omega arith) refl refl refl
  where
    idle : IsIdle fresh
    idle = record { sized = refl; no_start = refl; open_frame = refl; undeclared = refl }
