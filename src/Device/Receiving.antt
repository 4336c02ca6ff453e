-- ===== src/Device/Receiving.antt =====
-- components/cn105/hp_readings.cpp: a byte of the unit, and a frame that it completes.
use mitsubishi_cn105esphome.Prelude.{ℕ, Bool, true, false, ◌||◌, if◌then◌else◌, ◌==◌, get_or}
use mitsubishi_cn105esphome.Prelude.Float.{Float}
use mitsubishi_cn105esphome.Enums.Kinds.{HpAirflowControl}
use mitsubishi_cn105esphome.Settings.{reset_settings}
use mitsubishi_cn105esphome.Parser.{FrameParser, payload, receive, reset, checksum_valid}
use mitsubishi_cn105esphome.Cycle.{init}
use mitsubishi_cn105esphome.Link.{set_heatpump_connected}
use mitsubishi_cn105esphome.Requests.{process_response}
use mitsubishi_cn105esphome.Device.{Device, Component}
use mitsubishi_cn105esphome.Device.Sending.{performed, finish_functions}
use mitsubishi_cn105esphome.Device.Reading.{
  get_settings_from_response_packet, get_room_temperature_from_response_packet,
  get_operating_and_compressor_freq_from_response_packet, get_power_from_response_packet,
  functions_response,
}

module _ (fl : Float) (turn_off : Bool → Bool) (btu_power btu_energy : fl.F) where
  open fl use {F}

  -- The handlers that `register_info_requests` registers. That of 0x04 only publishes a text.
  unfoldable pub on_response : ℕ → ℕ → Component F → Component F
  on_response now code s =
      let bytes = payload s.context.link.parser in
      if code == 0x02
      then record s {
        context =
            get_settings_from_response_packet fl turn_off btu_power btu_energy now bytes s.context;
      }
      else if code == 0x03
      then record s {
        context =
            get_room_temperature_from_response_packet fl turn_off btu_power btu_energy bytes
              s.context;
      }
      else if code == 0x06
      then record s {
        context =
            get_operating_and_compressor_freq_from_response_packet fl turn_off btu_power btu_energy
              bytes s.context;
      }
      else if code == 0x09
      then record s {
        context = get_power_from_response_packet fl turn_off btu_power btu_energy bytes s.context;
      }
      else if code == 0x20 || code == 0x22
      then functions_response code bytes s
      else s

  -- The codes that no request has are logged.
  unfoldable pub get_data_from_response_packet : ℕ → Component F → Component F
  get_data_from_response_packet now s =
      performed fl now
        (process_response (on_response now) now s (get_or (payload s.context.link.parser) 0 0)).0

  -- The answer to the handshake.
  unfoldable pub connection_succeeds : ℕ → Device F → Device F
  connection_succeeds now d = record d {
    link = set_heatpump_connected true d.link;
    loop_cycle = init d.loop_cycle now;
    climate = record d.climate {
      has_issued_command = false;
      current_settings = reset_settings d.climate.current_settings;
    };
    current_airflow_control = HpAirflowControl.unknown;
  }

  unfoldable pub process_command : ℕ → Component F → Component F
  unfolding get_data_from_response_packet connection_succeeds
  process_command now s =
      let command = s.context.link.parser.command in
      if command == 0x61
      then record s { context = finish_functions now s.context }
      else if command == 0x62
      then get_data_from_response_packet now s
      else if command == 0x7a || command == 0x7b
      then record s { context = connection_succeeds now s.context }
      else s

  unfoldable pub process_data_packet : ℕ → Component F → Component F
  unfolding process_command
  process_data_packet now s =
      let d = s.context in
      if checksum_valid d.link.parser
      then process_command now
          (record s { context = record d { link = record d.link { last_response_ms = now } } })
      else s

  abbrev pub with_parser : FrameParser → ℕ → Component F → Component F
  with_parser p now s =
      let d = s.context in
      record s { context = record d { link = record d.link { parser = p }; last_rx_byte_ms = now } }

  -- One round of the loop of `process_input`, for the byte that arrives at `now`.
  unfoldable pub process_byte : ℕ → ℕ → Component F → Component F
  unfolding process_data_packet
  process_byte now byte s =
      let d = s.context in
      let r =
        receive (record { parser = d.link.parser; last_rx_byte_ms = d.last_rx_byte_ms }) now byte in
      let fed = with_parser r.parser now s in
      let done = process_data_packet now fed in
      if r.parser.complete then with_parser (reset done.context.link.parser) now done else fed
