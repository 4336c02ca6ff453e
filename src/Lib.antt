-- ===== src/Lib.antt =====
-- Verification library of the ESPHome component that drives Mitsubishi heat pumps over the CN105
-- serial port (components/cn105).
--
-- The component polls the unit in cycles of INFO requests, decodes the responses, and writes SET
-- packets for what Home Assistant or its own reconciler wants. Bytes from the UART go through the
-- parser; a complete frame with a valid checksum is decoded and handed to the climate entity, and
-- advances the request queue, whose end ends the cycle. Between cycles one decision per iteration of
-- the loop says what is sent next. Paths below are relative to components/cn105.
--
-- - Prelude: shared names, list lemmas, signed integers and machine words; Prelude/Float is IEEE
--   single precision as a parameter, a record of the operations that the code calls with the
--   documented facts that theorems use as a second record; Prelude/Fixed is a number type that meets
--   all of them, on which the tests run. Prelude/Select is the select of ESPHome in the same way, and
--   Prelude/Chosen a select that meets its laws.
-- - Enums: cn105_types.h, the enumerations, tables, lookups and wrappers.
-- - Settings: cn105_types.h, the structs of settings, run states and status.
-- - Protocol: cn105_protocol.h, the checksum and the encodings of temperatures.
-- - Parser: frame_parser.h, class FrameParser, and the gap rule of hp_readings.cpp, process_input.
-- - Decoder: decoder.h, every decode function and the unit conversions; ErrorInfo is the text of the
--   error sensor in hp_readings.cpp.
-- - Packet: hp_writings.cpp, the bytes of create_packet, create_info_packet,
--   send_remote_temperature_packet, send_wanted_run_states and send_first_connection_packet; Received is
--   what a parser makes of them.
-- - Functions: heatpump_functions.cpp, class HeatpumpFunctions, and in Sending the two packets of
--   set_functions; Arrived is the text of functions_arrived, and Buttons the buttons and numbers of
--   extra_components.cpp that read and write the functions.
-- - Hardware: hardware_setting_select.cpp, class HardwareSettingSelect, with its callback in
--   extra_components.cpp and the loop of functions_arrived over the hardware settings.
-- - Selects: extra_components.cpp, hp_readings.cpp, hp_writings.cpp and utils.cpp, the selects of the
--   two vanes and of the airflow control.
-- - Uptime: uptime_connection_sensor.cpp, class HpUpTimeConnectionSensor.
-- - Debug: utils.cpp, the line that hp_packet_debug logs, and in Codes the one of hp_functions_debug.
-- - Link: component_entries.cpp, cn105.cpp and hp_writings.cpp, the connection: the driver states,
--   maybe_start_connection_, the handshake, reconnect_uart, write_packet and their timers.
-- - Remote: climate_controls.cpp, cn105.cpp and hp_writings.cpp, the remote temperature with its
--   timeout, keep-alive, rate limit and deferred writes.
-- - Requests: info_request.h and request_scheduler.cpp, class RequestScheduler. The calls of its
--   callbacks are recorded as events; the response handlers are a parameter.
-- - Schedule: scheduling_policy.h, decide_loop_action and its tests.
-- - Cycle: cycle_management.cpp, class CycleManagement.
-- - Reconcile: reconciliation_policy.h, decide_reconciliation and its parts.
-- - Climate: climate_controls.cpp and hp_readings.cpp, the members of CN105Climate that turn a call
--   of Home Assistant into wanted settings, and a report of the unit into the state of the entity.
-- - Device: component_entries.cpp, hp_readings.cpp and hp_writings.cpp, the component as a whole:
--   loop(), process_input, process_command, the response handlers and what is sent. It composes the
--   operations of the other parts. Configuration is the constructor and the setters of the
--   configuration, Setup is setup(). Arrival follows a settings response from its bytes to the
--   settings that are held.
--
-- State is passed explicitly: an operation takes the record of its object and returns the new one.
-- The clock is an argument, read once per call. Times are 32-bit milliseconds and wrap: differences
-- are sub32, sums u32. Bytes are numbers whose wrap is written out. Loops are structural recursion,
-- over the bytes, the table, the queue, or a count of the entries that are left. write_packet calls
-- itself through reconnect_uart and is written with a count of calls, two of which are enough. A timer
-- of ESPHome is its due time, and its callback is an operation that may run, however late, while the
-- timer is armed. Log output is left out, except for the lines of Debug.
--
-- Not modelled: the UART itself, and how ESPHome stores the state that setup() restores, which is a
-- parameter. Left aside: the sensors, dump_config and the other log lines, and the Python code
-- generation, which have no influence on the protocol. The record of the component has neither the
-- uptime sensor nor the selects, of which it only knows whether they are configured: their modules
-- stand beside it.
pub mod Climate
pub mod Cycle
pub mod Debug
pub mod Decoder
pub mod Device
pub mod Enums
pub mod Functions
pub mod Hardware
pub mod Link
pub mod Packet
pub mod Parser
pub mod Prelude
pub mod Protocol
pub mod Reconcile
pub mod Remote
pub mod Requests
pub mod Schedule
pub mod Selects
pub mod Settings
pub mod Uptime
