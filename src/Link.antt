-- ===== src/Link.antt =====
-- components/cn105/component_entries.cpp, cn105.cpp and hp_writings.cpp: the connection to the unit.
-- A timer of ESPHome (`set_timeout`) is its due time, or `none` when it is not armed; setting it again
-- replaces it, and it is disarmed before its callback runs. Whether the port is configured as 8E1 and
-- whether WiFi is connected are not in this repository: `serial_8e1`, constant, and an argument. The
-- bytes that are written to the port are `wire`, newest first. `disconnects` counts the calls of
-- `disconnect_uart`, whose effect on the climate entity is in Device.
pub mod Diagram
pub mod Steps
pub mod Watched
pub mod Attended
pub mod Handshake
pub mod Fuel
pub mod Growth
pub mod Delivery
pub mod Tests
use mitsubishi_cn105esphome.Prelude.{
  ℕ, zero, suc, ◌+◌, ◌*◌, Bool, true, false, not, ◌&&◌, ◌||◌, Option, none, some, List, [], ◌∷◌,
  if◌then◌else◌, ltb, length,
}
use mitsubishi_cn105esphome.Prelude.Word.{u32, sub32}
use mitsubishi_cn105esphome.Parser.{FrameParser, reset}
use mitsubishi_cn105esphome.Packet.{connection_packet}

pub data DriverState : Type 0 where
  boot wait_wifi wait_grace connecting connected disconnected : DriverState

-- A packet that waits for a retry, and its `check_is_active`.
pub record Pending : Type 0 where
  pub packet : List ℕ
  pub check_is_active : Bool

pub record Link : Type 0 where
  pub state : DriverState
  pub boot_ms : ℕ
  pub conn_bootstrap_delay_ms : ℕ
  pub uart_retry_pending : Bool
  pub installer_mode : Bool
  pub installer_mode_effective : Bool
  pub installer_mode_fallback_done : Bool
  pub update_interval : ℕ
  pub last_reconnect_time_ms : ℕ
  pub last_connect_rq_time_ms : ℕ
  pub last_response_ms : ℕ
  pub last_send : ℕ
  pub nb_heatpump_connections : ℕ
  pub pending : Option Pending
  pub parser : FrameParser
  pub serial_8e1 : Bool
  pub bootstrap_timeout : Option ℕ
  pub retry_uart_setup : Option ℕ
  pub check_first_connection : Option ℕ
  pub write_retry : Option ℕ
  pub wire : List (List ℕ)
  pub disconnects : ℕ

-- `state_ >= DriverState::CONNECTING`.
abbrev pub is_uart_ready : DriverState → Bool
is_uart_ready DriverState.connecting = true
is_uart_ready DriverState.connected = true
is_uart_ready DriverState.disconnected = true
is_uart_ready _ = false

abbrev pub is_connected : DriverState → Bool
is_connected DriverState.connected = true
is_connected _ = false

-- `set_timeout(…, delay, …)` at the time `now`.
abbrev pub due : ℕ → ℕ → Option ℕ
due now delay = some (u32 (now + delay))

unfoldable pub is_heatpump_connection_active : ℕ → Link → Bool
is_heatpump_connection_active now l =
    ltb (sub32 now l.last_response_ms) (u32 (10 * l.update_interval))

unfoldable pub set_heatpump_connected : Bool → Link → Link
set_heatpump_connected true l = record l { state = DriverState.connected }
set_heatpump_connected false l =
    if is_connected l.state then record l { state = DriverState.disconnected } else l

unfoldable pub setup_uart : Link → Link
unfolding set_heatpump_connected
setup_uart l =
    let c = set_heatpump_connected false l in
    if c.serial_8e1 then record c { state = DriverState.connecting; parser = reset c.parser } else c

unfoldable pub disconnect_uart : Link → Link
unfolding set_heatpump_connected
disconnect_uart l =
    let c = set_heatpump_connected false l in record c { disconnects = suc c.disconnects }

-- `write_packet` and the two calls below are mutually recursive; `write` is the inner write.
module _ (write : ℕ → List ℕ → Bool → Link → Link × Bool) where
  unfoldable pub send_first : ℕ → Link → Link
  unfolding set_heatpump_connected
  send_first now l =
      let ready = set_heatpump_connected false (record l { last_reconnect_time_ms = now }) in
      let sent = (write now (connection_packet l.installer_mode_effective) false ready).0 in
      if is_uart_ready l.state
      then record sent {
        last_send = now;
        last_connect_rq_time_ms = now;
        nb_heatpump_connections = suc sent.nb_heatpump_connections;
        check_first_connection = due now 10000;
      }
      else setup_uart l

  unfoldable pub reconnect : ℕ → Link → Link
  unfolding send_first disconnect_uart setup_uart
  reconnect now l =
      send_first now (setup_uart (disconnect_uart (record l { last_reconnect_time_ms = now })))

-- `memcpy` into `pending_packet_`, and the retry timer; a packet of more than 22 bytes is dropped.
unfoldable pub queue_packet : ℕ → List ℕ → Bool → Link → Link
queue_packet now packet check l = if ltb 22 (length packet) then l else record l {
  pending = some (record { packet = packet; check_is_active = check });
  write_retry = due now 4000;
}

-- `write_packet` with `fuel` calls of itself left.
unfoldable pub write_within : ℕ → ℕ → List ℕ → Bool → Link → Link × Bool
unfolding is_heatpump_connection_active queue_packet reconnect
write_within zero now packet check l = (l, false)
write_within (suc fuel) now packet check l =
    let again = reconnect (write_within fuel) now l in
    if is_uart_ready l.state && (is_heatpump_connection_active now l || not check)
    then (record l { wire = packet ∷ l.wire; last_send = now }, true)
    else (queue_packet now packet check again, false)

abbrev pub write_packet : ℕ → List ℕ → Bool → Link → Link × Bool
write_packet = write_within 2

abbrev pub send_first_connection_packet : ℕ → Link → Link
send_first_connection_packet = send_first write_packet

abbrev pub reconnect_uart : ℕ → Link → Link
reconnect_uart = reconnect write_packet

unfoldable pub reconnect_if_connection_lost : ℕ → Link → Link
reconnect_if_connection_lost now l =
    if ltb (sub32 now l.last_reconnect_time_ms) l.update_interval
    then l
    else if is_heatpump_connection_active now l
    then l
    else if ltb l.update_interval (sub32 now l.last_connect_rq_time_ms)
    then reconnect_uart now l
    else l

-- The callbacks of the four timers.
unfoldable pub bootstrap_fires : ℕ → Link → Link
bootstrap_fires now l =
    let fired = record l { bootstrap_timeout = none } in
    if is_uart_ready l.state then fired else send_first_connection_packet now (setup_uart fired)

unfoldable pub retry_uart_fires : Link → Link
retry_uart_fires l = record l { retry_uart_setup = none; uart_retry_pending = false }

abbrev pub fall_back : Link → Link
fall_back l =
    if l.installer_mode && l.installer_mode_effective && not l.installer_mode_fallback_done
    then record l { installer_mode_effective = false; installer_mode_fallback_done = true }
    else l

unfoldable pub first_check_fires : ℕ → Link → Link
first_check_fires now l =
    let fired = record l { check_first_connection = none } in
    if is_connected l.state then fired else reconnect_uart now (fall_back fired)

-- `try_write_pending_packet`.
unfoldable pub write_retry_fires : ℕ → Link → Link
write_retry_fires now l =
    let fired = record l { write_retry = none } in
    elim l.pending [
      | none ↦ fired
      | some p ↦
          if not (is_uart_ready l.state)
          then record (reconnect_uart now fired) { write_retry = due now 2000 }
          else (let (sent, done) = write_packet now p.packet p.check_is_active fired in
              if done then record sent { pending = none } else sent)
    ]

unfoldable pub maybe_start_connection : Bool → ℕ → Link → Link
unfolding setup_uart
maybe_start_connection wifi now l = elim l.state [
  | DriverState.boot ↦ record l {
    bootstrap_timeout = due now 120000;
    state = if wifi then DriverState.wait_grace else DriverState.wait_wifi;
  }
  | DriverState.wait_wifi ↦
      if wifi then record l { boot_ms = now; state = DriverState.wait_grace } else l
  | DriverState.wait_grace ↦
      if l.uart_retry_pending
      then l
      else if ltb (sub32 now l.boot_ms) l.conn_bootstrap_delay_ms
      then l
      else (let c = setup_uart l in
          if is_uart_ready c.state
          then send_first_connection_packet now c
          else record c { uart_retry_pending = true; retry_uart_setup = due now 10000 })
  | DriverState.connecting ↦ l
  | DriverState.connected ↦ l
  | DriverState.disconnected ↦ l
]
