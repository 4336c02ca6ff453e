-- ===== src/Link/Steps.antt =====
-- The calls that move the connection: ESPHome's loop, its timers, the writes of the component and the
-- answers of the unit, in any order.
use mitsubishi_cn105esphome.Prelude.{ℕ, ◌≡◌, Bool, true, false, none, some, List, []}
use mitsubishi_cn105esphome.Parser.{FrameParser}
use mitsubishi_cn105esphome.Link.{
  DriverState, Link, bootstrap_fires, retry_uart_fires, first_check_fires, write_retry_fires,
  maybe_start_connection, write_packet, set_heatpump_connected, reconnect_if_connection_lost,
}

-- The link that `setup` leaves at the time `now`, as configured.
abbrev pub powered : ℕ → ℕ → Bool → ℕ → Bool → FrameParser → Link
powered now delay installer interval serial parser = record {
  state = DriverState.boot;
  boot_ms = now;
  conn_bootstrap_delay_ms = delay;
  uart_retry_pending = false;
  installer_mode = installer;
  installer_mode_effective = installer;
  installer_mode_fallback_done = false;
  update_interval = interval;
  last_reconnect_time_ms = 0;
  last_connect_rq_time_ms = 0;
  last_response_ms = now;
  last_send = 0;
  nb_heatpump_connections = 0;
  pending = none;
  parser = parser;
  serial_8e1 = serial;
  bootstrap_timeout = none;
  retry_uart_setup = none;
  check_first_connection = none;
  write_retry = none;
  wire = [];
  disconnects = 0;
}

-- A timer fires, however late, only while it is armed. `heard` is a byte or a response that is no answer
-- to the handshake, which leaves the parser in any state.
pub data Step : Link → Link → Type 0 where
  loops : (wifi : Bool) (now : ℕ) (l : Link) → Step l (maybe_start_connection wifi now l)
  bootstraps :
      (now t : ℕ) (l : Link) → l.bootstrap_timeout ≡ some t → Step l (bootstrap_fires now l)
  retries : (t : ℕ) (l : Link) → l.retry_uart_setup ≡ some t → Step l (retry_uart_fires l)
  checks :
      (now t : ℕ) (l : Link) → l.check_first_connection ≡ some t → Step l (first_check_fires now l)
  rewrites : (now t : ℕ) (l : Link) → l.write_retry ≡ some t → Step l (write_retry_fires now l)
  writes : (now : ℕ) (p : List ℕ) (check : Bool) (l : Link) → Step l (write_packet now p check l).0
  answers : (l : Link) → Step l (set_heatpump_connected true l)
  heard :
      (now : ℕ) (parser : FrameParser) (l : Link)
      → Step l (record l { last_response_ms = now; parser = parser })
  -- `send_wanted_settings_delegate` sets `last_send_` before it writes.
  stamps : (now : ℕ) (l : Link) → Step l (record l { last_send = now })
  loses : (now : ℕ) (l : Link) → Step l (reconnect_if_connection_lost now l)

pub data Reach (s : Link) : Link → Type 0 where
  here : Reach s s
  next : {l m : Link} → Reach s l → Step l m → Reach s m
