-- ===== src/Remote.antt =====
-- components/cn105/climate_controls.cpp, cn105.cpp and hp_writings.cpp: the room temperature that Home
-- Assistant feeds to the unit. Two of its three timers are due times, as in Link; the keep-alive is the
-- interval with which it was started, while it runs. What is written goes through the link.
pub mod Tracked
pub mod Tracking
pub mod Pace
pub mod Delivery
pub mod Tests
use mitsubishi_cn105esphome.Prelude.{
  ℕ, ◌-◌, Bool, true, false, not, ◌&&◌, ◌||◌, Option, none, some, ltb, leb, ◌==◌, if◌then◌else◌,
}
use mitsubishi_cn105esphome.Prelude.Int.{pos}
use mitsubishi_cn105esphome.Prelude.Word.{u32, sub32}
use mitsubishi_cn105esphome.Prelude.Float.{Float}
use mitsubishi_cn105esphome.Protocol.{encode_temperature_b}
use mitsubishi_cn105esphome.Packet.{remote_temperature_packet}
use mitsubishi_cn105esphome.Link.{
  Link, due, is_uart_ready, is_heatpump_connection_active, write_packet,
}

abbrev pub remote_temp_min_send_interval_ms : ℕ
remote_temp_min_send_interval_ms = 10000

-- `UINT32_MAX`, "never".
abbrev pub never : ℕ
never = 4294967295

pub record Remote (F : Type 0) : Type 0 where
  pub remote_temperature : Option F
  pub remote_temp_timeout : ℕ
  pub remote_temp_keepalive_interval_ms : ℕ
  pub remote_temp_keepalive_active : Bool
  pub last_remote_temp_send_ms : ℕ
  pub last_remote_temp_sent : Option F
  pub should_send_external_temperature : Bool
  pub remote_temp_pending_since_ms : ℕ
  pub remote_temp_timer : Option ℕ
  pub keepalive_timer : Option ℕ
  pub deferred_send : Option ℕ

-- The members as the constructor leaves them.
abbrev pub no_remote : {F : Type 0} → Remote F
no_remote = record {
  remote_temperature = none;
  remote_temp_timeout = never;
  remote_temp_keepalive_interval_ms = 20000;
  remote_temp_keepalive_active = false;
  last_remote_temp_send_ms = 0;
  last_remote_temp_sent = none;
  should_send_external_temperature = false;
  remote_temp_pending_since_ms = 0;
  remote_temp_timer = none;
  keepalive_timer = none;
  deferred_send = none;
}

module _ {F : Type 0} where
  unfoldable pub queue_remote_temperature_send : ℕ → Remote F → Remote F
  queue_remote_temperature_send now r = record r {
    remote_temp_pending_since_ms =
        if not r.should_send_external_temperature then now else r.remote_temp_pending_since_ms;
    should_send_external_temperature = true;
  }

  unfoldable pub ping_external_temperature : ℕ → Remote F → Remote F
  ping_external_temperature now r =
      if r.remote_temp_timeout == never
      then r
      else record r { remote_temp_timer = due now r.remote_temp_timeout }

  unfoldable pub set_remote_temp_timeout : ℕ → ℕ → Remote F → Remote F
  unfolding ping_external_temperature
  set_remote_temp_timeout now timeout r =
      let set = record r { remote_temp_timeout = timeout } in
      if timeout == never then set else ping_external_temperature now set

  unfoldable pub set_remote_temp_keepalive_interval : ℕ → Remote F → Remote F
  set_remote_temp_keepalive_interval interval_ms r = record r {
    remote_temp_keepalive_interval_ms = if ltb interval_ms 20000 then 20000 else interval_ms;
  }

  unfoldable pub start_remote_temp_keep_alive : Remote F → Remote F
  start_remote_temp_keep_alive r = if r.remote_temp_keepalive_active then r else record r {
    remote_temp_keepalive_active = true;
    keepalive_timer = some r.remote_temp_keepalive_interval_ms;
  }

  unfoldable pub stop_remote_temp_keep_alive : Remote F → Remote F
  stop_remote_temp_keep_alive r =
      if not r.remote_temp_keepalive_active
      then r
      else record r { remote_temp_keepalive_active = false; keepalive_timer = none }

  -- The callback of the interval, which goes on running.
  unfoldable pub keepalive_fires : Bool → ℕ → Remote F → Remote F
  unfolding queue_remote_temperature_send
  keepalive_fires connected now r = elim r.remote_temperature [
    | none ↦ r
    | some t ↦ if connected then queue_remote_temperature_send now r else r
  ]

  unfoldable pub clear_remote_temperature : ℕ → Remote F → Remote F
  unfolding stop_remote_temp_keep_alive queue_remote_temperature_send
  clear_remote_temperature now r =
      let stopped =
        stop_remote_temp_keep_alive
          (record r { remote_temperature = none; remote_temp_timer = none }) in
      queue_remote_temperature_send now (record stopped { deferred_send = none })

  unfoldable pub timeout_fires : ℕ → Remote F → Remote F
  unfolding clear_remote_temperature
  timeout_fires now r = clear_remote_temperature now (record r { remote_temp_timer = none })

  unfoldable pub send_remote_temperature_deferred : ℕ → Remote F → Remote F
  unfolding queue_remote_temperature_send
  send_remote_temperature_deferred now r =
      queue_remote_temperature_send now (record r { deferred_send = none })

module _ (fl : Float) where
  open fl use {F, is_nan, eq, of_int}

  -- `last_remote_temp_sent_` has the byte of the new value.
  abbrev pub byte_unchanged : Option F → F → Bool
  byte_unchanged none setting = false
  byte_unchanged (some sent) setting =
      encode_temperature_b fl sent == encode_temperature_b fl setting

  -- The end of `set_remote_temperature`: the write is skipped, queued or deferred.
  unfoldable pub pace : ℕ → F → Remote F → Remote F
  unfolding queue_remote_temperature_send
  pace now setting r =
      let cancelled = record r { deferred_send = none } in
      let elapsed = sub32 now r.last_remote_temp_send_ms in
      if byte_unchanged r.last_remote_temp_sent setting && ltb 0 r.last_remote_temp_send_ms
      then cancelled
      else if r.last_remote_temp_send_ms == 0 || leb remote_temp_min_send_interval_ms elapsed
      then queue_remote_temperature_send now cancelled
      else record r { deferred_send = due now (remote_temp_min_send_interval_ms - elapsed) }

  unfoldable pub set_remote_temperature : ℕ → F → Remote F → Remote F
  unfolding clear_remote_temperature ping_external_temperature start_remote_temp_keep_alive pace
  set_remote_temperature now setting r =
      if is_nan setting
      then r
      else if eq setting (of_int (pos 0))
      then clear_remote_temperature now r
      else pace now setting (
          start_remote_temp_keep_alive
            (ping_external_temperature now (record r { remote_temperature = some setting })))

  unfoldable pub send_remote_temperature_packet : ℕ → Remote F → Link → Remote F × Link
  send_remote_temperature_packet now r l = (
    record r {
      deferred_send = none;
      last_remote_temp_send_ms = now;
      last_remote_temp_sent = r.remote_temperature;
    },
    (write_packet now (remote_temperature_packet fl r.remote_temperature) true l).0,
  )

  unfoldable pub send_remote_temperature : ℕ → Remote F → Link → Remote F × Link
  unfolding send_remote_temperature_packet
  send_remote_temperature now r l =
      send_remote_temperature_packet now
        (record r { should_send_external_temperature = false; remote_temp_pending_since_ms = 0 }) l

  unfoldable pub send_pending_remote_temperature : ℕ → Remote F → Link → Remote F × Link
  unfolding send_remote_temperature
  send_pending_remote_temperature now r l =
      if not (is_heatpump_connection_active now l) || not (is_uart_ready l.state)
      then (record r { remote_temp_pending_since_ms = now }, l)
      else send_remote_temperature now r l
