-- ===== src/Device/Sending.antt =====
-- components/cn105/hp_writings.cpp and hp_readings.cpp: what the component sends, and what it does with it.
use mitsubishi_cn105esphome.Prelude.{
  ℕ, suc, Bool, true, false, not, ◌&&◌, ◌||◌, List, [], ◌∷◌, if◌then◌else◌, ltb, has_value,
}
use mitsubishi_cn105esphome.Prelude.Word.{sub32}
use mitsubishi_cn105esphome.Prelude.Float.{Float}
use mitsubishi_cn105esphome.Enums.Kinds.{
  HpPower, HpMode, HpFanMode, HpVaneMode, HpWideVaneMode, same, power_enum, mode_enum, fan_enum,
  vane_enum, wide_vane_enum,
}
use mitsubishi_cn105esphome.Settings.{reset_wanted, reset_run_states}
use mitsubishi_cn105esphome.Packet.{
  create_packet, create_info_packet, run_states_packet, get_temperature_setting,
}
use mitsubishi_cn105esphome.Cycle.{defer_cycle, cycle_started, cycle_ended}
use mitsubishi_cn105esphome.Climate.{Climate, update_action}
use mitsubishi_cn105esphome.Climate.Checks.{check_fan_settings, check_vane_settings, publish}
use mitsubishi_cn105esphome.Climate.Control.{
  PendingAction, check_pending_wanted_settings, check_pending_wanted_run_states,
}
use mitsubishi_cn105esphome.Climate.Readings.{check_power_and_mode_settings}
use mitsubishi_cn105esphome.Functions.Sending.{send_pending_functions_packet2, set_functions}
use mitsubishi_cn105esphome.Link.{
  is_uart_ready, is_connected, is_heatpump_connection_active, reconnect_if_connection_lost,
}
use mitsubishi_cn105esphome.Remote.{send_remote_temperature, send_pending_remote_temperature}
use mitsubishi_cn105esphome.Requests.{Event, send_next_after}
use mitsubishi_cn105esphome.Device.{Device, Component, with_link, write_checked}

-- The vanes of the wanted settings that are not wanted are the current ones.
abbrev pub complete_vanes : {F : Type 0} → Climate F → Climate F
complete_vanes c = record c {
  wanted_settings = record c.wanted_settings {
    settings = record c.wanted_settings.settings {
      vane =
          if same c.wanted_settings.vane HpVaneMode.unknown
          then c.current_settings.vane
          else c.wanted_settings.vane;
      wide_vane =
          if same c.wanted_settings.wide_vane HpWideVaneMode.unknown
          then c.current_settings.wide_vane
          else c.wanted_settings.wide_vane;
    };
  };
}

module _ (fl : Float) (turn_off : Bool → Bool) (debug : Bool) where
  open fl use {F}

  unfoldable pub publish_wanted_settings_state_to_ha : ℕ → Climate F → Climate F
  publish_wanted_settings_state_to_ha now c =
      let c1 =
        if not (same c.wanted_settings.mode HpMode.unknown)
          || not (same c.wanted_settings.power HpPower.unknown)
        then update_action
            (check_power_and_mode_settings fl turn_off now c.wanted_settings.settings false c)
        else c in
      let c2 =
        if not (same c1.wanted_settings.fan HpFanMode.unknown)
        then check_fan_settings c1.wanted_settings.settings false c1
        else c1 in
      let c3 =
        if not (same c2.wanted_settings.vane HpVaneMode.unknown)
          || not (same c2.wanted_settings.wide_vane HpWideVaneMode.unknown)
        then check_vane_settings (complete_vanes c2).wanted_settings.settings false
            (complete_vanes c2)
        else c2 in
      let c4 =
        if has_value c3.wanted_settings.temperature
        then record c3 {
          target_temperature =
              get_temperature_setting fl c3.wanted_settings.temperature
                c3.current_settings.temperature c3.target_temperature;
        }
        else c3 in
      publish c4

  unfoldable pub send_wanted_settings_delegate : ℕ → Device F → Device F
  unfolding publish_wanted_settings_state_to_ha
  send_wanted_settings_delegate now d =
      let c = d.climate in
      let sent = record d {
        climate = record c { wanted_settings = record c.wanted_settings { has_been_sent = true } };
        link = record d.link { last_send = now };
        last_wanted_settings_send_ms = now;
      } in
      let packet =
        create_packet fl c.wanted_settings c.current_settings c.target_temperature d.wide_vane_adj
          d.vane_type in
      let w = write_checked now packet sent in
      let shown = publish_wanted_settings_state_to_ha now w.climate in
      record w {
        climate = record shown { wanted_settings = reset_wanted shown.wanted_settings };
        loop_cycle = defer_cycle debug w.loop_cycle now;
      }

  unfoldable pub send_wanted_settings : ℕ → Device F → Device F
  unfolding send_wanted_settings_delegate
  send_wanted_settings now d =
      if is_heatpump_connection_active now d.link && is_uart_ready d.link.state
      then (if ltb 300 (sub32 now d.link.last_send) then send_wanted_settings_delegate now d else d)
      else with_link (reconnect_if_connection_lost now d.link) d

  -- `check_pending_wanted_settings`, with what it calls.
  unfoldable pub settle_wanted_settings : ℕ → Device F → Device F
  unfolding send_wanted_settings
  settle_wanted_settings now d =
      let (action, w) =
        check_pending_wanted_settings d.debounce_delay d.link.last_send now
          d.climate.wanted_settings in
      let e = record d { climate = record d.climate { wanted_settings = w } } in
      elim action [
        | PendingAction.wait ↦ e
        | PendingAction.drop ↦ e
        | PendingAction.send ↦ send_wanted_settings now e
      ]

  unfoldable pub send_wanted_run_states : ℕ → Device F → Device F
  send_wanted_run_states now d =
      let w = write_checked now (run_states_packet d.wanted_run_states) d in
      record w {
        wanted_run_states = reset_run_states w.wanted_run_states;
        loop_cycle = defer_cycle debug w.loop_cycle now;
      }

  unfoldable pub settle_wanted_run_states : ℕ → Device F → Device F
  unfolding send_wanted_run_states
  settle_wanted_run_states now d =
      elim (check_pending_wanted_run_states d.debounce_delay d.link.last_send now
        d.wanted_run_states) [
          | PendingAction.wait ↦ d
          | PendingAction.drop ↦ d
          | PendingAction.send ↦ send_wanted_run_states now d
        ]

module _ {F : Type 0} where
  unfoldable pub build_and_send_info_packet : ℕ → ℕ → Device F → Device F
  build_and_send_info_packet now code d = write_checked now (create_info_packet code) d

  -- `set_functions(this->functions)`.
  unfoldable pub store_functions : ℕ → Device F → Device F
  store_functions now d =
      let ((p, l), done) = set_functions now d.functions d.parts d.link in
      record (with_link l d) { parts = p }

  unfoldable pub finish_functions : ℕ → Device F → Device F
  finish_functions now d =
      let (p, l) = send_pending_functions_packet2 now (d.parts, d.link) in
      record (with_link l d) { parts = p }

module _ (fl : Float) where
  open fl use {F}

  -- `send_remote_temperature` of the remote temperature and the link.
  unfoldable pub tell_remote_temperature : ℕ → Device F → Device F
  tell_remote_temperature now d =
      let (r, l) = send_remote_temperature fl now d.remote d.link in
      record (with_link l d) { remote = r }

  unfoldable pub force_remote_temperature : ℕ → Device F → Device F
  force_remote_temperature now d =
      let (r, l) = send_pending_remote_temperature fl now d.remote d.link in
      record (with_link l d) { remote = r }

  unfoldable pub terminate_cycle : ℕ → Device F → Device F
  unfolding tell_remote_temperature
  terminate_cycle now d =
      let told =
        if d.remote.should_send_external_temperature then tell_remote_temperature now d else d in
      record told {
        loop_cycle = cycle_ended told.loop_cycle now;
        nb_complete_cycles = suc told.nb_complete_cycles;
      }

  -- The two callbacks of the scheduler, the last event first.
  unfoldable pub perform : ℕ → List Event → Device F → Device F
  unfolding terminate_cycle build_and_send_info_packet
  perform now [] d = d
  perform now (Event.send code ∷ es) d = build_and_send_info_packet now code (perform now es d)
  perform now (Event.terminate ∷ es) d = terminate_cycle now (perform now es d)

  unfoldable pub performed : ℕ → Component F → Component F
  unfolding perform
  performed now s = record s { context = perform now s.events s.context; events = [] }

  unfoldable pub build_and_send_requests_info_packets : ℕ → Component F → Component F
  unfolding performed
  build_and_send_requests_info_packets now s =
      let d = s.context in
      if is_connected d.link.state
      then performed now (
          send_next_after now
            (record s {
              context = record d {
                loop_cycle = cycle_started d.loop_cycle now;
                nb_cycles = suc d.nb_cycles;
              };
            })
            0)
      else record s { context = with_link (reconnect_if_connection_lost now d.link) d }
