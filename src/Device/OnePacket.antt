-- ===== src/Device/OnePacket.antt =====
-- components/cn105/component_entries.cpp: one call of `loop()` without input makes the component write at
-- most one packet.
use mitsubishi_cn105esphome.Prelude.{
  ℕ, ◌≡◌, refl, sym, subst, ◌∙◌, Bool, true, false, ◌&&◌, ◌||◌, [], if_keeps, inl, inr, ltb, leb,
  if◌then◌else◌,
}
use mitsubishi_cn105esphome.Prelude.Word.{sub32}
use mitsubishi_cn105esphome.Prelude.Float.{Float}
use mitsubishi_cn105esphome.Climate.{evaluate_fan_stop_and_ltp}
use mitsubishi_cn105esphome.Climate.Control.{
  PendingAction, check_pending_wanted_settings, check_pending_wanted_run_states,
}
use mitsubishi_cn105esphome.Schedule.{LoopAction, decide_loop_action}
use mitsubishi_cn105esphome.Link.{
  Link, is_uart_ready, is_connected, is_heatpump_connection_active, reconnect_if_connection_lost,
  maybe_start_connection,
}
use mitsubishi_cn105esphome.Link.Growth.{
  Grown, write_packet-Grown, reconnect_if_connection_lost-Grown, maybe_start_connection-Grown,
}
use mitsubishi_cn105esphome.Device.{Device, Component, with_link, write_checked}
use mitsubishi_cn105esphome.Device.Sending.{
  send_wanted_settings_delegate, send_wanted_settings, settle_wanted_settings,
  send_wanted_run_states, settle_wanted_run_states, performed, build_and_send_requests_info_packets,
}
use mitsubishi_cn105esphome.Device.Main.{
  ask_functions, act, reconcile, begin_loop, quiet_loop, loop_inputs, temp_changed,
}
use mitsubishi_cn105esphome.Device.OneWrite.{
  One, One-refl, ask_functions-kept, force_remote_temperature-One, requests-One,
  store_functions-One,
}

module _ (fl : Float) (turn_off : Bool → Bool) (debug : Bool) where
  open fl use {F}

  delegate-One :
      (now : ℕ) (d : Device F) → One d (send_wanted_settings_delegate fl turn_off debug now d)
  unfolding send_wanted_settings_delegate write_checked with_link
  delegate-One now d = write_packet-Grown now _ true (record d.link { last_send = now })

  send_wanted_settings-One :
      (now : ℕ) (d : Device F) → One d (send_wanted_settings fl turn_off debug now d)
  unfolding send_wanted_settings with_link
  send_wanted_settings-One now d =
      let sends : Device F =
        if ltb 300 (sub32 now d.link.last_send)
        then send_wanted_settings_delegate fl turn_off debug now d
        else d in
      if_keeps (One d) (is_heatpump_connection_active now d.link && is_uart_ready d.link.state)
        sends (with_link (reconnect_if_connection_lost now d.link) d)
        (if_keeps (One d) (ltb 300 (sub32 now d.link.last_send))
          (send_wanted_settings_delegate fl turn_off debug now d) d (delegate-One now d)
          (One-refl d))
        (reconnect_if_connection_lost-Grown now d.link)

  settle_wanted_settings-One :
      (now : ℕ) (d : Device F) → One d (settle_wanted_settings fl turn_off debug now d)
  unfolding settle_wanted_settings
  settle_wanted_settings-One now d =
      let p =
        check_pending_wanted_settings d.debounce_delay d.link.last_send now
          d.climate.wanted_settings in
      let e : Device F = record d { climate = record d.climate { wanted_settings = p.1 } } in
      elim p.0
        as (λ a. One d (elim a [
          | PendingAction.wait ↦ e
          | PendingAction.drop ↦ e
          | PendingAction.send ↦ send_wanted_settings fl turn_off debug now e
        ])) [
          | PendingAction.wait ↦ One-refl d
          | PendingAction.drop ↦ One-refl d
          | PendingAction.send ↦ send_wanted_settings-One now e
        ]

  settle_wanted_run_states-One :
      (now : ℕ) (d : Device F) → One d (settle_wanted_run_states fl turn_off debug now d)
  unfolding settle_wanted_run_states send_wanted_run_states write_checked with_link
  settle_wanted_run_states-One now d =
      elim (check_pending_wanted_run_states d.debounce_delay d.link.last_send now
          d.wanted_run_states)
        as (λ a. One d (elim a [
          | PendingAction.wait ↦ d
          | PendingAction.drop ↦ d
          | PendingAction.send ↦ send_wanted_run_states fl turn_off debug now d
        ])) [
          | PendingAction.wait ↦ One-refl d
          | PendingAction.drop ↦ One-refl d
          | PendingAction.send ↦ write_packet-Grown now _ true d.link
        ]

  act-One :
      (now : ℕ) (a : LoopAction) (s : Component F)
      → s.events ≡ []
      → One s.context (act fl turn_off debug now a s).context
  unfolding act
  act-One now LoopAction.check_cycle_timeout s h = One-refl s.context
  act-One now LoopAction.send_remote_temp s h = force_remote_temperature-One fl now s.context
  act-One now LoopAction.send_settings s h = settle_wanted_settings-One now s.context
  act-One now LoopAction.send_run_states s h = settle_wanted_run_states-One now s.context
  act-One now LoopAction.set_functions s h =
      store_functions-One now (record s.context { is_set_functions = false })
  act-One now LoopAction.start_cycle s h =
      subst
        (λ (l : Link).
          Grown l.wire (build_and_send_requests_info_packets fl now (ask_functions s)).context.link)
        (ask_functions-kept fl s).1
        (requests-One fl now (ask_functions s) ((ask_functions-kept fl s).0 ∙ h))
  act-One now LoopAction.idle s h = One-refl s.context

  reconcile-link : (now : ℕ) (d : Device F) → (reconcile fl turn_off debug now d).link ≡ d.link
  unfolding reconcile
  reconcile-link now d =
      if_keeps (λ (e : Device F). e.link ≡ d.link)
        (temp_changed fl turn_off debug d || leb 5000 (sub32 now d.last_evaluation_time))
        (record d {
          last_evaluation_time = now;
          last_room_temp = d.climate.current_temperature;
          climate = evaluate_fan_stop_and_ltp fl now d.climate;
        })
        d refl refl

  act-done :
      (now : ℕ) (a : LoopAction) (s : Component F)
      → s.events ≡ []
      → (act fl turn_off debug now a s).events ≡ []
  unfolding act build_and_send_requests_info_packets performed
  act-done now LoopAction.check_cycle_timeout s h = h
  act-done now LoopAction.send_remote_temp s h = h
  act-done now LoopAction.send_settings s h = h
  act-done now LoopAction.send_run_states s h = h
  act-done now LoopAction.set_functions s h = h
  act-done now LoopAction.start_cycle s h =
      if_keeps (λ (t : Component F). t.events ≡ [])
        (is_connected (ask_functions s).context.link.state) _ _ refl
        ((ask_functions-kept fl s).0 ∙ h)
  act-done now LoopAction.idle s h = h

  -- One call of `loop()` in which no byte has arrived writes at most one packet, the handshake included,
  -- whatever the state of the connection, of the cycle and of what waits to be sent; and it
  -- leaves no callback of the scheduler to perform.
  pub quiet_loop-One :
      (wifi : Bool) (now : ℕ) (s : Component F)
      → s.events ≡ []
      → One s.context (quiet_loop fl turn_off debug wifi now s).context
        × ((quiet_loop fl turn_off debug wifi now s).events ≡ [])
  unfolding quiet_loop begin_loop with_link
  quiet_loop-One wifi now s h =
      let d : Device F = s.context in
      let m : Link = maybe_start_connection wifi now d.link in
      elim (maybe_start_connection-Grown wifi now d.link) [
        | inl same ↦
            let e : Device F = with_link m d in
            let can = is_connected m.state in
            let t : Component F = record s {
              context = if can then reconcile fl turn_off debug now e else e;
            } in
            let kept : t.context.link ≡ d.link =
              if_keeps (λ (x : Device F). x.link ≡ d.link) can (reconcile fl turn_off debug now e) e
                (reconcile-link now e ∙ same) same in
            let acted =
              act fl turn_off debug now (decide_loop_action (loop_inputs now t.context)) t in
            if_keeps (λ (u : Component F). One d u.context × (u.events ≡ [])) can acted t
              (
                subst (λ (l : Link). Grown l.wire acted.context.link) kept
                    (act-One now (decide_loop_action (loop_inputs now t.context)) t h),
                act-done now (decide_loop_action (loop_inputs now t.context)) t h,
              )
              (subst (Grown d.link.wire) (sym kept) (One-refl d), h)
        | inr (down, grown) ↦ rw down (grown, h)
      ]
