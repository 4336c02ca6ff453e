-- ===== src/Device/OneWrite.antt =====
-- components/cn105/hp_writings.cpp and hp_readings.cpp: each operation that sends writes at most one packet.
use mitsubishi_cn105esphome.Prelude.{
  ℕ, suc, ◌≡◌, refl, sym, subst, ap, ◌∙◌, true, not, ◌||◌, List, [], ◌∷◌, Bool-cases, if_keeps, inl,
  inr, arith,
}
use mitsubishi_cn105esphome.Prelude.Float.{Float}
use mitsubishi_cn105esphome.Cycle.{cycle_started}
use mitsubishi_cn105esphome.Functions.{is_valid}
use mitsubishi_cn105esphome.Functions.Sending.{set_functions, send_pending_functions_packet2}
use mitsubishi_cn105esphome.Link.{Link, is_uart_ready, is_connected, is_heatpump_connection_active}
use mitsubishi_cn105esphome.Link.Growth.{
  Grown, write_packet-Grown, reconnect_if_connection_lost-Grown,
}
use mitsubishi_cn105esphome.Remote.{
  Remote, send_remote_temperature, send_pending_remote_temperature,
}
use mitsubishi_cn105esphome.Requests.{Event, send_next_after, enable_request, timer_bypass}
use mitsubishi_cn105esphome.Requests.Single.{Single, send_next_after-Single}
use mitsubishi_cn105esphome.Device.{Device, Component, with_link, write_checked}
use mitsubishi_cn105esphome.Device.Sending.{
  build_and_send_info_packet, store_functions, finish_functions, tell_remote_temperature,
  force_remote_temperature, terminate_cycle, perform, performed,
  build_and_send_requests_info_packets,
}
use mitsubishi_cn105esphome.Device.Main.{ask_functions}

module _ {F : Type 0} where
  -- One packet more on the wire, at most.
  abbrev pub One : Device F → Device F → Type 0
  One d e = Grown d.link.wire e.link

  pub One-refl : (d : Device F) → One d d
  One-refl d = omega arith

  write_checked-One : (now : ℕ) (p : List ℕ) (d : Device F) → One d (write_checked now p d)
  unfolding write_checked
  write_checked-One now p d = write_packet-Grown now p true d.link

  pub store_functions-One : (now : ℕ) (d : Device F) → One d (store_functions now d)
  unfolding store_functions with_link set_functions
  store_functions-One now d = elim (Bool-cases (is_valid d.functions)) [
    | inl h ↦ rw h (write_packet-Grown now _ true d.link)
    | inr h ↦ rw h (One-refl d)
  ]

  pub finish_functions-One : (now : ℕ) (d : Device F) → One d (finish_functions now d)
  unfolding finish_functions with_link send_pending_functions_packet2
  finish_functions-One now d = elim (Bool-cases d.parts.functions_part2_pending) [
    | inl h ↦ rw h (write_packet-Grown now d.parts.pending_functions_packet2 true d.link)
    | inr h ↦ rw h (One-refl d)
  ]

module _ (fl : Float) where
  open fl use {F}

  tell_remote_temperature-One : (now : ℕ) (d : Device F) → One d (tell_remote_temperature fl now d)
  unfolding tell_remote_temperature with_link send_remote_temperature
  tell_remote_temperature-One now d = write_packet-Grown now _ true d.link

  pub force_remote_temperature-One :
      (now : ℕ) (d : Device F) → One d (force_remote_temperature fl now d)
  unfolding force_remote_temperature with_link send_pending_remote_temperature
      tell_remote_temperature
  force_remote_temperature-One now d =
      if_keeps (λ (p : Remote F × Link). Grown d.link.wire p.1)
        (not (is_heatpump_connection_active now d.link) || not (is_uart_ready d.link.state))
        (record d.remote { remote_temp_pending_since_ms = now }, d.link)
        (send_remote_temperature fl now d.remote d.link) (One-refl d)
        (tell_remote_temperature-One now d)

  terminate_cycle-One : (now : ℕ) (d : Device F) → One d (terminate_cycle fl now d)
  unfolding terminate_cycle
  terminate_cycle-One now d =
      if_keeps (One d) d.remote.should_send_external_temperature (tell_remote_temperature fl now d)
        d (tell_remote_temperature-One now d) (One-refl d)

  perform-One : (now : ℕ) (e : Event) (d : Device F) → One d (perform fl now (e ∷ []) d)
  unfolding perform build_and_send_info_packet
  perform-One now (Event.send code) d = write_checked-One now _ d
  perform-One now Event.terminate d = terminate_cycle-One now d

  -- The one event of a call of the scheduler.
  pub performed-One :
      (now : ℕ) (s t : Component F)
      → s.events ≡ []
      → Single s t
      → One s.context (performed fl now t).context
  unfolding performed
  performed-One now s t none_yet (e, new, same) =
      subst (λ es. One s.context (perform fl now es t.context)) (sym (new ∙ ap (◌∷◌ e) none_yet))
        (subst (λ d. One s.context (perform fl now (e ∷ []) d)) (sym same)
          (perform-One now e s.context))

  pub performed_none :
      (now : ℕ) (s : Component F) → s.events ≡ [] → One s.context (performed fl now s).context
  unfolding performed perform
  performed_none now s h = rw h (One-refl s.context)

  pub requests-One :
      (now : ℕ) (s : Component F)
      → s.events ≡ []
      → One s.context (build_and_send_requests_info_packets fl now s).context
  unfolding build_and_send_requests_info_packets with_link
  requests-One now s none_yet =
      let d : Device F = s.context in
      let started : Component F = record s {
        context = record d {
          loop_cycle = cycle_started d.loop_cycle now;
          nb_cycles = suc d.nb_cycles;
        };
      } in
      elim (Bool-cases (is_connected s.context.link.state)) [
        | inl h ↦ rw h (
            performed-One now started (send_next_after now started 0) none_yet
              (send_next_after-Single now started 0))
        | inr h ↦ rw h (reconnect_if_connection_lost-Grown now s.context.link)
      ]

  -- The requests that are asked for again change neither the device nor what is to be performed.
  pub ask_functions-kept :
      (s : Component F)
      → ((ask_functions s).events ≡ s.events) × ((ask_functions s).context.link ≡ s.context.link)
  unfolding ask_functions enable_request timer_bypass
  ask_functions-kept s = elim (Bool-cases s.context.is_get_functions) [
    | inl h ↦ rw h (refl, refl)
    | inr h ↦ rw h (refl, refl)
  ]
