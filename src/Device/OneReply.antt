-- ===== src/Device/OneReply.antt =====
-- components/cn105/hp_readings.cpp: one byte of the unit makes the component write at most one packet.
use mitsubishi_cn105esphome.Prelude.{
  ℕ, ◌≡◌, refl, subst, ◌∙◌, Bool, false, not, ◌||◌, Option, none, some, List, [], Bool-cases,
  if_keeps, inl, inr, length, drop, leb, ◌==◌, get_or, if◌then◌else◌,
}
use mitsubishi_cn105esphome.Prelude.Float.{Float}
use mitsubishi_cn105esphome.Settings.{HeatpumpStatus, same_status}
use mitsubishi_cn105esphome.Decoder.{DecodedSettings, DecodedRoomTemperature, DecodedStatus}
use mitsubishi_cn105esphome.Functions.{set_data1, set_data2}
use mitsubishi_cn105esphome.Parser.{payload, receive, checksum_valid}
use mitsubishi_cn105esphome.Link.{Link, set_heatpump_connected}
use mitsubishi_cn105esphome.Link.Growth.{Grown}
use mitsubishi_cn105esphome.Requests.{
  disable_request, mark_response_seen, process_response, update_first, with_code, handled_by,
  send_next_after,
}
use mitsubishi_cn105esphome.Requests.Single.{send_next_after-Single}
use mitsubishi_cn105esphome.Device.{Device, Component}
use mitsubishi_cn105esphome.Device.Sending.{performed}
use mitsubishi_cn105esphome.Device.Reading.{
  take_settings, take_room_temperature, take_status, get_settings_from_response_packet,
  status_changed, get_room_temperature_from_response_packet,
  get_operating_and_compressor_freq_from_response_packet, get_power_from_response_packet,
  functions_response, all_zeros,
}
use mitsubishi_cn105esphome.Device.Receiving.{
  on_response, get_data_from_response_packet, connection_succeeds, process_command,
  process_data_packet, process_byte, with_parser,
}
use mitsubishi_cn105esphome.Device.OneWrite.{
  One, One-refl, performed-One, performed_none, finish_functions-One,
}

module _ {F : Type 0} where
  -- The same link, and the same events to perform.
  abbrev Same : Component F → Component F → Type 0
  Same s t = (t.events ≡ s.events) × (t.context.link ≡ s.context.link)

  functions_response-Same :
      (code : ℕ) (bytes : List ℕ) (s : Component F) → Same s (functions_response code bytes s)
  unfolding functions_response disable_request
  functions_response-Same code bytes s =
      let rest = drop 1 bytes in
      let d : Device F = s.context in
      let off : Component F = disable_request (disable_request s 0x20) 0x22 in
      let once : Component F = if d.has_hardware_settings then s else disable_request s code in
      let kept : Same s once =
        if_keeps (Same s) d.has_hardware_settings s (disable_request s code) (refl, refl)
          (refl, refl) in
      let stored : Component F = record once {
        context = record d {
          functions =
              if code == 0x20 then set_data1 d.functions rest else set_data2 d.functions rest;
        };
      } in
      let long : Component F = if not (leb 16 (length bytes)) then once else stored in
      let filled : Component F = if all_zeros rest then off else long in
      if_keeps (Same s) (not (get_or bytes 0 0 == code)) s filled (refl, refl)
        (if_keeps (Same s) (all_zeros rest) off long (refl, refl)
          (if_keeps (Same s) (not (leb 16 (length bytes))) once stored kept (kept.0, refl)))

module _ (fl : Float) (turn_off : Bool → Bool) (btu_power btu_energy : fl.F) where
  open fl use {F}

  abbrev Linked : Device F → Device F → Type 0
  Linked d e = e.link ≡ d.link

  status_changed-Linked :
      (status : HeatpumpStatus F) (d : Device F)
      → Linked d (status_changed fl turn_off btu_power btu_energy status d)
  unfolding status_changed
  status_changed-Linked status d = elim (Bool-cases (same_status fl status d.current_status)) [
    | inl h ↦ rw h refl
    | inr h ↦ rw h refl
  ]

  settings-Linked :
      (now : ℕ) (o : Option (DecodedSettings F)) (d : Device F)
      → Linked d (take_settings fl turn_off btu_power btu_energy now o d)
  unfolding take_settings
  settings-Linked now none d = refl
  settings-Linked now (some x) d = refl

  room_temperature-Linked :
      (o : Option (DecodedRoomTemperature F)) (d : Device F)
      → Linked d (take_room_temperature fl turn_off btu_power btu_energy o d)
  unfolding take_room_temperature
  room_temperature-Linked none d = refl
  room_temperature-Linked (some x) d = status_changed-Linked _ d

  status-Linked :
      (o : Option (DecodedStatus F)) (d : Device F)
      → Linked d (take_status fl turn_off btu_power btu_energy o d)
  unfolding take_status
  status-Linked none d = refl
  status-Linked (some x) d = status_changed-Linked _ d

  on_response-Same :
      (now code : ℕ) (s : Component F)
      → Same s (on_response fl turn_off btu_power btu_energy now code s)
  unfolding on_response get_settings_from_response_packet get_room_temperature_from_response_packet
      get_operating_and_compressor_freq_from_response_packet get_power_from_response_packet
  on_response-Same now code s =
      let bytes = payload s.context.link.parser in
      let P : Component F → Type 0 = Same s in
      if_keeps P (code == 0x02) _ _ (refl, settings-Linked now _ s.context)
        (if_keeps P (code == 0x03) _ _ (refl, room_temperature-Linked _ s.context)
          (if_keeps P (code == 0x06) _ _ (refl, status-Linked _ s.context)
            (if_keeps P (code == 0x09) _ _ (refl, refl)
              (if_keeps P (code == 0x20 || code == 0x22) _ _ (functions_response-Same code bytes s)
                (refl, refl)))))

  mark_response_seen-Same :
      (now code : ℕ) (s : Component F)
      → Same s (mark_response_seen (on_response fl turn_off btu_power btu_energy now) s code)
  unfolding mark_response_seen
  mark_response_seen-Same now code s =
      let t : Component F = record s {
        requests = update_first code (λ r. record r { awaiting = false }) s.requests;
      } in
      if_keeps (Same s)
        (handled_by (on_response fl turn_off btu_power btu_energy now) code s.requests)
        (on_response fl turn_off btu_power btu_energy now code t) t (on_response-Same now code t)
        (refl, refl)

  get_data-One :
      (now : ℕ) (s : Component F)
      → s.events ≡ []
      → One s.context (get_data_from_response_packet fl turn_off btu_power btu_energy now s).context
  unfolding get_data_from_response_packet process_response
  get_data-One now s none_yet =
      let code = get_or (payload s.context.link.parser) 0 0 in
      let t : Component F =
        mark_response_seen (on_response fl turn_off btu_power btu_energy now) s code in
      let same = mark_response_seen-Same now code s in
      elim (Bool-cases (with_code code s.requests)) [
        | inl h ↦ rw h (
            subst
              (λ (l : Link).
                Grown l.wire (performed fl now (send_next_after now t code)).context.link)
              same.1
              (performed-One fl now t (send_next_after now t code) (same.0 ∙ none_yet)
                (send_next_after-Single now t code)))
        | inr h ↦ rw h (performed_none fl now s none_yet)
      ]

  process_command-One :
      (now : ℕ) (s : Component F)
      → s.events ≡ []
      → One s.context (process_command fl turn_off btu_power btu_energy now s).context
  unfolding process_command connection_succeeds set_heatpump_connected
  process_command-One now s none_yet =
      let command = s.context.link.parser.command in
      let P : Component F → Type 0 = λ t. One s.context t.context in
      if_keeps P (command == 0x61) _ _ (finish_functions-One now s.context) (
        if_keeps P (command == 0x62) _ _ (get_data-One now s none_yet) (
          if_keeps P (command == 0x7a || command == 0x7b) _ _ (One-refl s.context)
            (One-refl s.context)))

  process_data_packet-One :
      (now : ℕ) (s : Component F)
      → s.events ≡ []
      → One s.context (process_data_packet fl turn_off btu_power btu_energy now s).context
  unfolding process_data_packet
  process_data_packet-One now s none_yet =
      let d : Device F = s.context in
      if_keeps (λ (t : Component F). One s.context t.context) (checksum_valid d.link.parser) _ s
        (process_command-One now
          (record s { context = record d { link = record d.link { last_response_ms = now } } })
          none_yet)
        (One-refl d)

  process_command-done :
      (now : ℕ) (s : Component F)
      → s.events ≡ []
      → (process_command fl turn_off btu_power btu_energy now s).events ≡ []
  unfolding process_command get_data_from_response_packet performed
  process_command-done now s none_yet =
      let command = s.context.link.parser.command in
      let P : Component F → Type 0 = λ t. t.events ≡ [] in
      if_keeps P (command == 0x61) _ _ none_yet (
        if_keeps P (command == 0x62) _ _ refl
          (if_keeps P (command == 0x7a || command == 0x7b) _ _ none_yet none_yet))

  process_data_packet-done :
      (now : ℕ) (s : Component F)
      → s.events ≡ []
      → (process_data_packet fl turn_off btu_power btu_energy now s).events ≡ []
  unfolding process_data_packet
  process_data_packet-done now s none_yet =
      let d : Device F = s.context in
      if_keeps (λ (t : Component F). t.events ≡ []) (checksum_valid d.link.parser) _ s
        (process_command-done now
          (record s { context = record d { link = record d.link { last_response_ms = now } } })
          none_yet)
        none_yet

  -- A byte of the unit, whatever frame it completes, makes the component write at most one packet: the next
  -- request or the remote temperature after a response, part 2 of the functions after an acknowledgement, and
  -- the handshake when one of these finds the connection lost. No callback of the scheduler is left to perform.
  pub process_byte-One :
      (now byte : ℕ) (s : Component F)
      → s.events ≡ []
      → One s.context (process_byte fl turn_off btu_power btu_energy now byte s).context
        × ((process_byte fl turn_off btu_power btu_energy now byte s).events ≡ [])
  unfolding process_byte
  process_byte-One now byte s none_yet =
      let d : Device F = s.context in
      let r =
        receive (record { parser = d.link.parser; last_rx_byte_ms = d.last_rx_byte_ms }) now byte in
      let fed : Component F = with_parser fl turn_off btu_power btu_energy r.parser now s in
      if_keeps (λ (t : Component F). One d t.context × (t.events ≡ [])) r.parser.complete _ fed
        (process_data_packet-One now fed none_yet, process_data_packet-done now fed none_yet)
        (One-refl d, none_yet)
