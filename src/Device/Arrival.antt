-- ===== src/Device/Arrival.antt =====
-- components/cn105/hp_readings.cpp, `process_input`: the bytes of a settings response, as they arrive, become
-- what the component holds of the unit.
use mitsubishi_cn105esphome.Prelude.{
  ℕ, ◌<◌, ◌≡◌, refl, ap, sym, ◌∙◌, subst, arith, Bool, true, false, ◌||◌, some, List, [], ◌∷◌, ◌++◌,
  if◌then◌else◌, if_yes, if_no, inl, inr, ◌==◌, get_or,
}
use mitsubishi_cn105esphome.Prelude.Float.{Float}
use mitsubishi_cn105esphome.Enums.Kinds.{HpPower, HpMode, HpFanMode, HpVaneMode, HpWideVaneMode}
use mitsubishi_cn105esphome.Enums.Wrappers.{
  hp_power_to_wire, hp_mode_to_wire, hp_fan_to_wire, hp_vane_to_wire, hp_wide_vane_to_wire,
}
use mitsubishi_cn105esphome.Settings.{HeatpumpSettings}
use mitsubishi_cn105esphome.Protocol.{checksum}
use mitsubishi_cn105esphome.Parser.{FrameParser, feed, feed_all, reset}
use mitsubishi_cn105esphome.Parser.Frame.{
  IsIdle, Parsed, body, feed_all-append, body-Assembling, feed_all-frame,
}
use mitsubishi_cn105esphome.Parser.Resync.{Paced, bytes_of}
use mitsubishi_cn105esphome.Decoder.RoundTrip.{UnitBytes, settings_response}
use mitsubishi_cn105esphome.Requests.{with_code, handled_by}
use mitsubishi_cn105esphome.Climate.Taking.{Taken}
use mitsubishi_cn105esphome.Device.{Component}
use mitsubishi_cn105esphome.Device.Reading.{get_settings_from_response_packet}
use mitsubishi_cn105esphome.Device.Receiving.{
  on_response, get_data_from_response_packet, process_command, process_data_packet, process_byte,
  with_parser,
}
use mitsubishi_cn105esphome.Device.Main.{process_input}
use mitsubishi_cn105esphome.Device.Report.{
  Held, unit_settings, get_data-settings, get_settings-Taken, Taken-held,
}
use mitsubishi_cn105esphome.Parser.Arrivals.{
  last_arrival, Paced-last, open_before, Ready, receive_within,
}

module _ (fl : Float) (turn_off : Bool → Bool) (debug : Bool) (btu_power btu_energy : fl.F) where
  open fl use {F}

  -- A byte within the gap that completes no frame is fed to the parser, and that is all.
  byte_within :
      (now b : ℕ) (s : Component F)
      → Ready s.context.link.parser s.context.last_rx_byte_ms now
      → (feed s.context.link.parser b).complete ≡ false
      → process_byte fl turn_off btu_power btu_energy now b s
        ≡ with_parser fl turn_off btu_power btu_energy (feed s.context.link.parser b) now s
  unfolding process_byte
  byte_within now b s gap o =
      let e = receive_within s.context.link.parser s.context.last_rx_byte_ms now b gap in
      if_no _ _ _ (ap (λ (q : FrameParser). q.complete) e ∙ o)
      ∙ ap (λ (q : FrameParser). with_parser fl turn_off btu_power btu_energy q now s) e

  bytes_within :
      (bs : List (ℕ × ℕ)) (s : Component F)
      → Paced s.context.last_rx_byte_ms bs
      → (feed_all s.context.link.parser (bytes_of bs)).complete ≡ false
      → process_input fl turn_off debug btu_power btu_energy bs s
        ≡ with_parser fl turn_off btu_power btu_energy
            (feed_all s.context.link.parser (bytes_of bs))
            (last_arrival s.context.last_rx_byte_ms bs)
            s
  unfolding process_input feed_all
  bytes_within [] s h o = refl
  bytes_within ((now, b) ∷ bs) s h o =
      let q = feed s.context.link.parser b in
      ap (process_input fl turn_off debug btu_power btu_energy bs)
        (byte_within now b s (inr h.0) (open_before q (bytes_of bs) o))
      ∙ bytes_within bs (with_parser fl turn_off btu_power btu_energy q now s) h.1 o

  process_command-response :
      (now : ℕ) (s : Component F)
      → s.context.link.parser.command ≡ 0x62
      → process_command fl turn_off btu_power btu_energy now s
        ≡ get_data_from_response_packet fl turn_off btu_power btu_energy now s
  unfolding process_command
  process_command-response now s h =
      if_no _ _ _ (ap (λ (c : ℕ). c == 0x61) h) ∙ if_yes _ _ _ (ap (λ (c : ℕ). c == 0x62) h)

  -- The component that the handlers see when a frame is complete.
  abbrev answered : FrameParser → ℕ → Component F → Component F
  answered q now s = record s {
    context = record s.context {
      link = record s.context.link { parser = q; last_response_ms = now };
      last_rx_byte_ms = now;
    };
  }

  -- The last byte: what the component holds is what the payload says.
  last_settings_byte :
      (now b : ℕ) (s : Component F) (xs : List ℕ)
      → Ready s.context.link.parser s.context.last_rx_byte_ms now
      → Parsed (feed s.context.link.parser b) 0x62 xs
      → get_or xs 0 0 ≡ 0x02
      → with_code 0x02 s.requests ≡ true
      → handled_by (on_response fl turn_off btu_power btu_energy now) 0x02 s.requests ≡ true
      → Held
          (get_settings_from_response_packet fl turn_off btu_power btu_energy now xs
            (answered (feed s.context.link.parser b) now s).context)
          (process_byte fl turn_off btu_power btu_energy now b s).context
  unfolding process_byte process_data_packet
  last_settings_byte now b s xs gap parsed code known handled =
      let q = feed s.context.link.parser b in
      let e = receive_within s.context.link.parser s.context.last_rx_byte_ms now b gap in
      let done : Component F = answered q now s in
      ap after e
      ∙ ap (λ (t : Component F). t.context.climate.current_settings) (if_yes _ _ _ parsed.done)
      ∙ ap (λ (t : Component F). t.context.climate.current_settings)
          (if_yes _ _ _ parsed.valid ∙ process_command-response now done parsed.read_command)
      ∙ get_data-settings fl turn_off btu_power btu_energy now done
          (ap (λ (bytes : List ℕ). get_or bytes 0 0) parsed.read_payload ∙ code) known handled
      ∙ ap
          (λ (bytes : List ℕ).
            (get_settings_from_response_packet fl turn_off btu_power btu_energy now bytes
              done.context).climate.current_settings)
          parsed.read_payload
    where
      after : FrameParser → HeatpumpSettings F
      after q =
          let fed = with_parser fl turn_off btu_power btu_energy q now s in
          let done = process_data_packet fl turn_off btu_power btu_energy now fed in
          (if q.complete
            then with_parser fl turn_off btu_power btu_energy (reset done.context.link.parser) now
                done
            else fed).context.climate.current_settings

  process_input-append :
      (xs ys : List (ℕ × ℕ)) (s : Component F)
      → process_input fl turn_off debug btu_power btu_energy (xs ++ ys) s
        ≡ process_input fl turn_off debug btu_power btu_energy ys
            (process_input fl turn_off debug btu_power btu_energy xs s)
  unfolding process_input
  process_input-append [] ys s = refl
  process_input-append ((now, b) ∷ xs) ys s =
      process_input-append xs ys (process_byte fl turn_off btu_power btu_energy now b s)

  -- A settings response arrives at a parser that waits: its start byte at any time, its other bytes each
  -- within 500 ms of the one before. If its bytes encode a power, a mode, a fan speed, a vane and a wide vane,
  -- with a wide-vane byte and a setpoint byte other than 0, the unit has a horizontal vane and the request
  -- for the settings is registered, then the component holds them and the i-See flag, AUTO as FAN, except
  -- that a fan speed or vane of which another is wanted keeps its last reading, and a wanted power or mode
  -- keeps both of these.
  pub settings_frame-Taken :
      (t0 t b2 b3 : ℕ) (bs : List (ℕ × ℕ)) (s : Component F) (u : UnitBytes) (p : HpPower)
      (m : HpMode) (f : HpFanMode) (v : HpVaneMode) (w : HpWideVaneMode)
      → IsIdle s.context.link.parser
      → 0xFC ∷ bytes_of bs ≡ body 0x62 b2 b3 (settings_response u)
      → Paced t0 (bs ++ (t, checksum (body 0x62 b2 b3 (settings_response u)) 20) ∷ [])
      → hp_power_to_wire p ≡ some u.power
      → hp_mode_to_wire m ≡ some u.mode
      → hp_fan_to_wire f ≡ some u.fan
      → hp_vane_to_wire v ≡ some u.vane
      → hp_wide_vane_to_wire w ≡ some u.wide_vane
      → 0 < u.wide_vane
      → 0 < u.setpoint
      → s.context.climate.supports_horizontal || s.context.has_horizontal_vane_select ≡ true
      → with_code 0x02 s.requests ≡ true
      → handled_by (on_response fl turn_off btu_power btu_energy t) 0x02 s.requests ≡ true
      → let arrivals =
          (t0, 0xFC) ∷ bs ++ (t, checksum (body 0x62 b2 b3 (settings_response u)) 20) ∷ [] in
        Taken
          (unit_settings fl turn_off btu_power btu_energy p m f v w u.i_see)
          s.context.climate
          (process_input fl turn_off debug btu_power btu_energy arrivals s).context.climate
  unfolding process_input feed_all settings_response
  settings_frame-Taken t0 t b2 b3 bs s u p m f v w idle is_body paced hp hm hf hv hw pw ps wide
        known handled =
      let xs = settings_response u in
      let sum = checksum (body 0x62 b2 b3 xs) 20 in
      let waiting = s.context.link.parser in
      let first = feed waiting 0xFC in
      let q = feed_all first (bytes_of bs) in
      let (near, most) = Paced-last t0 bs t sum paced in
      let open_frame : q.complete ≡ false =
        ap (λ (ys : List ℕ). (feed_all waiting ys).complete) is_body
        ∙ (body-Assembling waiting 0x62 b2 b3 xs idle (omega arith)).open_frame in
      let mid : Component F =
        with_parser fl turn_off btu_power btu_energy q (last_arrival t0 bs) s in
      let arrived : process_input fl turn_off debug btu_power btu_energy ((t0, 0xFC) ∷ bs) s ≡ mid =
        ap (process_input fl turn_off debug btu_power btu_energy bs) (
          byte_within t0 0xFC s (inl (ground (arith, idle.no_start)))
            (open_before first (bytes_of bs) open_frame))
        ∙ bytes_within bs (with_parser fl turn_off btu_power btu_energy first t0 s) near
            open_frame in
      let parsed : Parsed (feed q sum) 0x62 xs =
        subst (λ r. Parsed r 0x62 xs)
          (feed_all-append waiting (body 0x62 b2 b3 xs) (sum ∷ [])
            ∙ ap (λ (ys : List ℕ). feed (feed_all waiting ys) sum) (sym is_body))
          (feed_all-frame waiting [] 0x62 b2 b3 xs idle tt (omega arith)) in
      Taken-held fl turn_off btu_power btu_energy _ s.context.climate _ _
        (ap (λ (r : Component F). r.context.climate.current_settings)
            (process_input-append ((t0, 0xFC) ∷ bs) ((t, sum) ∷ []) s
              ∙ ap (process_byte fl turn_off btu_power btu_energy t sum) arrived)
          ∙ last_settings_byte t sum mid xs (inr most) parsed refl known handled)
        (get_settings-Taken fl turn_off btu_power btu_energy t (answered (feed q sum) t mid).context
          u p m f v w hp hm hf hv hw pw ps wide)
