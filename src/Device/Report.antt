-- ===== src/Device/Report.antt =====
-- components/cn105/hp_readings.cpp: a settings response of the unit, byte by byte, becomes what the component
-- holds of the unit.
use mitsubishi_cn105esphome.Prelude.{
  ℕ, ◌-◌, ◌<◌, ◌≡◌, refl, ap, sym, ◌∙◌, subst, Bool, true, ◌&&◌, ◌||◌, Option, some, List, [], ◌∷◌,
  if◌then◌else◌, if_keeps, has_value, ◌==◌, get_or,
}
use mitsubishi_cn105esphome.Prelude.Float.{Float}
use mitsubishi_cn105esphome.Enums.Kinds.{
  HpPower, HpMode, HpFanMode, HpVaneMode, HpWideVaneMode, same, power_enum, mode_enum, fan_enum,
  vane_enum, wide_vane_enum,
}
use mitsubishi_cn105esphome.Enums.Wrappers.{
  hp_power_to_wire, hp_mode_to_wire, hp_fan_to_wire, hp_vane_to_wire, hp_wide_vane_to_wire,
}
use mitsubishi_cn105esphome.Settings.{HeatpumpSettings, no_settings}
use mitsubishi_cn105esphome.Parser.{payload}
use mitsubishi_cn105esphome.Decoder.{DecodedSettings, resolve_or_keep}
use mitsubishi_cn105esphome.Decoder.RoundTrip.{
  UnitBytes, settings_response, decode_settings-response,
}
use mitsubishi_cn105esphome.Link.{Link, write_packet}
use mitsubishi_cn105esphome.Packet.{create_info_packet}
use mitsubishi_cn105esphome.Requests.{
  Event, with_code, handled_by, mark_response_seen, process_response, send_next_after,
}
use mitsubishi_cn105esphome.Requests.Single.{send_next_after-Single}
use mitsubishi_cn105esphome.Climate.{Climate}
use mitsubishi_cn105esphome.Climate.Taking.{mode_free, Taken}
use mitsubishi_cn105esphome.Climate.Reported.{heatpump_update-Taken}
use mitsubishi_cn105esphome.Device.{Device, Component, with_link, write_checked, after_disconnects}
use mitsubishi_cn105esphome.Device.Sending.{
  perform, performed, terminate_cycle, tell_remote_temperature, build_and_send_info_packet,
}
use mitsubishi_cn105esphome.Device.Reading.{
  received_settings, take_settings, get_settings_from_response_packet,
}
use mitsubishi_cn105esphome.Device.Receiving.{on_response, get_data_from_response_packet}

module _ {F : Type 0} where
  -- The same settings of the unit are held.
  abbrev pub Held : Device F → Device F → Type 0
  Held d e = e.climate.current_settings ≡ d.climate.current_settings

  with_link-Held : (l : Link) (d : Device F) → Held d (with_link l d)
  unfolding with_link after_disconnects
  with_link-Held l d =
      if_keeps (λ (c : Climate F). c.current_settings ≡ d.climate.current_settings)
        (l.disconnects - d.link.disconnects == 0) _ _ refl refl

module _ (fl : Float) where
  open fl use {F}

  terminate_cycle-Held : (now : ℕ) (d : Device F) → Held d (terminate_cycle fl now d)
  unfolding terminate_cycle tell_remote_temperature
  terminate_cycle-Held now d =
      if_keeps (Held d) d.remote.should_send_external_temperature _ d (with_link-Held _ d) refl

  perform-Held : (now : ℕ) (es : List Event) (d : Device F) → Held d (perform fl now es d)
  unfolding perform build_and_send_info_packet write_checked
  perform-Held now [] d = refl
  perform-Held now (Event.send code ∷ es) d =
      with_link-Held (write_packet now (create_info_packet code) true (perform fl now es d).link).0
        (perform fl now es d)
      ∙ perform-Held now es d
  perform-Held now (Event.terminate ∷ es) d = terminate_cycle-Held now _ ∙ perform-Held now es d

module _ (fl : Float) (turn_off : Bool → Bool) (btu_power btu_energy : fl.F) where
  open fl use {F}

  mark_response_seen-settings :
      (now : ℕ) (s : Component F)
      → handled_by (on_response fl turn_off btu_power btu_energy now) 0x02 s.requests ≡ true
      → (mark_response_seen (on_response fl turn_off btu_power btu_energy now) s 0x02).context
        ≡ get_settings_from_response_packet fl turn_off btu_power btu_energy now
            (payload s.context.link.parser)
            s.context
  unfolding mark_response_seen on_response
  mark_response_seen-settings now s handled = rw handled refl

  -- What follows the handler of a settings response leaves the settings alone.
  pub get_data-settings :
      (now : ℕ) (s : Component F)
      → get_or (payload s.context.link.parser) 0 0 ≡ 0x02
      → with_code 0x02 s.requests ≡ true
      → handled_by (on_response fl turn_off btu_power btu_energy now) 0x02 s.requests ≡ true
      → Held
          (get_settings_from_response_packet fl turn_off btu_power btu_energy now
            (payload s.context.link.parser)
            s.context)
          (get_data_from_response_packet fl turn_off btu_power btu_energy now s).context
  unfolding get_data_from_response_packet process_response performed
  get_data-settings now s code known handled =
      let handler = on_response fl turn_off btu_power btu_energy now in
      let t : Component F = mark_response_seen handler s 0x02 in
      let (e, one, kept) = send_next_after-Single now t 0x02 in
      ap
        (λ (k : ℕ).
          (performed fl now (process_response handler now s k).0).context.climate.current_settings)
        code
      ∙ rw known (
          perform-Held fl now (send_next_after now t 0x02).events
            (send_next_after now t 0x02).context
          ∙ ap (λ (d : Device F). d.climate.current_settings)
              (kept ∙ mark_response_seen-settings now s handled))

  -- The settings that the unit encodes. AUTO is reported as FAN.
  abbrev pub unit_settings :
      HpPower → HpMode → HpFanMode → HpVaneMode → HpWideVaneMode → Bool → HeatpumpSettings F
  unit_settings p m f v w i_see = record no_settings {
    power = p;
    mode = if same m HpMode.auto then HpMode.fan else m;
    fan = f;
    vane = v;
    wide_vane = w;
    i_see = i_see;
  }

  Taken-cong :
      (x y : HeatpumpSettings F) (c c' : Climate F)
      → x.power ≡ y.power
      → x.mode ≡ y.mode
      → x.fan ≡ y.fan
      → x.vane ≡ y.vane
      → x.wide_vane ≡ y.wide_vane
      → x.i_see ≡ y.i_see
      → Taken x c c'
      → Taken y c c'
  Taken-cong x y c c' p m f v w i t = record {
    power = t.power ∙ ap (λ (e : HpPower). if mode_free c then e else c.current_settings.power) p;
    mode = t.mode ∙ ap (λ (e : HpMode). if mode_free c then e else c.current_settings.mode) m;
    fan =
        t.fan
        ∙ ap
            (λ (e : HpFanMode).
              if same c.wanted_settings.fan HpFanMode.unknown then e else c.current_settings.fan)
            f;
    vane =
        t.vane
        ∙ ap
            (λ (e : HpVaneMode).
              if same c.wanted_settings.vane HpVaneMode.unknown then e else c.current_settings.vane)
            v;
    wide_vane =
        t.wide_vane
        ∙ ap
            (λ (e : HpWideVaneMode).
              if same c.wanted_settings.wide_vane HpWideVaneMode.unknown
              then e
              else c.current_settings.wide_vane)
            w;
    i_see = t.i_see ∙ i;
  }

  -- Only the current settings of the second state matter.
  pub Taken-held :
      (x : HeatpumpSettings F) (c c' c'' : Climate F)
      → c''.current_settings ≡ c'.current_settings
      → Taken x c c'
      → Taken x c c''
  Taken-held x c c' c'' e t = record {
    power = ap (λ (s : HeatpumpSettings F). s.power) e ∙ t.power;
    mode = ap (λ (s : HeatpumpSettings F). s.mode) e ∙ t.mode;
    fan = ap (λ (s : HeatpumpSettings F). s.fan) e ∙ t.fan;
    vane = ap (λ (s : HeatpumpSettings F). s.vane) e ∙ t.vane;
    wide_vane = ap (λ (s : HeatpumpSettings F). s.wide_vane) e ∙ t.wide_vane;
    i_see = ap (λ (s : HeatpumpSettings F). s.i_see) e ∙ t.i_see;
  }

  -- The payload of a settings response on a unit with a horizontal vane.
  pub get_settings-Taken :
      (now : ℕ) (d : Device F) (u : UnitBytes) (p : HpPower) (m : HpMode) (f : HpFanMode)
      (v : HpVaneMode) (w : HpWideVaneMode)
      → hp_power_to_wire p ≡ some u.power
      → hp_mode_to_wire m ≡ some u.mode
      → hp_fan_to_wire f ≡ some u.fan
      → hp_vane_to_wire v ≡ some u.vane
      → hp_wide_vane_to_wire w ≡ some u.wide_vane
      → 0 < u.wide_vane
      → 0 < u.setpoint
      → d.climate.supports_horizontal || d.has_horizontal_vane_select ≡ true
      → Taken
          (unit_settings p m f v w u.i_see)
          d.climate
          (get_settings_from_response_packet fl turn_off btu_power btu_energy now
            (settings_response u)
            d).climate
  unfolding get_settings_from_response_packet take_settings received_settings settings_response
      resolve_or_keep
  get_settings-Taken now d u p m f v w hp hm hf hv hw pw ps wide =
      let (dec, e, hp', hm', hi, hf', hv', hw', ha, ht, present) =
        decode_settings-response fl u p m f v w hp hm hf hv hw pw ps in
      let now_held = d.climate.current_settings in
      subst
        (λ (o : Option (DecodedSettings F)).
          Taken (unit_settings p m f v w u.i_see) d.climate
            (take_settings fl turn_off btu_power btu_energy now o d).climate)
        (sym e)
        (Taken-cong _ _ d.climate _
          (ap (λ (o : Option HpPower). resolve_or_keep o now_held.power HpPower.off) hp')
          (ap
            (λ (o : Option HpMode).
              let mode = resolve_or_keep o now_held.mode HpMode.fan in
              if has_value o && same mode HpMode.auto then HpMode.fan else mode)
            hm')
          (ap (λ (o : Option HpFanMode). resolve_or_keep o now_held.fan HpFanMode.auto) hf')
          (ap (λ (o : Option HpVaneMode). resolve_or_keep o now_held.vane HpVaneMode.auto) hv')
          (rw (present, wide)
            (ap
              (λ (o : Option HpWideVaneMode).
                resolve_or_keep o now_held.wide_vane HpWideVaneMode.center)
              hw'))
          hi
          (heatpump_update-Taken fl turn_off now d.last_wanted_settings_send_ms
            (received_settings fl turn_off btu_power btu_energy dec
              (d.climate.supports_horizontal || d.has_horizontal_vane_select) now_held)
            d.climate))
