-- ===== src/Climate/Kept.antt =====
-- components/cn105/hp_readings.cpp and climate_controls.cpp: what leaves the settings that are held of the unit,
-- and the fan speed and the vanes that are wanted, alone.
use mitsubishi_cn105esphome.Prelude.{
  ℕ, ◌≡◌, refl, ◌∙◌, arith, Bool, true, false, not, ◌&&◌, ◌||◌, Option, none, some, if◌then◌else◌,
  if_keeps, value_or, ltb,
}
use mitsubishi_cn105esphome.Prelude.Word.{sub32}
use mitsubishi_cn105esphome.Prelude.Float.{Float}
use mitsubishi_cn105esphome.Enums.Kinds.{power_enum, mode_enum, fan_enum, vane_enum, wide_vane_enum}
use mitsubishi_cn105esphome.Settings.{HeatpumpSettings}
use mitsubishi_cn105esphome.Reconcile.{ReconcileDecision, decide_reconciliation}
use mitsubishi_cn105esphome.Climate.{
  ClimateMode, Climate, is_off, update_action, evaluate_fan_stop_and_ltp, issue_command,
  set_action_if_operating_to, set_power_setting, flag_change, reconcile_inputs,
}
use mitsubishi_cn105esphome.Climate.Checks.{
  physical_mode, same_climate_mode, adopt_temperature, show_desired, publish, setpoint_changed,
}
use mitsubishi_cn105esphome.Climate.Readings.{
  adopt_first, follow_mode, follow_temperature, check_power_and_mode_settings,
}

module _ {F : Type 0} where
  -- The same current settings, and the same wish for the fan and the vanes.
  pub record Kept (c c' : Climate F) : Type 0 where
    pub current : c'.current_settings ≡ c.current_settings
    pub fan : c'.wanted_settings.fan ≡ c.wanted_settings.fan
    pub vane : c'.wanted_settings.vane ≡ c.wanted_settings.vane
    pub wide_vane : c'.wanted_settings.wide_vane ≡ c.wanted_settings.wide_vane

  Kept-refl : (c : Climate F) → Kept c c
  Kept-refl c = record { current = refl; fan = refl; vane = refl; wide_vane = refl }

  pub Kept-trans : (a b c : Climate F) → Kept a b → Kept b c → Kept a c
  Kept-trans a b c h k = record {
    current = k.current ∙ h.current;
    fan = k.fan ∙ h.fan;
    vane = k.vane ∙ h.vane;
    wide_vane = k.wide_vane ∙ h.wide_vane;
  }

  pub update_action-Kept : (c : Climate F) → Kept c (update_action c)
  unfolding update_action set_action_if_operating_to
  update_action-Kept c = ground arith

module _ (fl : Float) where
  open fl use {F}

  issue_command-Kept :
      (now : ℕ) (d : ReconcileDecision F) (c : Climate F) → Kept c (issue_command fl now d c)
  unfolding issue_command set_power_setting flag_change
  issue_command-Kept now d c = ground arith

  evaluate-Kept : (now : ℕ) (c : Climate F) → Kept c (evaluate_fan_stop_and_ltp fl now c)
  unfolding evaluate_fan_stop_and_ltp
  evaluate-Kept now c =
      let d = decide_reconciliation fl (reconcile_inputs fl now c) in
      let latched : Climate F = record c { ltp_active = d.ltp_active } in
      let issued : Climate F = issue_command fl now d latched in
      let obeyed : Climate F = if d.should_command then issued else latched in
      let k : Kept latched obeyed =
        if_keeps (Kept latched) d.should_command issued latched (issue_command-Kept now d latched)
          (Kept-refl latched) in
      let h =
        if_keeps (Kept latched) ((d.mode_mismatch || d.temp_mismatch) && d.suppressed_repeat)
          latched obeyed (Kept-refl latched) k in
      record { current = h.current; fan = h.fan; vane = h.vane; wide_vane = h.wide_vane }

  adopt-Kept : (o : Option F) (c : Climate F) → Kept c (adopt_temperature o c)
  adopt-Kept none c = Kept-refl c
  adopt-Kept (some t) c = record { current = refl; fan = refl; vane = refl; wide_vane = refl }

  module _ (turn_off : Bool → Bool) where
    adopt_first-Kept :
        (now : ℕ) (x : HeatpumpSettings F) (m : ClimateMode) (c : Climate F)
        → Kept c (adopt_first fl turn_off now x m c)
    unfolding adopt_first
    adopt_first-Kept now x m c =
        let first : Climate F = record c {
          first_real_state_received = true;
          desired_mode = m;
          mode = m;
        } in
        let adopted = adopt-Kept x.temperature first in
        let chosen =
          if_keeps (Kept c)
            (value_or c.fan_stop_switch false
              && (same_climate_mode c.desired_mode ClimateMode.heat
                  || same_climate_mode c.desired_mode ClimateMode.cool)
              && same_climate_mode m ClimateMode.off)
            _ _ (record { current = refl; fan = refl; vane = refl; wide_vane = refl })
            (record {
              current = adopted.current;
              fan = adopted.fan;
              vane = adopted.vane;
              wide_vane = adopted.wide_vane;
            }) in
        Kept-trans c _ _ chosen (evaluate-Kept now _)

    follow_mode-Kept :
        (x : HeatpumpSettings F) (m : ClimateMode) (c : Climate F)
        → Kept c (follow_mode fl turn_off x m c)
    unfolding follow_mode
    follow_mode-Kept x m c =
        let h = adopt-Kept x.temperature (record c {
          fan_stop_switch = elim c.fan_stop_switch [
            | none ↦ none
            | some on ↦ some (if on then turn_off on else on)
          ];
          desired_mode = m;
          mode = m;
        }) in
        record { current = h.current; fan = h.fan; vane = h.vane; wide_vane = h.wide_vane }

    follow_temperature-Kept :
        (now : ℕ) (o : Option F) (c : Climate F) → Kept c (follow_temperature fl turn_off now o c)
    unfolding follow_temperature
    follow_temperature-Kept now none c = Kept-refl c
    follow_temperature-Kept now (some t) c =
        let h =
          evaluate-Kept now
            (publish (record (adopt_temperature (some t) c) { last_commanded_real_temp = t })) in
        record { current = h.current; fan = h.fan; vane = h.vane; wide_vane = h.wide_vane }

    -- The power and the mode are taken, whatever branch is taken.
    pub check_power_and_mode-Kept :
        (now : ℕ) (x : HeatpumpSettings F) (c : Climate F)
        → Kept
            (record c {
              current_settings = record c.current_settings { power = x.power; mode = x.mode };
            })
            (check_power_and_mode_settings fl turn_off now x true c)
    unfolding check_power_and_mode_settings
    check_power_and_mode-Kept now x c =
        let m = physical_mode x.power x.mode in
        let u : Climate F = record c {
          current_settings = record c.current_settings { power = x.power; mode = x.mode };
        } in
        let shown : Kept u (show_desired u) = record {
          current = refl;
          fan = refl;
          vane = refl;
          wide_vane = refl;
        } in
        if_keeps (Kept u) (not c.first_real_state_received) _ _ (adopt_first-Kept now x m u) (
          if_keeps (Kept u) (ltb (sub32 now c.last_mode_command_time_ms) 5000) _ _ shown (
            if_keeps (Kept u) (not (same_climate_mode m c.last_commanded_real_mode)) _ _
              (follow_mode-Kept x m u)
              (if_keeps (Kept u)
                (not (is_off m) && setpoint_changed fl x.temperature c.last_commanded_real_temp) _ _
                (follow_temperature-Kept now x.temperature u) shown)))
