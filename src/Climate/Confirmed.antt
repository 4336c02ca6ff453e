-- ===== src/Climate/Confirmed.antt =====
-- components/cn105/climate_controls.cpp and hp_readings.cpp: a command of `evaluate_fan_stop_and_ltp` and the
-- readbacks that follow it.
use mitsubishi_cn105esphome.Prelude.{
  ℕ, ◌<◌, ◌≡◌, refl, ap, ◌∙◌, sym, subst, ◌⊎◌, inl, inr, ◌≢◌, Bool, true, false, not, Option, none,
  some, value_or, if◌then◌else◌, arith,
}
use mitsubishi_cn105esphome.Prelude.Int.{pos}
use mitsubishi_cn105esphome.Prelude.Word.{sub32}
use mitsubishi_cn105esphome.Prelude.Float.{Float, IsIeee}
use mitsubishi_cn105esphome.Enums.Kinds.{HpPower, HpMode, mode_enum, power_enum}
use mitsubishi_cn105esphome.Enums.Table.{enum_from_str}
use mitsubishi_cn105esphome.Protocol.{normalize_setpoint, two}
use mitsubishi_cn105esphome.Protocol.Setpoint.{normalize_setpoint_bounds}
use mitsubishi_cn105esphome.Settings.{HeatpumpSettings, reset_wanted}
use mitsubishi_cn105esphome.Reconcile.{
  ReconcileInputs, ReconcileDecision, setpoint_epsilon, resolve_physical_target,
  decide_reconciliation,
}
use mitsubishi_cn105esphome.Climate.{
  ClimateMode, Climate, is_off, climate_mode_to_hp_mode, reconcile_inputs, issue_command,
  set_power_setting, flag_change, evaluate_fan_stop_and_ltp,
}
use mitsubishi_cn105esphome.Climate.Checks.{physical_mode, same_climate_mode, setpoint_changed}
use mitsubishi_cn105esphome.Climate.Readings.{check_power_and_mode_settings}
use mitsubishi_cn105esphome.Climate.Settle.{
  taken_mode, adopted, at_rest, decision, after_command, command_taken,
}
use mitsubishi_cn105esphome.Climate.Lockout.{Undisturbed, check_power_and_mode_settings_confirms}

desired_mode_of :
    (m : ClimateMode)
    → (if not (is_off m) then climate_mode_to_hp_mode m else none) ≡ climate_mode_to_hp_mode m
unfolding climate_mode_to_hp_mode
desired_mode_of ClimateMode.off = refl
desired_mode_of ClimateMode.heat = refl
desired_mode_of ClimateMode.cool = refl
desired_mode_of ClimateMode.dry = refl
desired_mode_of ClimateMode.fan_only = refl
desired_mode_of ClimateMode.other = refl

module _ (fl : Float) (turn_off : Bool → Bool) where
  open fl use {F, of_int, is_nan, le, lt, fabs, sub, div, round, mul}

  -- The mode that a command asks for is the one by which its readback is recognised.
  mode_agrees :
      (m : ClimateMode) (ltp : Bool) (current : HpMode)
      → (ltp ≡ true) ⊎ (is_off m ≡ false)
      → m ≢ ClimateMode.other
      → same_climate_mode
          (physical_mode HpPower.on (
            taken_mode fl
              (value_or
                (if ltp then some HpMode.heat else climate_mode_to_hp_mode m)
                HpMode.unknown)
              current))
          (if ltp then ClimateMode.heat else m)
        ≡ true
  unfolding physical_mode climate_mode_to_hp_mode
  mode_agrees m true current on known = refl
  mode_agrees ClimateMode.off false current on known = ground (arith, on)
  mode_agrees ClimateMode.heat false current on known = refl
  mode_agrees ClimateMode.cool false current on known = refl
  mode_agrees ClimateMode.dry false current on known = refl
  mode_agrees ClimateMode.fan_only false current on known = refl
  mode_agrees ClimateMode.other false current on known = absurd (known refl)

  -- A target that is on asks for the mode that is desired, or for heat.
  target_mode :
      (i : ReconcileInputs F) (ltp : Bool) (o : Option HpMode)
      → i.desired_mode ≡ o
      → (resolve_physical_target fl i ltp).power_on ≡ true
      → ((resolve_physical_target fl i ltp).mode ≡ (if ltp then some HpMode.heat else o))
        × ((ltp ≡ true) ⊎ (i.desired_power_on ≡ true))
  unfolding resolve_physical_target
  target_mode i true o e on = (refl, inl refl)
  target_mode i false none e on = (ground (arith, e, on), inr (ground (arith, e, on)))
  target_mode i false (some m) e on = (ground (arith, e, on), inr (ground (arith, e, on)))

  setpoint_agrees :
      (ieee : IsIeee fl) (t : F)
      → is_nan (div (round (mul t (two fl))) (two fl)) ≡ false
      → normalize_setpoint fl t ≡ t
      → setpoint_changed fl (some (normalize_setpoint fl t)) t ≡ false
  unfolding setpoint_changed
  setpoint_agrees ieee t n e =
      let (least, most) = normalize_setpoint_bounds fl ieee t n in
      let zero_gap : fabs (sub (normalize_setpoint fl t) t) ≡ of_int (pos 0) =
        ap (λ (x : F). fabs (sub x t)) e
        ∙ ieee.sub_self t (pos 16) (pos 31)
            (subst (λ (x : F). le (of_int (pos 16)) x ≡ true) e least)
            (subst (λ (x : F). le x (of_int (pos 31)) ≡ true) e most) in
      ap (le (setpoint_epsilon fl)) zero_gap
      ∙ ground (arith, ieee.div_pos 1 4, ieee.not_lt_of_le (setpoint_epsilon fl) (of_int (pos 0)))

  -- What a readback is compared with, and what is desired, after a command that the unit has taken.
  abbrev Recognised : ℕ → Climate F → Climate F → Type 0
  Recognised now c u =
      (u.first_real_state_received ≡ c.first_real_state_received)
      × (u.last_mode_command_time_ms ≡ now)
      × (u.desired_mode ≡ c.desired_mode)
      × (u.desired_temp ≡ c.desired_temp)
      × (u.fan_stop_switch ≡ c.fan_stop_switch)
      × (same_climate_mode (physical_mode u.current_settings.power u.current_settings.mode)
            u.last_commanded_real_mode
          ≡ true)
      × ((is_off (physical_mode u.current_settings.power u.current_settings.mode) ≡ true)
          ⊎ (setpoint_changed fl u.current_settings.temperature u.last_commanded_real_temp ≡ false))

  obeyed-Recognised :
      (c : Climate F) (now : ℕ) (d : ReconcileDecision F) (on : Bool) (m : Option HpMode) (t : F)
      → c.desired_mode ≢ ClimateMode.other
      → (on ≡ true
          → (m
              ≡ (if d.ltp_active then some HpMode.heat else climate_mode_to_hp_mode c.desired_mode))
            × ((d.ltp_active ≡ true) ⊎ (is_off c.desired_mode ≡ false)))
      → (on ≡ true → setpoint_changed fl (some (normalize_setpoint fl t)) t ≡ false)
      → Recognised now c (
          adopted fl (
            after_command fl now
              (record d { target = record { power_on = on; mode = m; temperature = t } })
              (at_rest fl c)))
  unfolding issue_command set_power_setting flag_change reset_wanted enum_from_str physical_mode
  obeyed-Recognised c now d false m t known goal same_t =
      (refl, refl, refl, refl, refl, refl, inl refl)
  obeyed-Recognised c now d true m t known goal same_t =
      let (mode, on) = goal refl in
      (
        refl,
        refl,
        refl,
        refl,
        refl,
        ap
              (λ (o : Option HpMode).
                same_climate_mode
                  (physical_mode HpPower.on
                    (taken_mode fl (value_or o HpMode.unknown) c.current_settings.mode))
                  (if d.ltp_active then ClimateMode.heat else c.desired_mode))
              mode
            ∙ mode_agrees c.desired_mode d.ltp_active c.current_settings.mode on known,
        inr (same_t refl),
      )

  -- What the unit reports of power, mode and setpoint.
  abbrev pub Reports : HeatpumpSettings F → HeatpumpSettings F → Type 0
  Reports r x = (r.power ≡ x.power) × (r.mode ≡ x.mode) × (r.temperature ≡ x.temperature)

  readback-Undisturbed :
      (c u : Climate F) (now later : ℕ) (r : HeatpumpSettings F) (update : Bool)
      → c.first_real_state_received ≡ true
      → Recognised now c u
      → Reports r u.current_settings ⊎ (sub32 later now < 5000)
      → Undisturbed fl turn_off
          (record c { wanted_settings = u.wanted_settings })
          (check_power_and_mode_settings fl turn_off later r update u)
  readback-Undisturbed c u now later r update first (heard, sent, mode, temp, fan, agrees, near)
        report =
      let (m, t, f, w, shown, target) =
        check_power_and_mode_settings_confirms fl turn_off u later r update (heard ∙ first)
          (elim report [
            | inl (power, is_mode, is_temp) ↦ inr (
              ap
                    (λ (x : HpPower).
                      same_climate_mode (physical_mode x r.mode) u.last_commanded_real_mode)
                    power
                  ∙ ap
                      (λ (x : HpMode).
                        same_climate_mode (physical_mode u.current_settings.power x)
                          u.last_commanded_real_mode)
                      is_mode
                  ∙ agrees,
              elim near [
                | inl off ↦ inl (
                    ap (λ (x : HpPower). is_off (physical_mode x r.mode)) power
                    ∙ ap (λ (x : HpMode). is_off (physical_mode u.current_settings.power x)) is_mode
                    ∙ off)
                | inr close ↦ inr (
                    ap (λ (x : Option F). setpoint_changed fl x u.last_commanded_real_temp) is_temp
                    ∙ close)
              ],
            )
            | inr soon ↦ inl (ground (arith, sent, soon))
          ]) in
      (m ∙ mode, t ∙ temp, f ∙ fan, w, shown ∙ mode, target ∙ temp)

  -- If an evaluation with nothing wanted issues a command after the first report of the unit, while the
  -- desired mode is off or one that the unit has, to a target that is off or whose setpoint is one that the unit takes as it is, and the unit takes the wanted settings,
  -- then every readback of these, at any time, and every other readback within 5 seconds, leaves the user's
  -- mode, setpoint and fan stop as they were before the command, shows the mode and the setpoint, and wants
  -- nothing.
  pub evaluate-Undisturbed :
      (ieee : IsIeee fl) (c : Climate F) (now later : ℕ) (r : HeatpumpSettings F) (update : Bool)
      → c.first_real_state_received ≡ true
      → c.desired_mode ≢ ClimateMode.other
      → (decision fl now (at_rest fl c)).should_command ≡ true
      → ((decision fl now (at_rest fl c)).target.power_on ≡ true
          → let t = (decision fl now (at_rest fl c)).target.temperature in
            (is_nan (div (round (mul t (two fl))) (two fl)) ≡ false)
            × (normalize_setpoint fl t ≡ t))
      → let u = adopted fl (evaluate_fan_stop_and_ltp fl now (at_rest fl c)) in
        Reports r u.current_settings ⊎ (sub32 later now < 5000)
        → Undisturbed fl turn_off
            (record c {
              wanted_settings =
                  reset_wanted (evaluate_fan_stop_and_ltp fl now (at_rest fl c)).wanted_settings;
            })
            (check_power_and_mode_settings fl turn_off later r update u)
  unfolding reconcile_inputs decide_reconciliation
  evaluate-Undisturbed ieee c now later r update first known cmd target report =
      let d = decision fl now (at_rest fl c) in
      let i = reconcile_inputs fl now (at_rest fl c) in
      let taken = ap (adopted fl) (command_taken fl ieee (at_rest fl c) now cmd) in
      readback-Undisturbed c (adopted fl (evaluate_fan_stop_and_ltp fl now (at_rest fl c))) now
        later r update first
        (subst (Recognised now c) (sym taken) (
          obeyed-Recognised c now d d.target.power_on d.target.mode d.target.temperature known
            (λ on. asked (target_mode i d.ltp_active i.desired_mode refl on))
            (λ on. setpoint_agrees ieee d.target.temperature (target on).0 (target on).1)))
        report
    where
      asked :
          {o : Option HpMode} {ltp : Bool}
          → (o ≡ (
              if ltp
              then some HpMode.heat
              else (if not (is_off c.desired_mode)
                  then climate_mode_to_hp_mode c.desired_mode
                  else none)))
            × ((ltp ≡ true) ⊎ (not (is_off c.desired_mode) ≡ true))
          → (o ≡ (if ltp then some HpMode.heat else climate_mode_to_hp_mode c.desired_mode))
            × ((ltp ≡ true) ⊎ (is_off c.desired_mode ≡ false))
      asked {ltp = ltp} (mode, on) = (
        mode
            ∙ ap (λ (x : Option HpMode). if ltp then some HpMode.heat else x)
                (desired_mode_of c.desired_mode),
        elim on [ inl forced ↦ inl forced | inr is_on ↦ inr (ground (arith, is_on)) ],
      )
