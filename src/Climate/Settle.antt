-- ===== src/Climate/Settle.antt =====
-- components/cn105/climate_controls.cpp, `evaluate_fan_stop_and_ltp`: a command that the unit obeys is
-- not followed by another one.
use mitsubishi_cn105esphome.Prelude.{
  ℕ, ◌≡◌, refl, sym, ap, ◌∙◌, subst, Bool, true, false, not, ◌&&◌, Option, none, some,
  if◌then◌else◌, has_value, arith,
}
use mitsubishi_cn105esphome.Prelude.Float.{Float, IsIeee}
use mitsubishi_cn105esphome.Enums.Kinds.{HpPower, HpMode, same, power_enum, mode_enum}
use mitsubishi_cn105esphome.Enums.Table.{enum_from_str}
use mitsubishi_cn105esphome.Protocol.{two}
use mitsubishi_cn105esphome.Settings.{reset_wanted}
use mitsubishi_cn105esphome.Reconcile.{
  PhysicalTarget, ReconcileInputs, ReconcileDecision, decide_reconciliation, find_mode_mismatch,
  find_temp_mismatch, resolve_physical_target, protection_state_to_str,
}
use mitsubishi_cn105esphome.Reconcile.Converge.{
  after_obeying, obeyed, decide_reconciliation_converges,
}
use mitsubishi_cn105esphome.Reconcile.Repeat.{ignores_command}
use mitsubishi_cn105esphome.Climate.{
  Climate, reconcile_inputs, issue_command, set_power_setting, flag_change,
  evaluate_fan_stop_and_ltp, climate_mode_to_hp_mode,
}

module _ (fl : Float) where
  open fl use {F, is_nan, le, add, mul, div, round}

  -- Power, mode and setpoint that the unit reports once it has taken the wanted ones.
  abbrev pub taken_power : HpPower → HpPower → HpPower
  taken_power wanted current = if same wanted HpPower.unknown then current else wanted

  abbrev pub taken_mode : HpMode → HpMode → HpMode
  taken_mode wanted current = if same wanted HpMode.unknown then current else wanted

  abbrev pub taken_temperature : Option F → Option F → Option F
  taken_temperature none current = current
  taken_temperature (some t) current = some t

  -- The wanted settings were sent and reset, and the unit has reported them.
  abbrev pub adopted : Climate F → Climate F
  adopted c = record c {
    current_settings = record c.current_settings {
      power = taken_power c.wanted_settings.power c.current_settings.power;
      mode = taken_mode c.wanted_settings.mode c.current_settings.mode;
      temperature = taken_temperature c.wanted_settings.temperature c.current_settings.temperature;
    };
    wanted_settings = reset_wanted c.wanted_settings;
  }

  -- Nothing is wanted.
  abbrev pub at_rest : Climate F → Climate F
  at_rest c = record c { wanted_settings = reset_wanted c.wanted_settings }

  -- What the evaluation decides.
  abbrev pub decision : ℕ → Climate F → ReconcileDecision F
  decision now c = decide_reconciliation fl (reconcile_inputs fl now c)

  -- A later evaluation, with a command that was issued in between.
  abbrev at_time : ReconcileInputs F → PhysicalTarget F → ℕ → ℕ → ReconcileInputs F
  at_time i t now later = record i {
    now_ms = later;
    has_issued_command = true;
    last_issued = t;
    last_issued_ms = now;
  }

  -- What `evaluate_fan_stop_and_ltp` leaves when it issues a command.
  abbrev pub after_command : ℕ → ReconcileDecision F → Climate F → Climate F
  after_command now d c = record (issue_command fl now d (record c { ltp_active = d.ltp_active })) {
    diagnostic_sensor =
        if has_value c.diagnostic_sensor then some (protection_state_to_str d.protection) else none;
  }

  command_issued :
      {A : Type 0} (mismatch suppressed : Bool) (x y z : A)
      → (mismatch && not suppressed) ≡ true
      → (if mismatch && suppressed then x else if mismatch && not suppressed then y else z) ≡ y
  command_issued mismatch suppressed x y z h = ground arith

  obeying_inputs :
      (c : Climate F) (now later : ℕ) (d : ReconcileDecision F) (on : Bool) (m : Option HpMode)
      (t : F)
      → ((k : HpMode) → m ≡ some k → same k HpMode.unknown ≡ false)
      → let e = record d { target = record { power_on = on; mode = m; temperature = t } } in
        reconcile_inputs fl later (adopted (after_command now e (at_rest c)))
        ≡ at_time
            (obeyed fl
              (record (reconcile_inputs fl now (at_rest c)) { ltp_active = d.ltp_active })
              e.target)
            e.target
            now
            later
  unfolding reconcile_inputs issue_command set_power_setting flag_change reset_wanted enum_from_str
  obeying_inputs c now later d true none t known = refl
  obeying_inputs c now later d true (some m) t known =
      ap
        (λ b.
          record (at_time
            (obeyed fl (record (reconcile_inputs fl now (at_rest c)) { ltp_active = d.ltp_active })
              (record { power_on = true; mode = some m; temperature = t }))
            (record { power_on = true; mode = some m; temperature = t }) now later) {
              current_mode = if b then c.current_settings.mode else m;
            })
        (known m refl)
  obeying_inputs c now later d false m t known = refl

  -- The target's mode is one of the unit's.
  target_mode_known :
      (i : ReconcileInputs F) (ltp : Bool) (o : Option HpMode)
      → i.desired_mode ≡ o
      → ((k : HpMode) → o ≡ some k → same k HpMode.unknown ≡ false)
      → (k : HpMode) → (resolve_physical_target fl i ltp).mode ≡ some k
      → same k HpMode.unknown ≡ false
  unfolding resolve_physical_target
  target_mode_known i ltp none e known k h = ground (arith, e, h)
  target_mode_known i ltp (some m) e known k h = ground (arith, e, h, known m refl)

  desired_mode_known :
      (c : Climate F) (now : ℕ) (k : HpMode)
      → (reconcile_inputs fl now c).desired_mode ≡ some k
      → same k HpMode.unknown ≡ false
  unfolding reconcile_inputs climate_mode_to_hp_mode
  desired_mode_known c now k h = ground (arith, h)

  module _ (ieee : IsIeee fl) where
    -- Neither the time nor the commands of the past decide whether there is a mismatch.
    settled :
        (i : ReconcileInputs F) (t : PhysicalTarget F) (now later : ℕ)
        → le i.low_temp_temp (add i.low_temp_temp i.low_temp_hysteresis) ≡ true
        → ((decide_reconciliation fl i).target.power_on ≡ true
            → is_nan (
                div (round (mul (decide_reconciliation fl i).target.temperature (two fl))) (two fl))
              ≡ false)
        → let d = decide_reconciliation fl (at_time (after_obeying fl ieee i) t now later) in
          (d.mode_mismatch ≡ false) × (d.temp_mismatch ≡ false)
    unfolding decide_reconciliation find_mode_mismatch find_temp_mismatch
    settled i t now later h n =
        let x = after_obeying fl ieee i in
        let calm = decide_reconciliation_converges fl ieee i h n in
        let same_goal =
          ignores_command fl ieee x (at_time x t now later) (decide_reconciliation fl x).ltp_active
            x.desired_mode refl refl refl refl refl refl refl refl refl refl in
        (
          ap (find_mode_mismatch fl x) same_goal ∙ calm.1,
          ap (find_temp_mismatch fl x) same_goal ∙ calm.2,
        )

    rest_stays :
        (c : Climate F) (now : ℕ)
        → (decision now c).mode_mismatch ≡ false
        → (decision now c).temp_mismatch ≡ false
        → (evaluate_fan_stop_and_ltp fl now c).wanted_settings ≡ c.wanted_settings
    unfolding evaluate_fan_stop_and_ltp decide_reconciliation
    rest_stays c now no_mode no_temp = ground (arith, no_mode, no_temp)

    pub command_taken :
        (c : Climate F) (now : ℕ)
        → (decision now c).should_command ≡ true
        → evaluate_fan_stop_and_ltp fl now c ≡ after_command now (decision now c) c
    unfolding evaluate_fan_stop_and_ltp decide_reconciliation
    command_taken c now cmd =
        ap
          (λ (x : Climate F). record x {
            diagnostic_sensor =
                if has_value c.diagnostic_sensor
                then some (protection_state_to_str (decision now c).protection)
                else none;
          })
          (command_issued _ _ _ _ _ cmd)

    adopted_inputs :
        (c : Climate F) (now later : ℕ)
        → let d = decision now (at_rest c) in
          reconcile_inputs fl later (adopted (after_command now d (at_rest c)))
          ≡ at_time (after_obeying fl ieee (reconcile_inputs fl now (at_rest c))) d.target now later
    unfolding decide_reconciliation
    adopted_inputs c now later =
        let i = reconcile_inputs fl now (at_rest c) in
        let d = decision now (at_rest c) in
        obeying_inputs c now later d d.target.power_on d.target.mode d.target.temperature (
          target_mode_known i d.ltp_active i.desired_mode refl (desired_mode_known (at_rest c) now))

    -- With a hysteresis that does not lower the release point of the protection, if an evaluation with
    -- nothing wanted issues a command to a target that does not round to a NaN, and the unit takes the
    -- wanted settings, then the next evaluation, at any time and with the same room, wants nothing.
    pub evaluate_settles :
        (c : Climate F) (now later : ℕ)
        → le c.low_temp_temp (add c.low_temp_temp c.low_temp_hysteresis) ≡ true
        → ((decision now (at_rest c)).target.power_on ≡ true
            → is_nan
                (div (round (mul (decision now (at_rest c)).target.temperature (two fl))) (two fl))
              ≡ false)
        → (decision now (at_rest c)).should_command ≡ true
        → let e = evaluate_fan_stop_and_ltp fl now (at_rest c) in
          (evaluate_fan_stop_and_ltp fl later (adopted e)).wanted_settings
          ≡ reset_wanted e.wanted_settings
    unfolding reconcile_inputs
    evaluate_settles c now later h n cmd =
        let d = decision now (at_rest c) in
        let u = adopted (after_command now d (at_rest c)) in
        let inputs = adopted_inputs c now later in
        let calm = settled (reconcile_inputs fl now (at_rest c)) d.target now later h n in
        subst
          (λ (e : Climate F).
            (evaluate_fan_stop_and_ltp fl later (adopted e)).wanted_settings
            ≡ reset_wanted e.wanted_settings)
          (sym (command_taken (at_rest c) now cmd))
          (rest_stays u later (ap (λ i. (decide_reconciliation fl i).mode_mismatch) inputs ∙ calm.0)
            (ap (λ i. (decide_reconciliation fl i).temp_mismatch) inputs ∙ calm.1))
