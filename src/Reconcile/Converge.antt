-- ===== src/Reconcile/Converge.antt =====
-- components/cn105/reconciliation_policy.h: a unit that obeys is left alone.
use mitsubishi_cn105esphome.Prelude.{
  ◌≡◌, refl, sym, ap, ◌∙◌, inl, inr, Bool, true, false, Option, some, none, arith, value_or,
  Bool-cases, if◌then◌else◌,
}
use mitsubishi_cn105esphome.Prelude.Int.{pos}
use mitsubishi_cn105esphome.Prelude.Float.{Float, IsIeee}
use mitsubishi_cn105esphome.Enums.Kinds.{HpMode, HpPower, power_enum, mode_enum}
use mitsubishi_cn105esphome.Protocol.{two, normalize_setpoint}
use mitsubishi_cn105esphome.Protocol.Setpoint.{normalize_setpoint_bounds}
use mitsubishi_cn105esphome.Reconcile.{
  ReconcileInputs, ReconcileDecision, PhysicalTarget, next_ltp_active, resolve_physical_target,
  fan_stop_wants_running, find_mode_mismatch, find_temp_mismatch, setpoint_epsilon,
  decide_reconciliation,
}

module _ (fl : Float) where
  open fl use {F, of_int, add, sub, mul, div, round, fabs, lt, le, is_nan}

  -- What the unit reports once it does what a target says.
  abbrev pub obeyed : ReconcileInputs F → PhysicalTarget F → ReconcileInputs F
  obeyed i t =
      if t.power_on
      then record i {
        current_power = HpPower.on;
        current_mode = value_or t.mode i.current_mode;
        current_temperature = some (normalize_setpoint fl t.temperature);
      }
      else record i { current_power = HpPower.off }

  -- Asking fan stop again, once the unit runs or is off as it said, gives the same answer.
  running_again :
      (m : HpMode) (t d h : F) (p : HpPower)
      → fan_stop_wants_running fl m t d h
          (if fan_stop_wants_running fl m t d h p then HpPower.on else HpPower.off)
        ≡ fan_stop_wants_running fl m t d h p
  unfolding fan_stop_wants_running
  running_again m t d h p = ground arith

  resolve_obeyed :
      (i : ReconcileInputs F) (ltp : Bool) (m : Option HpMode)
      → i.desired_mode ≡ m
      → resolve_physical_target fl (obeyed i (resolve_physical_target fl i ltp)) ltp
        ≡ resolve_physical_target fl i ltp
  unfolding resolve_physical_target
  resolve_obeyed i ltp none e = ground arith
  resolve_obeyed i ltp (some m) e =
      ground (arith, running_again m i.current_temp i.desired_temp i.hysteresis i.current_power)

  module _ (ieee : IsIeee fl) where
    pub next_ltp_active_again :
        (enabled active : Bool) (t low h : F)
        → le low (add low h) ≡ true
        → next_ltp_active fl enabled (next_ltp_active fl enabled active t low h) t low h
          ≡ next_ltp_active fl enabled active t low h
    unfolding next_ltp_active
    next_ltp_active_again enabled active t low h pos_h = ground (
      arith,
      ieee.le_of_lt t low,
      ieee.le_trans t low (add low h),
      ieee.not_lt_of_le t (add low h),
      ieee.le_of_lt (add low h) t,
      ieee.le_trans low (add low h) t,
      ieee.not_lt_of_le low t,
    )

    pub no_difference :
        (t : F)
        → is_nan (div (round (mul t (two fl))) (two fl)) ≡ false
        → le (setpoint_epsilon fl) (fabs (sub (normalize_setpoint fl t) (normalize_setpoint fl t)))
          ≡ false
    no_difference t n =
        let b = normalize_setpoint_bounds fl ieee t n in
        ground (
          arith,
          ieee.sub_self (normalize_setpoint fl t) (pos 16) (pos 31) b.0 b.1,
          ieee.div_pos 1 4,
          ieee.not_lt_of_le (setpoint_epsilon fl) (of_int (pos 0)),
        )

    mode_matches :
        (i : ReconcileInputs F) (t : PhysicalTarget F) (m : Option HpMode)
        → t.mode ≡ m
        → find_mode_mismatch fl (obeyed i t) t ≡ false
    unfolding find_mode_mismatch
    mode_matches i t none e = ground arith
    mode_matches i t (some m) e = ground arith

    temp_matches :
        (i : ReconcileInputs F) (t : PhysicalTarget F)
        → (t.power_on ≡ true → is_nan (div (round (mul t.temperature (two fl))) (two fl)) ≡ false)
        → find_temp_mismatch fl (obeyed i t) t ≡ false
    unfolding find_temp_mismatch
    temp_matches i t n = elim (Bool-cases t.power_on) [
      | inl on ↦ ground (arith, no_difference t.temperature (n on))
      | inr off ↦ ground arith
    ]

    -- The caller stores the latch.
    abbrev pub stored : ReconcileInputs F → ReconcileInputs F
    stored i = record i { ltp_active = (decide_reconciliation fl i).ltp_active }

    -- The inputs of the next evaluation, once the unit does what the decision said: all but the latch
    -- and the unit's report is as before.
    abbrev pub after_obeying : ReconcileInputs F → ReconcileInputs F
    after_obeying i = obeyed (stored i) (decide_reconciliation fl i).target

    keeps_latch :
        (i : ReconcileInputs F) (t : PhysicalTarget F)
        → next_ltp_active fl
            (obeyed i t).ltp_enabled
            (obeyed i t).ltp_active
            (obeyed i t).current_temp
            (obeyed i t).low_temp_temp
            (obeyed i t).low_temp_hysteresis
          ≡ next_ltp_active fl i.ltp_enabled i.ltp_active i.current_temp i.low_temp_temp
              i.low_temp_hysteresis
    keeps_latch i t = elim (Bool-cases t.power_on) [ inl on ↦ rw on | inr off ↦ rw off ]

    same_latch :
        (i : ReconcileInputs F)
        → le i.low_temp_temp (add i.low_temp_temp i.low_temp_hysteresis) ≡ true
        → (decide_reconciliation fl (after_obeying i)).ltp_active
          ≡ (decide_reconciliation fl i).ltp_active
    unfolding decide_reconciliation
    same_latch i h =
        keeps_latch (stored i) (decide_reconciliation fl i).target
        ∙ next_ltp_active_again i.ltp_enabled i.ltp_active i.current_temp i.low_temp_temp
            i.low_temp_hysteresis h

    ignores_latch :
        (i : ReconcileInputs F) (b ltp : Bool) (m : Option HpMode)
        → i.desired_mode ≡ m
        → resolve_physical_target fl (record i { ltp_active = b }) ltp
          ≡ resolve_physical_target fl i ltp
    unfolding resolve_physical_target
    ignores_latch i b ltp none e = ground arith
    ignores_latch i b ltp (some m) e = ground arith

    same_target :
        (i : ReconcileInputs F)
        → le i.low_temp_temp (add i.low_temp_temp i.low_temp_hysteresis) ≡ true
        → (decide_reconciliation fl (after_obeying i)).target ≡ (decide_reconciliation fl i).target
    unfolding decide_reconciliation
    same_target i h =
        ap (resolve_physical_target fl (after_obeying i)) (same_latch i h)
        ∙ ap
            (λ t.
              resolve_physical_target fl (obeyed (stored i) t)
                (decide_reconciliation fl i).ltp_active)
            (sym (ignores_latch i d.ltp_active d.ltp_active i.desired_mode refl))
        ∙ resolve_obeyed (stored i) d.ltp_active i.desired_mode refl
        ∙ ignores_latch i d.ltp_active d.ltp_active i.desired_mode refl
      where
        d : ReconcileDecision F
        d = decide_reconciliation fl i

    -- The reconciler converges: with a hysteresis that does not lower the release point of the
    -- protection, and a target temperature that does not round to a NaN, the evaluation after the
    -- unit has obeyed finds the same target, no mismatch, and nothing to command.
    pub decide_reconciliation_converges :
        (i : ReconcileInputs F)
        → le i.low_temp_temp (add i.low_temp_temp i.low_temp_hysteresis) ≡ true
        → ((decide_reconciliation fl i).target.power_on ≡ true
            → is_nan (
                div (round (mul (decide_reconciliation fl i).target.temperature (two fl))) (two fl))
              ≡ false)
        → let d = decide_reconciliation fl (after_obeying i) in
          (d.target ≡ (decide_reconciliation fl i).target)
          × (d.mode_mismatch ≡ false)
          × (d.temp_mismatch ≡ false)
          × (d.should_command ≡ false)
    unfolding decide_reconciliation
    decide_reconciliation_converges i h n =
        (same_target i h, no_mode, no_temp, ground (arith, no_mode, no_temp))
      where
        t : PhysicalTarget F
        t = (decide_reconciliation fl i).target

        no_mode : (decide_reconciliation fl (after_obeying i)).mode_mismatch ≡ false
        no_mode =
            ap (find_mode_mismatch fl (after_obeying i)) (same_target i h)
            ∙ mode_matches (stored i) t t.mode refl

        no_temp : (decide_reconciliation fl (after_obeying i)).temp_mismatch ≡ false
        no_temp =
            ap (find_temp_mismatch fl (after_obeying i)) (same_target i h)
            ∙ temp_matches (stored i) t n
