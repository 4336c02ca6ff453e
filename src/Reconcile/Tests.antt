-- ===== src/Reconcile/Tests.antt =====
-- Runs of components/cn105/reconciliation_policy.h on a unit that is off in a cold room.
use mitsubishi_cn105esphome.Prelude.{
  ℕ, ◌+◌, ◌*◌, ◌≡◌, refl, inr, true, false, not, ◌&&◌, none, some, [], ◌∷◌, ◌++◌, arith, ltb,
}
use mitsubishi_cn105esphome.Prelude.Int.{pos}
use mitsubishi_cn105esphome.Prelude.Word.{sub32}
use mitsubishi_cn105esphome.Prelude.Fixed.{Fixed, fixed, fixed-IsIeee, whole, not_number}
use mitsubishi_cn105esphome.Enums.Kinds.{HpPower, HpMode}
use mitsubishi_cn105esphome.Reconcile.{
  ReconcileInputs, decide_reconciliation, has_mismatch, next_ltp_active, resolve_physical_target,
  fan_stop_wants_running,
}
use mitsubishi_cn105esphome.Reconcile.FanStop.{follow, follow_last_crossing}
use mitsubishi_cn105esphome.Reconcile.Converge.{after_obeying, decide_reconciliation_converges}
use mitsubishi_cn105esphome.Reconcile.Repeat.{unconfirmed, repeats_after_window}

abbrev degrees : ℕ → Fixed
degrees n = whole (pos n)

-- The user wants 21 degrees of heat, the unit is off, the protection is enabled below 5 degrees.
abbrev cold_room : ReconcileInputs Fixed
cold_room = record {
  now_ms = 100000;
  update_interval_ms = 2000;
  desired_power_on = true;
  desired_mode = some HpMode.heat;
  desired_temp = degrees 21;
  current_power = HpPower.off;
  current_mode = HpMode.cool;
  current_temperature = some (degrees 24);
  current_temp = degrees 18;
  ltp_enabled = true;
  ltp_active = false;
  low_temp_temp = degrees 5;
  low_temp_hysteresis = degrees 2;
  fan_stop_enabled = true;
  hysteresis = degrees 1;
  has_issued_command = false;
  last_issued = record { power_on = false; mode = none; temperature = not_number };
  last_issued_ms = 0;
}

cold_room_target :
    (decide_reconciliation fixed cold_room).target
    ≡ record { power_on = true; mode = some HpMode.heat; temperature = degrees 21 }
unfolding decide_reconciliation next_ltp_active resolve_physical_target fan_stop_wants_running
cold_room_target = refl

target_known :
    (decide_reconciliation fixed cold_room).target.power_on ≡ true
    → fixed.is_nan (
        fixed.div
          (fixed.round
            (fixed.mul (decide_reconciliation fixed cold_room).target.temperature (degrees 2)))
          (degrees 2))
      ≡ false
unfolding decide_reconciliation next_ltp_active resolve_physical_target fan_stop_wants_running
target_known h = refl

decide_reconciliation_converges_example :
    let d = decide_reconciliation fixed (after_obeying fixed fixed-IsIeee cold_room) in
    (d.target ≡ (decide_reconciliation fixed cold_room).target)
    × (d.mode_mismatch ≡ false)
    × (d.temp_mismatch ≡ false)
    × (d.should_command ≡ false)
decide_reconciliation_converges_example =
    decide_reconciliation_converges fixed fixed-IsIeee cold_room refl target_known

target_finite :
    (decide_reconciliation fixed cold_room).target.power_on ≡ true
    → (fixed.is_nan (decide_reconciliation fixed cold_room).target.temperature ≡ false)
      × (fixed.le (degrees 16) (decide_reconciliation fixed cold_room).target.temperature ≡ true)
      × (fixed.le (decide_reconciliation fixed cold_room).target.temperature (degrees 31) ≡ true)
unfolding decide_reconciliation next_ltp_active resolve_physical_target fan_stop_wants_running
target_finite h = (refl, refl, refl)

repeats_after_window_example :
    let d = decide_reconciliation fixed (unconfirmed fixed fixed-IsIeee cold_room 107000) in
    (d.target ≡ (decide_reconciliation fixed cold_room).target)
    × (d.should_command ≡ (
        has_mismatch fixed (decide_reconciliation fixed cold_room)
        && not (ltb (sub32 107000 100000) (2 * 2000 + 2500))))
repeats_after_window_example =
    repeats_after_window fixed fixed-IsIeee cold_room 107000 (pos 16) (pos 31) refl target_finite
      (omega arith)

-- 26 degrees were too warm at 24, and 23 and 25 are inside the deadband.
follow_last_crossing_example :
    follow fixed HpMode.cool
      (degrees 24)
      (degrees 2)
      false
      (degrees 22 ∷ [] ++ degrees 26 ∷ degrees 23 ∷ degrees 25 ∷ [])
    ≡ true
follow_last_crossing_example =
    follow_last_crossing fixed HpMode.cool (degrees 24) (degrees 2) (degrees 26) false true
      (degrees 22 ∷ []) (degrees 23 ∷ degrees 25 ∷ []) (inr refl) refl refl
      ((refl, refl), ((refl, refl), tt))
