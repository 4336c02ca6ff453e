-- ===== src/Reconcile/Repeat.antt =====
-- components/cn105/reconciliation_policy.h: when an unconfirmed command is repeated.
use mitsubishi_cn105esphome.Prelude.{
  ℕ, ◌+◌, ◌*◌, ◌<◌, ◌≡◌, refl, ap, ◌∙◌, Bool, true, false, Option, some, none, not, ◌&&◌, arith,
  ltb,
}
use mitsubishi_cn105esphome.Prelude.Int.{ℤ}
use mitsubishi_cn105esphome.Prelude.Word.{sub32}
use mitsubishi_cn105esphome.Prelude.Float.{Float, IsIeee}
use mitsubishi_cn105esphome.Enums.Kinds.{HpMode, same, power_enum, mode_enum}
use mitsubishi_cn105esphome.Schedule.{should_suppress_repeat_command}
use mitsubishi_cn105esphome.Reconcile.{
  ReconcileInputs, PhysicalTarget, same_as, resolve_physical_target, has_mismatch,
  decide_reconciliation, find_mode_mismatch, find_temp_mismatch,
}
use mitsubishi_cn105esphome.Reconcile.Converge.{next_ltp_active_again}

module _ (fl : Float) (ieee : IsIeee fl) where
  open fl use {F, of_int, add, sub, fabs, lt, le, is_nan}

  -- The temperature of a target that is on lies between two integers.
  abbrev pub IsFinite : PhysicalTarget F → ℤ → ℤ → Type 0
  IsFinite t m n =
      t.power_on ≡ true
      → (is_nan t.temperature ≡ false)
        × (le (of_int m) t.temperature ≡ true)
        × (le t.temperature (of_int n) ≡ true)

  pub same_as_refl :
      (t : PhysicalTarget F) (m n : ℤ) (o : Option HpMode)
      → t.mode ≡ o
      → IsFinite t m n
      → same_as fl t t ≡ true
  unfolding same_as
  same_as_refl t m n none e f = ground (arith, f, ieee.sub_self t.temperature m n, ieee.div_pos 1 4)
  same_as_refl t m n (some h) e f =
      ground (arith, f, ieee.sub_self t.temperature m n, ieee.div_pos 1 4)

  -- The next evaluation at the time `later`: the caller has stored the latch and the command, and
  -- the unit still reports what it did.
  abbrev pub unconfirmed : ReconcileInputs F → ℕ → ReconcileInputs F
  unconfirmed i later =
      let d = decide_reconciliation fl i in
      record i {
        now_ms = later;
        ltp_active = d.ltp_active;
        has_issued_command = true;
        last_issued = d.target;
        last_issued_ms = i.now_ms;
      }

  pub ignores_command :
      (i j : ReconcileInputs F) (ltp : Bool) (o : Option HpMode)
      → j.desired_power_on ≡ i.desired_power_on
      → i.desired_mode ≡ o
      → j.desired_mode ≡ o
      → j.desired_temp ≡ i.desired_temp
      → j.current_power ≡ i.current_power
      → j.current_temp ≡ i.current_temp
      → j.low_temp_temp ≡ i.low_temp_temp
      → j.low_temp_hysteresis ≡ i.low_temp_hysteresis
      → j.fan_stop_enabled ≡ i.fan_stop_enabled
      → j.hysteresis ≡ i.hysteresis
      → resolve_physical_target fl j ltp ≡ resolve_physical_target fl i ltp
  unfolding resolve_physical_target
  ignores_command i j ltp none a b c d e f g h k l = ground arith
  ignores_command i j ltp (some m) a b c d e f g h k l = ground arith

  unconfirmed_target :
      (i : ReconcileInputs F) (later : ℕ)
      → le i.low_temp_temp (add i.low_temp_temp i.low_temp_hysteresis) ≡ true
      → (decide_reconciliation fl (unconfirmed i later)).target
        ≡ (decide_reconciliation fl i).target
  unfolding decide_reconciliation
  unconfirmed_target i later h =
      ap (resolve_physical_target fl (unconfirmed i later)) (
        next_ltp_active_again fl ieee i.ltp_enabled i.ltp_active i.current_temp i.low_temp_temp
          i.low_temp_hysteresis h)
      ∙ ignores_command i (unconfirmed i later) (decide_reconciliation fl i).ltp_active
          i.desired_mode refl refl refl refl refl refl refl refl refl refl

  same_mismatch :
      (i : ReconcileInputs F) (later : ℕ) (t : PhysicalTarget F)
      → (find_mode_mismatch fl (unconfirmed i later) t ≡ find_mode_mismatch fl i t)
        × (find_temp_mismatch fl (unconfirmed i later) t ≡ find_temp_mismatch fl i t)
  unfolding find_mode_mismatch find_temp_mismatch
  same_mismatch i later t = (refl, refl)

  held_back :
      (same : Bool) (later sent interval : ℕ)
      → same ≡ true
      → interval < 2147482398
      → should_suppress_repeat_command true same later sent interval
        ≡ ltb (sub32 later sent) (2 * interval + 2500)
  unfolding should_suppress_repeat_command
  held_back same later sent interval e small = ground arith

  -- With a hysteresis that does not lower the release point of the protection, a target that is off or
  -- whose temperature is a number between two integers, and an update interval below 2147482398 ms, so that
  -- the settle window does not wrap: a command that the unit has not confirmed, with the same inputs
  -- otherwise, is held back exactly during the window of two update intervals and 2.5 s, and is then issued
  -- again, to the same target, if there was a mismatch.
  pub repeats_after_window :
      (i : ReconcileInputs F) (later : ℕ) (m n : ℤ)
      → le i.low_temp_temp (add i.low_temp_temp i.low_temp_hysteresis) ≡ true
      → IsFinite (decide_reconciliation fl i).target m n
      → i.update_interval_ms < 2147482398
      → let d = decide_reconciliation fl (unconfirmed i later) in
        (d.target ≡ (decide_reconciliation fl i).target)
        × (d.should_command ≡ (
            has_mismatch fl (decide_reconciliation fl i)
            && not (ltb (sub32 later i.now_ms) (2 * i.update_interval_ms + 2500))))
  unfolding decide_reconciliation
  repeats_after_window i later m n h f small =
      let e = unconfirmed_target i later h in
      let t = (decide_reconciliation fl i).target in
      (
        e,
        ground (
          arith,
          e,
          same_mismatch i later t,
          held_back (same_as fl (decide_reconciliation fl (unconfirmed i later)).target t) later
              i.now_ms i.update_interval_ms
              (ap (λ s. same_as fl s t) e ∙ same_as_refl t m n t.mode refl f) small,
        ),
      )
