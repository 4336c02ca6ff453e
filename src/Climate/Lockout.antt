-- ===== src/Climate/Lockout.antt =====
-- components/cn105/hp_readings.cpp: when a readback changes what the user desires.
use mitsubishi_cn105esphome.Prelude.{
  ℕ, ◌≡◌, refl, sym, subst, Bool, true, false, not, ◌&&◌, if◌then◌else◌, arith, ltb, ◌⊎◌,
}
use mitsubishi_cn105esphome.Prelude.Word.{sub32}
use mitsubishi_cn105esphome.Prelude.Float.{Float}
use mitsubishi_cn105esphome.Settings.{HeatpumpSettings}
use mitsubishi_cn105esphome.Climate.{Climate, is_off}
use mitsubishi_cn105esphome.Climate.Checks.{physical_mode, same_climate_mode, setpoint_changed}
use mitsubishi_cn105esphome.Climate.Readings.{check_power_and_mode_settings}

-- A choice as `check_power_and_mode_settings` makes it.
abbrev choice : {A : Type 0} → Bool → Bool → Bool → Bool → Bool → A → A → A → A → A
choice first lock agrees off moved x y z w =
    if not first
    then x
    else if lock
    then w
    else if not agrees
    then y
    else if not off && moved
    then z
    else w

choice_last :
    {A : Type 0} (first lock agrees off moved : Bool) (x y z w : A)
    → first ≡ true
    → (lock ≡ true) ⊎ ((agrees ≡ true) × ((off ≡ true) ⊎ (moved ≡ false)))
    → choice first lock agrees off moved x y z w ≡ w
choice_last first lock agrees off moved x y z w a b = ground arith

module _ (fl : Float) (turn_off : Bool → Bool) where
  open fl use {F}

  -- What the user has asked for, and what waits to be sent, is untouched.
  abbrev pub Undisturbed : Climate F → Climate F → Type 0
  Undisturbed c d =
      (d.desired_mode ≡ c.desired_mode)
      × (d.desired_temp ≡ c.desired_temp)
      × (d.fan_stop_switch ≡ c.fan_stop_switch)
      × (d.wanted_settings ≡ c.wanted_settings)
      × (d.mode ≡ c.desired_mode)
      × (d.target_temperature ≡ c.desired_temp)

  -- After the first report, a readback leaves the user's mode, setpoint and fan stop and the wanted
  -- settings alone, and shows the user's mode and setpoint, if it comes within 5 seconds of a command,
  -- or if it confirms the command: the commanded mode, and, unless that is off, either no setpoint or
  -- one within a quarter of a degree of the commanded one.
  pub check_power_and_mode_settings_confirms :
      (c : Climate F) (now : ℕ) (settings : HeatpumpSettings F) (update : Bool)
      → c.first_real_state_received ≡ true
      → (ltb (sub32 now c.last_mode_command_time_ms) 5000 ≡ true)
        ⊎ ((same_climate_mode
                (physical_mode settings.power settings.mode)
                c.last_commanded_real_mode
              ≡ true)
            × ((is_off (physical_mode settings.power settings.mode) ≡ true)
                ⊎ (setpoint_changed fl settings.temperature c.last_commanded_real_temp ≡ false)))
      → Undisturbed c (check_power_and_mode_settings fl turn_off now settings update c)
  unfolding check_power_and_mode_settings
  check_power_and_mode_settings_confirms c now settings true first h =
      subst (Undisturbed c) (sym (choice_last c.first_real_state_received _ _ _ _ _ _ _ _ first h))
        (refl, refl, refl, refl, refl, refl)
  check_power_and_mode_settings_confirms c now settings false first h =
      subst (Undisturbed c) (sym (choice_last c.first_real_state_received _ _ _ _ _ _ _ _ first h))
        (refl, refl, refl, refl, refl, refl)
