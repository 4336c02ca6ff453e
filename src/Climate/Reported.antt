-- ===== src/Climate/Reported.antt =====
-- components/cn105/hp_readings.cpp, `heatpump_update`: what the unit reports is what the component holds of
-- it, but for the settings of which another value is wanted.
use mitsubishi_cn105esphome.Prelude.{
  ℕ, ◌≡◌, refl, ap, ◌∙◌, arith, Bool, true, if◌then◌else◌, Bool-cases, inl, inr,
}
use mitsubishi_cn105esphome.Prelude.Float.{Float}
use mitsubishi_cn105esphome.Enums.Kinds.{
  HpFanMode, HpVaneMode, HpWideVaneMode, same, power_enum, mode_enum, fan_enum, vane_enum,
  wide_vane_enum,
}
use mitsubishi_cn105esphome.Settings.{HeatpumpSettings, same_settings}
use mitsubishi_cn105esphome.Climate.{Climate, update_action}
use mitsubishi_cn105esphome.Climate.Checks.{take_vanes, take_setpoint}
use mitsubishi_cn105esphome.Climate.Readings.{
  check_power_and_mode_settings, publish_state_to_ha, heatpump_update,
}
use mitsubishi_cn105esphome.Climate.Kept.{
  Kept, Kept-trans, update_action-Kept, check_power_and_mode-Kept,
}
use mitsubishi_cn105esphome.Climate.Taking.{
  same_power, same_mode, same_fan, same_vane, same_wide_vane, same_flag, both_true, either,
  mode_free, Taken, take_vanes-same,
}

module _ (fl : Float) (turn_off : Bool → Bool) where
  open fl use {F}

  -- The state before the checks of the fan and the vanes.
  mode_taken-Kept :
      (now : ℕ) (x : HeatpumpSettings F) (c : Climate F)
      → let c1 =
          if mode_free c then check_power_and_mode_settings fl turn_off now x true c else c in
        Kept
          (if mode_free c
            then record c {
              current_settings = record c.current_settings { power = x.power; mode = x.mode };
            }
            else c)
          (update_action c1)
  mode_taken-Kept now x c = elim (Bool-cases (mode_free c)) [
    | inl e ↦
        rw e
          (Kept-trans _ _ _ (check_power_and_mode-Kept fl turn_off now x c) (update_action-Kept _))
    | inr e ↦ rw e (update_action-Kept c)
  ]

  take_setpoint-same :
      (now sent : ℕ) (x : HeatpumpSettings F) (c : Climate F)
      → let s = (take_setpoint now sent x c).current_settings in
        (s.power ≡ c.current_settings.power)
        × (s.mode ≡ c.current_settings.mode)
        × (s.fan ≡ c.current_settings.fan)
        × (s.vane ≡ c.current_settings.vane)
        × (s.wide_vane ≡ c.current_settings.wide_vane)
  unfolding take_setpoint
  take_setpoint-same now sent x c = ground arith

  -- The checks of the fan, the vanes and the setpoint, behind a state that was kept.
  checks-same :
      (now sent : ℕ) (x : HeatpumpSettings F) (base c1 : Climate F)
      → Kept base c1
      → let s = (take_setpoint now sent x (take_vanes x c1)).current_settings in
        (s.power ≡ base.current_settings.power)
        × (s.mode ≡ base.current_settings.mode)
        × (s.fan ≡ (
            if same base.wanted_settings.fan HpFanMode.unknown
            then x.fan
            else base.current_settings.fan))
        × (s.vane ≡ (
            if same base.wanted_settings.vane HpVaneMode.unknown
            then x.vane
            else base.current_settings.vane))
        × (s.wide_vane ≡ (
            if same base.wanted_settings.wide_vane HpWideVaneMode.unknown
            then x.wide_vane
            else base.current_settings.wide_vane))
  checks-same now sent x base c1 k =
      let v = take_vanes-same x c1 in
      let t = take_setpoint-same now sent x (take_vanes x c1) in
      (
        t.0
            ∙ ap (λ (s : HeatpumpSettings F). s.power) v
            ∙ ap (λ (s : HeatpumpSettings F). s.power) k.current,
        t.1
            ∙ ap (λ (s : HeatpumpSettings F). s.mode) v
            ∙ ap (λ (s : HeatpumpSettings F). s.mode) k.current,
        t.2
            ∙ ap (λ (s : HeatpumpSettings F). s.fan) v
            ∙ (λ i. if same (k.fan i) HpFanMode.unknown then x.fan else (k.current i).fan),
        t.3
            ∙ ap (λ (s : HeatpumpSettings F). s.vane) v
            ∙ (λ i. if same (k.vane i) HpVaneMode.unknown then x.vane else (k.current i).vane),
        t.4 ∙ ap (λ (s : HeatpumpSettings F). s.wide_vane) v ∙ (λ i.
            if same (k.wide_vane i) HpWideVaneMode.unknown
            then x.wide_vane
            else (k.current i).wide_vane),
      )

  publish_state_to_ha-Taken :
      (now sent : ℕ) (x : HeatpumpSettings F) (c : Climate F)
      → Taken x c (publish_state_to_ha fl turn_off now sent x c)
  unfolding publish_state_to_ha
  publish_state_to_ha-Taken now sent x c =
      let k = mode_taken-Kept now x c in
      let t = checks-same now sent x _ _ k in
      elim (Bool-cases (mode_free c)) [
        | inl e ↦ record {
          power = t.0 ∙ rw e refl;
          mode = t.1 ∙ rw e refl;
          fan = t.2 ∙ rw e refl;
          vane = t.3 ∙ rw e refl;
          wide_vane = t.4 ∙ rw e refl;
          i_see = refl;
        }
        | inr e ↦ record {
          power = t.0 ∙ rw e refl;
          mode = t.1 ∙ rw e refl;
          fan = t.2 ∙ rw e refl;
          vane = t.3 ∙ rw e refl;
          wide_vane = t.4 ∙ rw e refl;
          i_see = refl;
        }
      ]

  -- Settings that are the same as the current ones are taken already.
  same_settings-Taken :
      (x : HeatpumpSettings F) (c : Climate F)
      → same_settings fl x c.current_settings ≡ true
      → Taken x c c
  unfolding same_settings
  same_settings-Taken x c h =
      let (h5, i) = both_true _ _ h in
      let (h4, w) = both_true _ _ h5 in
      let (h3, v) = both_true _ _ h4 in
      let (h2, f) = both_true _ _ h3 in
      let (h1, t) = both_true _ _ h2 in
      let (p, m) = both_true _ _ h1 in
      record {
        power = either (mode_free c) x.power _ (same_power x.power c.current_settings.power p);
        mode = either (mode_free c) x.mode _ (same_mode x.mode c.current_settings.mode m);
        fan = either _ x.fan _ (same_fan x.fan c.current_settings.fan f);
        vane = either _ x.vane _ (same_vane x.vane c.current_settings.vane v);
        wide_vane =
            either _ x.wide_vane _ (same_wide_vane x.wide_vane c.current_settings.wide_vane w);
        i_see = same_flag x.i_see c.current_settings.i_see i;
      }

  -- Whatever the unit reports, once the component has taken it, it holds the reported power, mode, fan
  -- speed, vanes and i-See flag, except that a fan speed or vane of which another is wanted keeps its last
  -- reading, and a wanted power or mode keeps both of these.
  pub heatpump_update-Taken :
      (now sent : ℕ) (x : HeatpumpSettings F) (c : Climate F)
      → Taken x c (heatpump_update fl turn_off now sent x c)
  unfolding heatpump_update
  heatpump_update-Taken now sent x c = elim (Bool-cases (same_settings fl x c.current_settings)) [
    | inl e ↦ rw e (same_settings-Taken x c e)
    | inr e ↦ rw e (publish_state_to_ha-Taken now sent x c)
  ]
