-- ===== src/Climate/SwingReport.antt =====
-- components/cn105/hp_readings.cpp: the swing mode that a readback of the vanes leaves.
use mitsubishi_cn105esphome.Prelude.{◌≡◌, ap, ◌∙◌, true, ◌&&◌, if◌then◌else◌, arith}
use mitsubishi_cn105esphome.Enums.Kinds.{
  HpFanMode, HpVaneMode, HpWideVaneMode, same, fan_enum, vane_enum, wide_vane_enum,
}
use mitsubishi_cn105esphome.Settings.{HeatpumpSettings}
use mitsubishi_cn105esphome.Climate.{ClimateSwing, Climate}
use mitsubishi_cn105esphome.Climate.Checks.{
  take_vanes, swing_of, check_fan_settings, check_vane_settings, check_wide_vane_settings,
}

-- The swing mode after a readback, by what was known and what is reported.
abbrev pub swing_after :
    HpVaneMode → HpWideVaneMode → HpVaneMode → HpWideVaneMode → ClimateSwing → ClimateSwing
swing_after v w v' w' s =
    if same v v' && same w w'
    then s
    else swing_of (same v' HpVaneMode.swing) (same w' HpWideVaneMode.swing)

steps_agree :
    (v v' : HpVaneMode) (w w' : HpWideVaneMode) (s : ClimateSwing)
    → (if same w w'
        then (if same v v'
            then s
            else swing_of (same v' HpVaneMode.swing) (same w HpWideVaneMode.swing))
        else swing_of
            (same (if same v v' then v else v') HpVaneMode.swing)
            (same w' HpWideVaneMode.swing))
      ≡ swing_after v w v' w' s
steps_agree v v' w w' s = ground arith

module _ {F : Type 0} where
  -- `take_vanes` up to the vanes.
  abbrev after_fan : HeatpumpSettings F → Climate F → Climate F
  after_fan r c =
      if same c.wanted_settings.fan HpFanMode.unknown then check_fan_settings r true c else c

  -- `take_vanes` behind the vertical vane.
  abbrev after_vane : HeatpumpSettings F → Climate F → Climate F
  after_vane r c =
      if same c.wanted_settings.wide_vane HpWideVaneMode.unknown
      then check_wide_vane_settings r true c
      else c

  after_fan_keeps :
      (r : HeatpumpSettings F) (c : Climate F)
      → ((after_fan r c).swing_mode ≡ c.swing_mode)
        × ((after_fan r c).current_settings.vane ≡ c.current_settings.vane)
        × ((after_fan r c).current_settings.wide_vane ≡ c.current_settings.wide_vane)
        × ((after_fan r c).wanted_settings ≡ c.wanted_settings)
  unfolding check_fan_settings
  after_fan_keeps r c = ground arith

  vane_step :
      (r : HeatpumpSettings F) (c : Climate F)
      → let d = check_vane_settings r true c in
        (d.swing_mode ≡ (
          if same c.current_settings.vane r.vane
          then c.swing_mode
          else swing_of
              (same r.vane HpVaneMode.swing)
              (same c.current_settings.wide_vane HpWideVaneMode.swing)))
        × (d.current_settings.vane
            ≡ (if same c.current_settings.vane r.vane then c.current_settings.vane else r.vane))
        × (d.current_settings.wide_vane ≡ c.current_settings.wide_vane)
        × (d.wanted_settings ≡ c.wanted_settings)
  unfolding check_vane_settings
  vane_step r c = ground arith

  wide_step :
      (r : HeatpumpSettings F) (c : Climate F)
      → (check_wide_vane_settings r true c).swing_mode ≡ (
          if same c.current_settings.wide_vane r.wide_vane
          then c.swing_mode
          else swing_of
              (same c.current_settings.vane HpVaneMode.swing)
              (same r.wide_vane HpWideVaneMode.swing))
  unfolding check_wide_vane_settings
  wide_step r c = ground arith

  take_vanes-steps :
      (r : HeatpumpSettings F) (c : Climate F)
      → c.wanted_settings.vane ≡ HpVaneMode.unknown
      → c.wanted_settings.wide_vane ≡ HpWideVaneMode.unknown
      → take_vanes r c
        ≡ check_wide_vane_settings r true (check_vane_settings r true (after_fan r c))
  unfolding take_vanes
  take_vanes-steps r c hv hw =
      let f = after_fan r c in
      let keeps = after_fan_keeps r c in
      let vane : same f.wanted_settings.vane HpVaneMode.unknown ≡ true =
        ap (λ w. same w.vane HpVaneMode.unknown) keeps.3 ∙ ap (λ v. same v HpVaneMode.unknown) hv in
      let wide : same (check_vane_settings r true f).wanted_settings.wide_vane
            HpWideVaneMode.unknown
          ≡ true =
        ap (λ w. same w.wide_vane HpWideVaneMode.unknown) ((vane_step r f).3 ∙ keeps.3)
        ∙ ap (λ v. same v HpWideVaneMode.unknown) hw in
      ap (λ b. after_vane r (if b then check_vane_settings r true f else f)) vane
      ∙ ap
          (λ b.
            if b
            then check_wide_vane_settings r true (check_vane_settings r true f)
            else check_vane_settings r true f)
          wide

  pub take_vanes-swing_after :
      (r : HeatpumpSettings F) (c : Climate F)
      → c.wanted_settings.vane ≡ HpVaneMode.unknown
      → c.wanted_settings.wide_vane ≡ HpWideVaneMode.unknown
      → (take_vanes r c).swing_mode
        ≡ swing_after c.current_settings.vane c.current_settings.wide_vane r.vane r.wide_vane
            c.swing_mode
  take_vanes-swing_after r c hv hw =
      ap (λ t. t.swing_mode) (take_vanes-steps r c hv hw)
      ∙ wide_step r (check_vane_settings r true (after_fan r c))
      ∙ (rw
          (
            (vane_step r (after_fan r c)).0,
            (vane_step r (after_fan r c)).1,
            (vane_step r (after_fan r c)).2,
            (after_fan_keeps r c).0,
            (after_fan_keeps r c).1,
            (after_fan_keeps r c).2,
          )
          (steps_agree c.current_settings.vane r.vane c.current_settings.wide_vane r.wide_vane
            c.swing_mode))
