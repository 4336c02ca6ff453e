-- ===== src/Climate/Swing.antt =====
-- components/cn105/climate_controls.cpp and hp_readings.cpp: a swing mode that is asked for is the
-- one that the readback shows.
use mitsubishi_cn105esphome.Prelude.{
  some, ◌≡◌, refl, ap, ◌∙◌, ◌≢◌, Bool, true, false, ◌&&◌, if◌then◌else◌, arith,
}
use mitsubishi_cn105esphome.Enums.Kinds.{
  HpVaneMode, HpWideVaneMode, same, fan_enum, vane_enum, wide_vane_enum,
}
use mitsubishi_cn105esphome.Enums.Table.{enum_from_str}
use mitsubishi_cn105esphome.Enums.Wrappers.{hp_vane_from_str, hp_wide_vane_from_str}
use mitsubishi_cn105esphome.Settings.{HeatpumpSettings, reset_wanted}
use mitsubishi_cn105esphome.Climate.{ClimateSwing, Climate, set_vane_setting, set_wide_vane_setting}
use mitsubishi_cn105esphome.Climate.Control.{
  control_swing, stop_vane, stop_wide_vane, swing_wide_vane,
}
use mitsubishi_cn105esphome.Climate.Checks.{take_vanes, swing_of}
use mitsubishi_cn105esphome.Climate.SwingReport.{swing_after, take_vanes-swing_after}

-- The vanes that the unit reports once it has taken the wanted ones.
abbrev pub taken_vane : HpVaneMode → HpVaneMode → HpVaneMode
taken_vane wanted current = if same wanted HpVaneMode.unknown then current else wanted

abbrev pub taken_wide_vane : HpWideVaneMode → HpWideVaneMode → HpWideVaneMode
taken_wide_vane wanted current = if same wanted HpWideVaneMode.unknown then current else wanted

abbrev swings_vertically : ClimateSwing → Bool
swings_vertically ClimateSwing.vertical = true
swings_vertically ClimateSwing.both = true
swings_vertically _ = false

abbrev swings_horizontally : ClimateSwing → Bool
swings_horizontally ClimateSwing.horizontal = true
swings_horizontally ClimateSwing.both = true
swings_horizontally _ = false

swing_of_asked :
    (m : ClimateSwing)
    → m ≢ ClimateSwing.other
    → swing_of (swings_vertically m) (swings_horizontally m) ≡ m
swing_of_asked ClimateSwing.off known = refl
swing_of_asked ClimateSwing.vertical known = refl
swing_of_asked ClimateSwing.horizontal known = refl
swing_of_asked ClimateSwing.both known = refl
swing_of_asked ClimateSwing.other known = absurd (known refl)

-- Vanes that swing as a mode asks show that mode, whatever was known of them.
swing_after_asked :
    (v : HpVaneMode) (w : HpWideVaneMode) (v' : HpVaneMode) (w' : HpWideVaneMode)
    (s m : ClimateSwing)
    → s ≡ m
    → same v' HpVaneMode.swing ≡ swings_vertically m
    → same w' HpWideVaneMode.swing ≡ swings_horizontally m
    → m ≢ ClimateSwing.other
    → swing_after v w v' w' s ≡ m
swing_after_asked v w v' w' s m e hv hw known =
    let shown =
      ap (λ b. swing_of b (same w' HpWideVaneMode.swing)) hv
      ∙ ap (swing_of (swings_vertically m)) hw
      ∙ swing_of_asked m known in
    either (same v v' && same w w') e shown
  where
    either : (b : Bool) {x y z : ClimateSwing} → x ≡ z → y ≡ z → (if b then x else y) ≡ z
    either true p q = p
    either false p q = q

label_auto : hp_vane_from_str (some "AUTO") ≡ HpVaneMode.auto
unfolding enum_from_str
label_auto = refl

label_swing : hp_vane_from_str (some "SWING") ≡ HpVaneMode.swing
unfolding enum_from_str
label_swing = refl

label_middle : hp_wide_vane_from_str (some "|") ≡ HpWideVaneMode.center
unfolding enum_from_str
label_middle = refl

label_swing_wide : hp_wide_vane_from_str (some "SWING") ≡ HpWideVaneMode.swing
unfolding enum_from_str
label_swing_wide = refl

module _ {F : Type 0} where
  abbrev pub vane_report : Climate F → HeatpumpSettings F → HeatpumpSettings F
  vane_report c r = record r {
    vane = taken_vane c.wanted_settings.vane c.current_settings.vane;
    wide_vane = taken_wide_vane c.wanted_settings.wide_vane c.current_settings.wide_vane;
  }

  -- What `process_swing_change` makes of a swing mode.
  abbrev pub asked : ClimateSwing → Climate F → Climate F
  asked m c = control_swing (record c { swing_mode = m })

  asked_keeps :
      (m : ClimateSwing) (c : Climate F)
      → ((asked m c).current_settings ≡ c.current_settings) × ((asked m c).swing_mode ≡ m)
  unfolding control_swing stop_vane stop_wide_vane swing_wide_vane set_vane_setting
      set_wide_vane_setting
  asked_keeps ClimateSwing.off c = ground arith
  asked_keeps ClimateSwing.vertical c = ground arith
  asked_keeps ClimateSwing.horizontal c = ground arith
  asked_keeps ClimateSwing.both c = ground arith
  asked_keeps ClimateSwing.other c = ground arith

  -- Whether the vanes swing once they are as they are wanted.
  asked_vane :
      (m : ClimateSwing) (c : Climate F)
      → c.wanted_settings.vane ≡ HpVaneMode.unknown
      → m ≢ ClimateSwing.other
      → same (taken_vane (asked m c).wanted_settings.vane c.current_settings.vane) HpVaneMode.swing
        ≡ swings_vertically m
  unfolding control_swing stop_vane stop_wide_vane swing_wide_vane set_vane_setting
      set_wide_vane_setting
  asked_vane ClimateSwing.off c hv known = ground (arith, hv, label_auto, label_swing)
  asked_vane ClimateSwing.vertical c hv known = ground (arith, hv, label_auto, label_swing)
  asked_vane ClimateSwing.horizontal c hv known = ground (arith, hv, label_auto, label_swing)
  asked_vane ClimateSwing.both c hv known = ground (arith, hv, label_auto, label_swing)
  asked_vane ClimateSwing.other c hv known = absurd (known refl)

  asked_wide_vane :
      (m : ClimateSwing) (c : Climate F)
      → c.supports_horizontal ≡ true
      → c.wanted_settings.wide_vane ≡ HpWideVaneMode.unknown
      → m ≢ ClimateSwing.other
      → same
          (taken_wide_vane (asked m c).wanted_settings.wide_vane c.current_settings.wide_vane)
          HpWideVaneMode.swing
        ≡ swings_horizontally m
  unfolding control_swing stop_vane stop_wide_vane swing_wide_vane set_vane_setting
      set_wide_vane_setting
  asked_wide_vane ClimateSwing.off c h hw known =
      ground (arith, h, hw, label_middle, label_swing_wide)
  asked_wide_vane ClimateSwing.vertical c h hw known =
      ground (arith, h, hw, label_middle, label_swing_wide)
  asked_wide_vane ClimateSwing.horizontal c h hw known =
      ground (arith, h, hw, label_middle, label_swing_wide)
  asked_wide_vane ClimateSwing.both c h hw known =
      ground (arith, h, hw, label_middle, label_swing_wide)
  asked_wide_vane ClimateSwing.other c h hw known = absurd (known refl)

  -- On a unit with a horizontal vane, if no vane is wanted yet, one of the four swing modes that is
  -- asked for is the one that is shown once the wanted settings are reset and the unit reports the
  -- vanes that `control_swing` wanted, and the others as they were.
  pub control_swing_settles :
      (m : ClimateSwing) (c : Climate F) (r : HeatpumpSettings F)
      → c.supports_horizontal ≡ true
      → c.wanted_settings.vane ≡ HpVaneMode.unknown
      → c.wanted_settings.wide_vane ≡ HpWideVaneMode.unknown
      → m ≢ ClimateSwing.other
      → let s = asked m c in
        (take_vanes
          (vane_report s r)
          (record s { wanted_settings = reset_wanted s.wanted_settings })).swing_mode
        ≡ m
  unfolding reset_wanted
  control_swing_settles m c r h hv hw known =
      let s = asked m c in
      let keeps = asked_keeps m c in
      take_vanes-swing_after (vane_report s r)
        (record s { wanted_settings = reset_wanted s.wanted_settings }) refl refl
      ∙ swing_after_asked _ _ _ _ _ m keeps.1
          (ap (λ u. same (taken_vane s.wanted_settings.vane u.vane) HpVaneMode.swing) keeps.0
            ∙ asked_vane m c hv known)
          (ap
              (λ u.
                same (taken_wide_vane s.wanted_settings.wide_vane u.wide_vane) HpWideVaneMode.swing)
              keeps.0
            ∙ asked_wide_vane m c h hw known)
          known
