-- ===== src/Climate/Taking.antt =====
-- components/cn105/hp_readings.cpp: the fan speed and the vanes that the unit reports, as `check_fan_settings`,
-- `check_vane_settings` and `check_wide_vane_settings` take them.
use mitsubishi_cn105esphome.Prelude.{
  ◌≡◌, refl, ap, sym, ◌∙◌, arith, Bool, true, false, not, ◌&&◌, if◌then◌else◌, Bool-cases, inl, inr,
}
use mitsubishi_cn105esphome.Enums.Kinds.{
  HpPower, HpMode, HpFanMode, HpVaneMode, HpWideVaneMode, same, power_enum, mode_enum, fan_enum,
  vane_enum, wide_vane_enum,
}
use mitsubishi_cn105esphome.Settings.{HeatpumpSettings, WantedHeatpumpSettings}
use mitsubishi_cn105esphome.Climate.{Climate}
use mitsubishi_cn105esphome.Climate.Checks.{
  take_vanes, check_fan_settings, check_vane_settings, check_wide_vane_settings,
}

pub same_power : (a b : HpPower) → same a b ≡ true → a ≡ b
same_power a b h = ground arith

pub same_mode : (a b : HpMode) → same a b ≡ true → a ≡ b
same_mode a b h = ground arith

pub same_fan : (a b : HpFanMode) → same a b ≡ true → a ≡ b
same_fan a b h = ground arith

pub same_vane : (a b : HpVaneMode) → same a b ≡ true → a ≡ b
same_vane a b h = ground arith

pub same_wide_vane : (a b : HpWideVaneMode) → same a b ≡ true → a ≡ b
same_wide_vane a b h = ground arith

pub same_flag : (a b : Bool) → (if a then b else not b) ≡ true → b ≡ a
same_flag true b h = h
same_flag false b h = ground arith

pub both_true : (a b : Bool) → a && b ≡ true → (a ≡ true) × (b ≡ true)
both_true true b h = (refl, h)
both_true false b h = cc

pub either : {A : Type 0} (b : Bool) (x y : A) → x ≡ y → y ≡ (if b then x else y)
either true x y e = sym e
either false x y e = refl

module _ {F : Type 0} where
  -- Nothing is wanted of the power and the mode.
  abbrev pub mode_free : Climate F → Bool
  mode_free c =
      same c.wanted_settings.mode HpMode.unknown && same c.wanted_settings.power HpPower.unknown

  -- The second state of the climate entity holds the settings `x`, as far as the first wants none other.
  pub record Taken (x : HeatpumpSettings F) (c c' : Climate F) : Type 0 where
    pub power :
        c'.current_settings.power ≡ (if mode_free c then x.power else c.current_settings.power)
    pub mode : c'.current_settings.mode ≡ (if mode_free c then x.mode else c.current_settings.mode)
    pub fan :
        c'.current_settings.fan
        ≡ (if same c.wanted_settings.fan HpFanMode.unknown then x.fan else c.current_settings.fan)
    pub vane : c'.current_settings.vane ≡ (
        if same c.wanted_settings.vane HpVaneMode.unknown then x.vane else c.current_settings.vane)
    pub wide_vane : c'.current_settings.wide_vane ≡ (
        if same c.wanted_settings.wide_vane HpWideVaneMode.unknown
        then x.wide_vane
        else c.current_settings.wide_vane)
    pub i_see : c'.current_settings.i_see ≡ x.i_see

  -- Each check with its guard: one field of the current settings, and nothing of the wanted ones.
  fan_step :
      (x : HeatpumpSettings F) (c : Climate F)
      → let free = same c.wanted_settings.fan HpFanMode.unknown in
        let c' = if free then check_fan_settings x true c else c in
        (c'.current_settings
          ≡ record c.current_settings { fan = if free then x.fan else c.current_settings.fan })
        × (c'.wanted_settings ≡ c.wanted_settings)
  unfolding check_fan_settings
  fan_step x c = elim (Bool-cases (same c.wanted_settings.fan HpFanMode.unknown)) [
    | inr f ↦ rw f (refl, refl)
    | inl f ↦ rw f (elim (Bool-cases (same c.current_settings.fan x.fan)) [
      | inl e ↦ rw e (
        ap (λ (v : HpFanMode). record c.current_settings { fan = v })
            (same_fan c.current_settings.fan x.fan e),
        refl,
      )
      | inr e ↦ rw e (refl, refl)
    ])
  ]

  vane_step :
      (x : HeatpumpSettings F) (c : Climate F)
      → let free = same c.wanted_settings.vane HpVaneMode.unknown in
        let c' = if free then check_vane_settings x true c else c in
        (c'.current_settings
          ≡ record c.current_settings { vane = if free then x.vane else c.current_settings.vane })
        × (c'.wanted_settings ≡ c.wanted_settings)
  unfolding check_vane_settings
  vane_step x c = elim (Bool-cases (same c.wanted_settings.vane HpVaneMode.unknown)) [
    | inr f ↦ rw f (refl, refl)
    | inl f ↦ rw f (elim (Bool-cases (same c.current_settings.vane x.vane)) [
      | inl e ↦ rw e (
        ap (λ (v : HpVaneMode). record c.current_settings { vane = v })
            (same_vane c.current_settings.vane x.vane e),
        refl,
      )
      | inr e ↦ rw e (refl, refl)
    ])
  ]

  wide_step :
      (x : HeatpumpSettings F) (c : Climate F)
      → let free = same c.wanted_settings.wide_vane HpWideVaneMode.unknown in
        let c' = if free then check_wide_vane_settings x true c else c in
        (c'.current_settings ≡ record c.current_settings {
          wide_vane = if free then x.wide_vane else c.current_settings.wide_vane;
        })
        × (c'.wanted_settings ≡ c.wanted_settings)
  unfolding check_wide_vane_settings
  wide_step x c = elim (Bool-cases (same c.wanted_settings.wide_vane HpWideVaneMode.unknown)) [
    | inr f ↦ rw f (refl, refl)
    | inl f ↦ rw f (elim (Bool-cases (same c.current_settings.wide_vane x.wide_vane)) [
      | inl e ↦ rw e (
        ap (λ (v : HpWideVaneMode). record c.current_settings { wide_vane = v })
            (same_wide_vane c.current_settings.wide_vane x.wide_vane e),
        refl,
      )
      | inr e ↦ rw e (refl, refl)
    ])
  ]

  pub take_vanes-same :
      (x : HeatpumpSettings F) (c : Climate F)
      → (take_vanes x c).current_settings ≡ record c.current_settings {
        fan =
            if same c.wanted_settings.fan HpFanMode.unknown then x.fan else c.current_settings.fan;
        vane =
            if same c.wanted_settings.vane HpVaneMode.unknown
            then x.vane
            else c.current_settings.vane;
        wide_vane =
            if same c.wanted_settings.wide_vane HpWideVaneMode.unknown
            then x.wide_vane
            else c.current_settings.wide_vane;
      }
  unfolding take_vanes
  take_vanes-same x c =
      let c1 =
        if same c.wanted_settings.fan HpFanMode.unknown then check_fan_settings x true c else c in
      let c2 =
        if same c1.wanted_settings.vane HpVaneMode.unknown
        then check_vane_settings x true c1
        else c1 in
      let (e1, w1) = fan_step x c in
      let (e2, w2) = vane_step x c1 in
      let (e3, w3) = wide_step x c2 in
      let vanes : c2.current_settings
          ≡ put_vane (put_fan c.current_settings c.wanted_settings) c.wanted_settings =
        e2 ∙ (λ i. put_vane (e1 i) (w1 i)) in
      let wishes : c2.wanted_settings ≡ c.wanted_settings = w2 ∙ w1 in
      e3 ∙ (λ i. put_wide (vanes i) (wishes i))
    where
      put_fan : HeatpumpSettings F → WantedHeatpumpSettings F → HeatpumpSettings F
      put_fan s w = record s { fan = if same w.fan HpFanMode.unknown then x.fan else s.fan }

      put_vane : HeatpumpSettings F → WantedHeatpumpSettings F → HeatpumpSettings F
      put_vane s w = record s { vane = if same w.vane HpVaneMode.unknown then x.vane else s.vane }

      put_wide : HeatpumpSettings F → WantedHeatpumpSettings F → HeatpumpSettings F
      put_wide s w = record s {
        wide_vane = if same w.wide_vane HpWideVaneMode.unknown then x.wide_vane else s.wide_vane;
      }
