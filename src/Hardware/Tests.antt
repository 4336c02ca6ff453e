-- ===== src/Hardware/Tests.antt =====
-- Runs of components/cn105/hardware_setting_select.cpp: the auto restart of a unit is switched on.
use Prim.Native.String.{String}
use mitsubishi_cn105esphome.Prelude.{◌≡◌, ◌≢◌, refl, arith, true, false, [], ◌∷◌, replicate}
use text.Mathlib.TextEquality.{eq_iff}
use mitsubishi_cn105esphome.Prelude.Chosen.{Chosen, chosen, chosen-IsSelect}
use mitsubishi_cn105esphome.Functions.{
  HeatpumpFunctions, cleared, set_value, set_data1, set_data2, get_data1, get_data2,
}
use mitsubishi_cn105esphome.Hardware.{HardwareSettingSelect, control, show_setting}
use mitsubishi_cn105esphome.Hardware.Choice.{control-shown}

abbrev auto_restart : HardwareSettingSelect Chosen
auto_restart = record {
  code = 101;
  mapping = (1, "Disabled") ∷ (2, "Enabled") ∷ [];
  select = record { options = "Disabled" ∷ "Enabled" ∷ []; current = "Disabled" };
  enabled = true;
  failed = false;
}

abbrev filter_sign : HardwareSettingSelect Chosen
filter_sign = record auto_restart { code = 107 }

-- The codes 101 and 107 have the value 1.
abbrev held : HeatpumpFunctions
held = record { raw = 5 ∷ 29 ∷ replicate 28 0; is_valid1 = true; is_valid2 = true }

control-shown_example :
    let (f, stored) = control "Enabled" auto_restart (held, false) in
    let reported = set_data2 (set_data1 cleared (get_data1 f)) (get_data2 f) in
    (stored ≡ true)
    × ((show_setting chosen reported auto_restart).select.current ≡ "Enabled")
    × (show_setting chosen reported filter_sign ≡ show_setting chosen held filter_sign)
unfolding set_value
control-shown_example =
    control-shown chosen chosen-IsSelect "Enabled" 2 auto_restart filter_sign held cleared false
      refl refl ((labels_differ, tt), (tt, tt)) refl refl refl taken (omega arith)
  where
    labels_differ : ◌≢◌ {A = String} "Enabled" "Disabled"
    labels_differ = ground (arith, eq_iff "Enabled" "Disabled")

    taken : (set_value held 101 2).1 ≡ true
    taken = refl
