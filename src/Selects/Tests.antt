-- ===== src/Selects/Tests.antt =====
-- Runs of the selects of components/cn105/extra_components.cpp.
use Prim.Native.String.{String}
use mitsubishi_cn105esphome.Prelude.{
  ◌≡◌, refl, ◌⊎◌, true, false, none, some, List, [], ◌∷◌, if◌then◌else◌,
}
use mitsubishi_cn105esphome.Prelude.Fixed.{Fixed}
use mitsubishi_cn105esphome.Prelude.Chosen.{Chosen, chosen, chosen-IsSelect}
use mitsubishi_cn105esphome.Enums.Kinds.{
  HpVaneMode, HpWideVaneMode, HpAirflowControl, same, wide_vane_enum, airflow_control_enum,
}
use mitsubishi_cn105esphome.Enums.Table.{enum_from_str}
use mitsubishi_cn105esphome.Enums.Wrappers.{hp_airflow_control_to_str}
use mitsubishi_cn105esphome.Settings.{HeatpumpSettings, WantedHeatpumpRunStates, no_settings}
use mitsubishi_cn105esphome.Climate.{set_vane_setting, set_wide_vane_setting, flag_change}
use mitsubishi_cn105esphome.Climate.Tests.{commanded}
use mitsubishi_cn105esphome.Selects.{
  Selects, horizontal_options, choose_vane, choose_wide_vane, set_vertical_vane_select,
  set_horizontal_vane_select, set_airflow_control_select, update_extra_select_components,
  choose_airflow, publish_wanted_run_states_state_to_ha,
}
use mitsubishi_cn105esphome.Selects.Choice.{shown, choose_vanes-shown}
use mitsubishi_cn105esphome.Selects.Airflow.{choose_airflow-answered}

abbrev new_select : Chosen
new_select = record { options = []; current = "" }

abbrev no_selects : Selects Chosen
no_selects = record {
  vertical_vane_select = none;
  horizontal_vane_select = none;
  airflow_control_select = none;
}

-- One of the three configured options is no label.
abbrev configured : List String
configured = "←" ∷ "UP" ∷ "SWING" ∷ []

configured_options : horizontal_options configured ≡ "←" ∷ "SWING" ∷ []
unfolding horizontal_options
configured_options = refl

abbrev reported_vanes : HeatpumpSettings Fixed
reported_vanes = record no_settings { vane = HpVaneMode.v4; wide_vane = HpWideVaneMode.left }

choose_vanes-shown_example :
    let ready =
      set_horizontal_vane_select chosen new_select configured
        (set_vertical_vane_select chosen new_select no_selects) in
    let after = update_extra_select_components chosen reported_vanes ready in
    (shown chosen chosen-IsSelect after.vertical_vane_select ≡ some "↓")
    × (shown chosen chosen-IsSelect after.horizontal_vane_select ≡ some "←")
unfolding horizontal_options choose_vane choose_wide_vane set_vane_setting set_wide_vane_setting
    flag_change enum_from_str
choose_vanes-shown_example =
    choose_vanes-shown chosen chosen-IsSelect 1000 2000 "↓" "←" configured new_select new_select
      no_selects commanded reported_vanes refl refl refl refl

abbrev nothing_wanted : WantedHeatpumpRunStates
nothing_wanted = record {
  airflow_control = HpAirflowControl.unknown;
  has_changed = false;
  has_been_sent = false;
  last_change = 0;
}

-- The wide vane swings, so that the choice is refused.
choose_airflow-answered_example :
    let ready = set_airflow_control_select chosen new_select no_selects in
    let (w', after) =
      choose_airflow chosen 1000 "DIRECT" HpWideVaneMode.swing HpAirflowControl.even
        (nothing_wanted, ready) in
    ((HpWideVaneMode.swing ≡ HpWideVaneMode.airflow_control)
      × (hp_airflow_control_to_str w'.airflow_control ≡ "DIRECT")
      × (w'.has_changed ≡ true)
      × (w'.has_been_sent ≡ false)
      × (w'.last_change ≡ 1000)
      × (shown chosen chosen-IsSelect
            (publish_wanted_run_states_state_to_ha chosen w' after).airflow_control_select
          ≡ some "DIRECT"))
    ⊎ ((same HpWideVaneMode.swing HpWideVaneMode.airflow_control ≡ false)
        × (w' ≡ nothing_wanted)
        × (shown chosen chosen-IsSelect after.airflow_control_select ≡ (
            if same HpAirflowControl.even HpAirflowControl.unknown
            then shown chosen chosen-IsSelect ready.airflow_control_select
            else some (hp_airflow_control_to_str HpAirflowControl.even))))
choose_airflow-answered_example =
    choose_airflow-answered chosen chosen-IsSelect 1000 "DIRECT" HpWideVaneMode.swing
      HpAirflowControl.even nothing_wanted new_select no_selects refl
