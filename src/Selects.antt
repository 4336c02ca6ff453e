-- ===== src/Selects.antt =====
-- components/cn105/extra_components.cpp, with van_orientation_select.h, utils.cpp (`publish_select_option_`),
-- hp_readings.cpp (`update_extra_select_components`, the airflow control of a response), hp_writings.cpp
-- (`publish_wanted_run_states_state_to_ha`) and climate_controls.cpp (`set_airflow_control_setting`): the three
-- selects of the vanes and of the airflow control. A select that is not configured is `none`. What ESPHome's
-- select does is a parameter (Prelude/Select).
pub mod Labels
pub mod Choice
pub mod Airflow
pub mod Tests
use Prim.Native.String.{String}
use mitsubishi_cn105esphome.Prelude.{
  ℕ, Bool, true, false, not, ◌&&◌, ◌||◌, Option, none, some, List, [], ◌∷◌, map, if◌then◌else◌,
}
use mitsubishi_cn105esphome.Prelude.Select.{Select, same_text}
use mitsubishi_cn105esphome.Enums.Kinds.{
  HpVaneMode, HpWideVaneMode, HpAirflowControl, same, vane_enum, wide_vane_enum,
  airflow_control_enum,
}
use mitsubishi_cn105esphome.Enums.Table.{EnumTable}
use mitsubishi_cn105esphome.Enums.Tables.{vane_table, wide_vane_table, airflow_control_table}
use mitsubishi_cn105esphome.Enums.Wrappers.{
  hp_vane_to_str, hp_wide_vane_to_str, hp_airflow_control_to_str, hp_airflow_control_from_str,
}
use mitsubishi_cn105esphome.Settings.{HeatpumpSettings, WantedHeatpumpRunStates}
use mitsubishi_cn105esphome.Climate.{Climate, set_vane_setting, set_wide_vane_setting, flag_change}

pub record Selects (S : Type 0) : Type 0 where
  pub vertical_vane_select : Option S
  pub horizontal_vane_select : Option S
  pub airflow_control_select : Option S

-- The labels of a table, in its order.
abbrev pub labels : {E : Type 0} → EnumTable E → List String
labels table = map (λ e. e.label) table

-- The inner loop of `set_horizontal_vane_select`.
abbrev pub is_label : {E : Type 0} → EnumTable E → String → Bool
is_label [] option = false
is_label (entry ∷ table) option = same_text option entry.label || is_label table option

-- The options that are in the table.
abbrev pub valid_options : List String → List String
valid_options [] = []
valid_options (o ∷ os) =
    if is_label wide_vane_table o then o ∷ valid_options os else valid_options os

-- `horizontal_vane_options_strings_`.
unfoldable pub horizontal_options : List String → List String
horizontal_options [] = labels wide_vane_table
horizontal_options (o ∷ os) = valid_options (o ∷ os)

module _ {F : Type 0} where
  -- The callbacks of the two vane selects.
  unfoldable pub choose_vane : ℕ → String → Climate F → Climate F
  choose_vane now setting c = flag_change now (set_vane_setting c setting)

  unfoldable pub choose_wide_vane : ℕ → String → Climate F → Climate F
  choose_wide_vane now setting c = flag_change now (set_wide_vane_setting c setting)

unfoldable pub set_airflow_control_setting :
    String → WantedHeatpumpRunStates → WantedHeatpumpRunStates
set_airflow_control_setting setting w = record w {
  airflow_control = hp_airflow_control_from_str (some setting);
}

module _ (se : Select) where
  open se use {S, set_options, has_option, current_option, publish_state}

  unfoldable pub set_vertical_vane_select : S → Selects S → Selects S
  set_vertical_vane_select s sel = record sel {
    vertical_vane_select = some (set_options (labels vane_table) s);
  }

  unfoldable pub set_horizontal_vane_select : S → List String → Selects S → Selects S
  unfolding horizontal_options
  set_horizontal_vane_select s options sel = record sel {
    horizontal_vane_select = some (set_options (horizontal_options options) s);
  }

  unfoldable pub set_airflow_control_select : S → Selects S → Selects S
  set_airflow_control_select s sel = record sel {
    airflow_control_select = some (set_options (labels airflow_control_table) s);
  }

  unfoldable pub publish_select_option : String → Option S → Option S
  publish_select_option option none = none
  publish_select_option option (some s) =
      if not (has_option s option) then some s else some (publish_state option s)

  -- `has_changed(select->current_option(), …)`, and then the option is published.
  unfoldable pub publish_changed : String → Option S → Option S
  unfolding publish_select_option
  publish_changed option none = none
  publish_changed option (some s) =
      if not (same_text (current_option s) option)
      then publish_select_option option (some s)
      else some s

  unfoldable pub update_extra_select_components :
      {F : Type 0} → HeatpumpSettings F → Selects S → Selects S
  unfolding publish_changed
  update_extra_select_components settings sel = record sel {
    vertical_vane_select =
        if same settings.vane HpVaneMode.unknown
        then sel.vertical_vane_select
        else publish_changed (hp_vane_to_str settings.vane) sel.vertical_vane_select;
    horizontal_vane_select =
        if same settings.wide_vane HpWideVaneMode.unknown
        then sel.horizontal_vane_select
        else publish_changed (hp_wide_vane_to_str settings.wide_vane) sel.horizontal_vane_select;
  }

  -- The callback of the airflow select, with the wide vane and the airflow control that the unit reports.
  unfoldable pub choose_airflow :
      ℕ
      → String
      → HpWideVaneMode
      → HpAirflowControl
      → WantedHeatpumpRunStates × Selects S
      → WantedHeatpumpRunStates × Selects S
  unfolding publish_select_option set_airflow_control_setting
  choose_airflow now setting wide_vane reported (w, sel) =
      if same wide_vane HpWideVaneMode.airflow_control
      then (
        record (set_airflow_control_setting setting w) {
          has_changed = true;
          has_been_sent = false;
          last_change = now;
        },
        sel,
      )
      else (
        w,
        record sel {
          airflow_control_select =
              publish_select_option (hp_airflow_control_to_str reported) sel.airflow_control_select;
        },
      )

  -- The airflow control of a settings response that differs from the one that was reported before.
  unfoldable pub show_airflow : HpAirflowControl → HpAirflowControl → Selects S → Selects S
  unfolding publish_select_option
  show_airflow airflow reported sel = if same airflow reported then sel else record sel {
    airflow_control_select =
        publish_select_option (hp_airflow_control_to_str airflow) sel.airflow_control_select;
  }

  -- `has_changed(…)` and `publish_state` without the test of `publish_select_option_`.
  unfoldable pub publish_unchecked : String → Option S → Option S
  publish_unchecked option none = none
  publish_unchecked option (some s) =
      if not (same_text (current_option s) option) then some (publish_state option s) else some s

  unfoldable pub publish_wanted_run_states_state_to_ha :
      WantedHeatpumpRunStates → Selects S → Selects S
  unfolding publish_unchecked
  publish_wanted_run_states_state_to_ha w sel =
      if same w.airflow_control HpAirflowControl.unknown then sel else record sel {
        airflow_control_select =
            publish_unchecked (hp_airflow_control_to_str w.airflow_control)
              sel.airflow_control_select;
      }
