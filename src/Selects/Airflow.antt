-- ===== src/Selects/Airflow.antt =====
-- components/cn105/extra_components.cpp, `set_airflow_control_select`: an airflow control is asked for only while
-- the wide vane leaves it to the unit, and otherwise the select goes back to what the unit reports.
use Prim.Native.String.{String}
use text.Mathlib.TextEquality.{eq_iff}
use mitsubishi_cn105esphome.Prelude.{
  ℕ, ◌≡◌, refl, ap, ◌∙◌, arith, Bool, true, false, not, ◌⊎◌, some, Bool-cases, inl, inr,
  if◌then◌else◌, if_no,
}
use mitsubishi_cn105esphome.Prelude.Select.{Select, IsSelect, offers}
use mitsubishi_cn105esphome.Enums.Kinds.{
  HpWideVaneMode, HpAirflowControl, same, wide_vane_enum, airflow_control_enum,
}
use mitsubishi_cn105esphome.Enums.Table.{enum_to_str}
use mitsubishi_cn105esphome.Enums.Wrappers.{hp_airflow_control_to_str}
use mitsubishi_cn105esphome.Enums.Tables.{airflow_control_table}
use mitsubishi_cn105esphome.Settings.{WantedHeatpumpRunStates}
use mitsubishi_cn105esphome.Selects.{
  Selects, labels, set_airflow_control_select, set_airflow_control_setting, choose_airflow,
  publish_select_option, publish_unchecked, publish_wanted_run_states_state_to_ha,
}
use mitsubishi_cn105esphome.Climate.Taking.{same_wide_vane}
use mitsubishi_cn105esphome.Selects.Labels.{airflow_label}
use mitsubishi_cn105esphome.Selects.Choice.{shown}

-- Every airflow control that the unit can report is offered, and the sentinel is not.
airflow_offered :
    (a : HpAirflowControl)
    → offers (labels airflow_control_table) (hp_airflow_control_to_str a)
      ≡ not (same a HpAirflowControl.unknown)
unfolding enum_to_str
airflow_offered HpAirflowControl.even = refl
airflow_offered HpAirflowControl.indirect = refl
airflow_offered HpAirflowControl.direct = refl
airflow_offered HpAirflowControl.unknown = refl

if_not : {A : Type 0} (b : Bool) (x y : A) → (if not b then x else y) ≡ (if b then y else x)
if_not true x y = refl
if_not false x y = refl

module _ (se : Select) (law : IsSelect se) where
  open se use {S, set_options, has_option, current_option, publish_state}

  publish_unchecked-shown :
      (o : String) (s : S)
      → has_option s o ≡ true
      → shown se law (publish_unchecked se o (some s)) ≡ some o
  unfolding publish_unchecked
  publish_unchecked-shown o s h =
      ground (arith, law.publish_shown o s h, eq_iff (current_option s) o)

  publish_select_option-shown :
      (o : String) (s : S)
      → shown se law (publish_select_option se o (some s))
        ≡ (if has_option s o then some o else some (current_option s))
  unfolding publish_select_option
  publish_select_option-shown o s = ground (arith, law.publish_shown o s)

  -- If an option of the airflow select is chosen, then either the unit reports the wide vane that leaves the
  -- airflow to it: the option is what is wanted from then on, to be sent, and the select shows it once it is
  -- sent; or it reports another one: nothing is wanted that was not wanted before, and the select shows the
  -- airflow control that the unit reports, or what it showed if none is known.
  pub choose_airflow-answered :
      (now : ℕ) (setting : String) (wide : HpWideVaneMode) (reported : HpAirflowControl)
      (w : WantedHeatpumpRunStates) (s : S) (sel : Selects S)
      → offers (labels airflow_control_table) setting ≡ true
      → let ready = set_airflow_control_select se s sel in
        let (w', after) = choose_airflow se now setting wide reported (w, ready) in
        ((wide ≡ HpWideVaneMode.airflow_control)
          × (hp_airflow_control_to_str w'.airflow_control ≡ setting)
          × (w'.has_changed ≡ true)
          × (w'.has_been_sent ≡ false)
          × (w'.last_change ≡ now)
          × (shown se law (publish_wanted_run_states_state_to_ha se w' after).airflow_control_select
              ≡ some setting))
        ⊎ ((same wide HpWideVaneMode.airflow_control ≡ false)
            × (w' ≡ w)
            × (shown se law after.airflow_control_select ≡ (
                if same reported HpAirflowControl.unknown
                then shown se law ready.airflow_control_select
                else some (hp_airflow_control_to_str reported))))
  unfolding choose_airflow set_airflow_control_select set_airflow_control_setting
      publish_wanted_run_states_state_to_ha
  choose_airflow-answered now setting wide reported w s sel offered =
      let sv = set_options (labels airflow_control_table) s in
      let (named, known) = airflow_label setting offered in
      elim (Bool-cases (same wide HpWideVaneMode.airflow_control)) [
        | inl e ↦ inl (
            rw e (
              same_wide_vane wide HpWideVaneMode.airflow_control e,
              named,
              refl,
              refl,
              refl,
              ap (λ (t : Selects S). shown se law t.airflow_control_select) (if_no _ _ _ known)
                  ∙ ap (λ (o : String). shown se law (publish_unchecked se o (some sv))) named
                  ∙ publish_unchecked-shown setting sv
                      (law.set_options_offers (labels airflow_control_table) s setting ∙ offered),
            ))
        | inr e ↦ inr (
            rw e (
              refl,
              refl,
              publish_select_option-shown (hp_airflow_control_to_str reported) sv
                  ∙ ap
                      (λ (b : Bool).
                        if b
                        then some (hp_airflow_control_to_str reported)
                        else shown se law (some sv))
                      (law.set_options_offers (labels airflow_control_table) s
                          (hp_airflow_control_to_str reported)
                        ∙ airflow_offered reported)
                  ∙ if_not (same reported HpAirflowControl.unknown) _ _,
            ))
      ]
