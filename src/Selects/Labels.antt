-- ===== src/Selects/Labels.antt =====
-- components/cn105/extra_components.cpp: an option that a select offers is the label of a value that the
-- protocol knows.
use Prim.Native.String.{String}
use text.Mathlib.TextEquality.{eq_iff}
use mitsubishi_cn105esphome.Prelude.{
  ◌≡◌, refl, sym, subst, true, false, ◌||◌, inl, inr, Bool-cases, some, List, [], ◌∷◌, All,
}
use mitsubishi_cn105esphome.Prelude.Select.{same_text, offers}
use mitsubishi_cn105esphome.Enums.Kinds.{
  HpVaneMode, HpWideVaneMode, HpAirflowControl, same, vane_enum, wide_vane_enum,
  airflow_control_enum,
}
use mitsubishi_cn105esphome.Enums.Table.{enum_to_str, enum_from_str}
use mitsubishi_cn105esphome.Enums.Tables.{vane_table, wide_vane_table, airflow_control_table}
use mitsubishi_cn105esphome.Enums.Wrappers.{
  hp_vane_to_str, hp_vane_from_str, hp_wide_vane_to_str, hp_wide_vane_from_str,
  hp_airflow_control_to_str, hp_airflow_control_from_str,
}
use mitsubishi_cn105esphome.Selects.{labels, is_label, valid_options, horizontal_options}

-- A text that stands for a value other than the sentinel, and is the value's label.
abbrev pub NamesVane : String → Type 0
NamesVane o =
    (hp_vane_to_str (hp_vane_from_str (some o)) ≡ o)
    × (same (hp_vane_from_str (some o)) HpVaneMode.unknown ≡ false)

abbrev pub NamesWideVane : String → Type 0
NamesWideVane o =
    (hp_wide_vane_to_str (hp_wide_vane_from_str (some o)) ≡ o)
    × (same (hp_wide_vane_from_str (some o)) HpWideVaneMode.unknown ≡ false)

abbrev pub NamesAirflow : String → Type 0
NamesAirflow o =
    (hp_airflow_control_to_str (hp_airflow_control_from_str (some o)) ≡ o)
    × (same (hp_airflow_control_from_str (some o)) HpAirflowControl.unknown ≡ false)

-- What holds of all options holds of one that is offered.
offered :
    (P : String → Type 0) (os : List String) (o : String) → All P os → offers os o ≡ true → P o
offered P [] o h e = absurd (differ e)
  where
    differ : false ≡ true → ⊥
    differ k = cc
offered P (x ∷ os) o h e = elim (Bool-cases (same_text o x)) [
  | inl is ↦ subst P (sym ((eq_iff o x).0 is)) h.0
  | inr other ↦ offered P os o h.1 (subst (λ b. b || offers os o ≡ true) other e)
]

pub vane_label : (o : String) → offers (labels vane_table) o ≡ true → NamesVane o
unfolding enum_to_str enum_from_str
vane_label o e =
    offered NamesVane (labels vane_table) o
      (
        (refl, refl),
        (
          (refl, refl),
          ((refl, refl), ((refl, refl), ((refl, refl), ((refl, refl), ((refl, refl), tt))))),
        ),
      )
      e

wide_vane_labels : All NamesWideVane (labels wide_vane_table)
unfolding enum_to_str enum_from_str
wide_vane_labels = (
  (refl, refl),
  (
    (refl, refl),
    (
      (refl, refl),
      ((refl, refl), ((refl, refl), ((refl, refl), ((refl, refl), ((refl, refl), tt))))),
    ),
  ),
)

pub airflow_label : (o : String) → offers (labels airflow_control_table) o ≡ true → NamesAirflow o
unfolding enum_to_str enum_from_str
airflow_label o e =
    offered NamesAirflow (labels airflow_control_table) o
      ((refl, refl), ((refl, refl), ((refl, refl), tt))) e

-- The configured options that are kept are labels.
is_label-Names : (o : String) → is_label wide_vane_table o ≡ true → NamesWideVane o
is_label-Names o e = offered NamesWideVane (labels wide_vane_table) o wide_vane_labels e

valid_options-Names : (os : List String) → All NamesWideVane (valid_options os)
valid_options-Names [] = tt
valid_options-Names (o ∷ os) = elim (Bool-cases (is_label wide_vane_table o)) [
  | inl is ↦ rw is (is_label-Names o is, valid_options-Names os)
  | inr other ↦ rw other (valid_options-Names os)
]

pub wide_vane_label :
    (os : List String) (o : String) → offers (horizontal_options os) o ≡ true → NamesWideVane o
unfolding horizontal_options
wide_vane_label [] o e = offered NamesWideVane (labels wide_vane_table) o wide_vane_labels e
wide_vane_label (x ∷ os) o e =
    offered NamesWideVane (valid_options (x ∷ os)) o (valid_options-Names (x ∷ os)) e
