-- ===== src/Hardware.antt =====
-- components/cn105/hardware_setting_select.h and hardware_setting_select.cpp: class HardwareSettingSelect, a
-- select for one code of the functions; with its callback in components/cn105/extra_components.cpp
-- (`add_hardware_setting`), and the loop of `functions_arrived` in components/cn105/heatpump_functions.cpp,
-- which shows what the unit reports. Codes and values are not negative.
pub mod Choice
pub mod Tests
use Prim.Native.String.{String}
use mitsubishi_cn105esphome.Prelude.{
  ℕ, Bool, true, false, not, ◌&&◌, ◌||◌, Option, none, some, List, [], ◌∷◌, map, if◌then◌else◌, ltb,
  ◌==◌,
}
use mitsubishi_cn105esphome.Prelude.Select.{Select, same_text}
use mitsubishi_cn105esphome.Functions.{HeatpumpFunctions, get_value, set_value}

-- `mapping_` is a `std::map`: its entries in the order of the values, one for each value. `failed` is
-- `is_failed()`; the callback has been set.
pub record HardwareSettingSelect (S : Type 0) : Type 0 where
  pub code : ℕ
  pub mapping : List (ℕ × String)
  pub select : S
  pub enabled : Bool
  pub failed : Bool

-- `mapping_.find(value)`.
abbrev pub label_of : List (ℕ × String) → ℕ → Option String
label_of [] value = none
label_of ((v, l) ∷ m) value = if v == value then some l else label_of m value

-- `reverse_mapping_`, which the constructor fills in the order of the values: the last entry of a label
-- stays.
abbrev pub value_of_label : List (ℕ × String) → String → Option ℕ
value_of_label [] label = none
value_of_label ((v, l) ∷ m) label = elim (value_of_label m label) [
  | some w ↦ some w
  | none ↦ if same_text l label then some v else none
]

-- The functions, and `is_set_functions_`.
abbrev pub Stored : Type 0
Stored = HeatpumpFunctions × Bool

module _ {S : Type 0} where
  -- The callback that `add_hardware_setting` sets.
  unfoldable pub setting_changed : HardwareSettingSelect S → ℕ → Stored → Stored
  setting_changed s int_value (f, asked) = ((set_value f s.code int_value).0, true)

  unfoldable pub control : String → HardwareSettingSelect S → Stored → Stored
  unfolding setting_changed
  control value s st =
      if not s.enabled || s.failed then st else elim (value_of_label s.mapping value) [
        | none ↦ st
        | some int_value ↦ setting_changed s int_value st
      ]

module _ (se : Select) where
  open se use {S, current_option, publish_state}

  unfoldable pub show_option : Option String → HardwareSettingSelect S → HardwareSettingSelect S
  show_option none s = s
  show_option (some new_state) s =
      let cur = current_option s.select in
      let changed = same_text cur "" || not (same_text cur new_state) in
      if changed then record s { select = publish_state new_state s.select } else s

  unfoldable pub update_state_from_value : ℕ → HardwareSettingSelect S → HardwareSettingSelect S
  unfolding show_option
  update_state_from_value value s = show_option (label_of s.mapping value) s

  -- One round of the loop of `functions_arrived`.
  unfoldable pub show_setting :
      HeatpumpFunctions → HardwareSettingSelect S → HardwareSettingSelect S
  unfolding update_state_from_value
  show_setting f s =
      let val = get_value f s.code in if ltb 0 val then update_state_from_value val s else s

  abbrev pub show_settings :
      HeatpumpFunctions → List (HardwareSettingSelect S) → List (HardwareSettingSelect S)
  show_settings f settings = map (show_setting f) settings
