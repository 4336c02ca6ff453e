-- ===== src/Hardware/Choice.antt =====
-- components/cn105/hardware_setting_select.cpp: an option that is chosen is the option that is shown once
-- the unit has taken it.
use Prim.Native.String.{String}
use text.Mathlib.TextEquality.{eq_iff}
use mitsubishi_cn105esphome.Prelude.{
  ℕ, ◌≡◌, ◌≢◌, inl, inr, refl, ap, sym, ◌∙◌, arith, Bool, true, false, none, some, List, [], ◌∷◌,
  if◌then◌else◌, ltb, ◌==◌, length, lt→ltb, ◌<◌,
}
use mitsubishi_cn105esphome.Prelude.Select.{Select, IsSelect}
use mitsubishi_cn105esphome.Functions.{
  HeatpumpFunctions, get_value, set_value, set_data1, set_data2, get_data1, get_data2, search_value,
  bad_code, max_function_code_count,
}
use mitsubishi_cn105esphome.Functions.Parts.{set_data-get_data}
use mitsubishi_cn105esphome.Functions.Laws.{get_value-set_value, length-set_value}
use mitsubishi_cn105esphome.Hardware.{
  HardwareSettingSelect, label_of, value_of_label, setting_changed, control, show_option,
  update_state_from_value, show_setting,
}

-- No entry of the map has the label.
abbrev pub Unlabelled : String → List (ℕ × String) → Type 0
Unlabelled label [] = Unit
Unlabelled label ((v, l) ∷ m) = (l ≢ label) × Unlabelled label m

-- Every label stands once.
abbrev pub OnceEach : List (ℕ × String) → Type 0
OnceEach [] = Unit
OnceEach ((v, l) ∷ m) = Unlabelled l m × OnceEach m

Unlabelled-none :
    (label : String) (m : List (ℕ × String)) → Unlabelled label m → value_of_label m label ≡ none
Unlabelled-none label [] h = refl
Unlabelled-none label ((v, l) ∷ m) h =
    ground (arith, eq_iff l label, Unlabelled-none label m h.1, h.0)

-- A label that the map has is not missing in it.
labelled :
    (m : List (ℕ × String)) (label l : String) (value : ℕ)
    → Unlabelled l m
    → label_of m value ≡ some label
    → l ≢ label
labelled [] label l value h e = cc
labelled ((v, k) ∷ m) label l value h e = ground (arith, labelled m label l value h.1, h.0)

value_of_label-label_of :
    (m : List (ℕ × String)) (value : ℕ) (label : String)
    → OnceEach m
    → label_of m value ≡ some label
    → value_of_label m label ≡ some value
value_of_label-label_of [] value label h e = cc
value_of_label-label_of ((v, l) ∷ m) value label h e = ground (
  arith,
  eq_iff l label,
  labelled m label l value h.0,
  Unlabelled-none l m h.0,
  value_of_label-label_of m value label h.1,
)

true-ne-false : true ≢ false
true-ne-false h = cc

-- The values depend on the bytes alone.
get_value_cong :
    (f g : HeatpumpFunctions) (code : ℕ) → f.raw ≡ g.raw → get_value f code ≡ get_value g code
unfolding get_value
get_value_cong f g code e = ap (λ bs. if bad_code code then 0 else search_value bs code) e

stored_positive :
    (f : HeatpumpFunctions) (code value : ℕ) → (set_value f code value).1 ≡ true → 0 < value
unfolding set_value
stored_positive f code value h = ground arith

module _ (se : Select) (law : IsSelect se) where
  open se use {S, current_option, has_option, publish_state}

  show_option-shown :
      (label : String) (s : HardwareSettingSelect S)
      → has_option s.select label ≡ true
      → current_option (show_option se (some label) s).select ≡ label
  unfolding show_option
  show_option-shown label s h =
      ground (arith, law.publish_shown label s.select h, eq_iff (current_option s.select) label)

  show_setting-same :
      (f g : HeatpumpFunctions) (s : HardwareSettingSelect S)
      → get_value f s.code ≡ get_value g s.code
      → show_setting se f s ≡ show_setting se g s
  unfolding show_setting
  show_setting-same f g s e =
      ap (λ (val : ℕ). if ltb 0 val then update_state_from_value se val s else s) e

  show_setting-value :
      (f : HeatpumpFunctions) (s : HardwareSettingSelect S) (value : ℕ) (label : String)
      → get_value f s.code ≡ value
      → 0 < value
      → label_of s.mapping value ≡ some label
      → has_option s.select label ≡ true
      → current_option (show_setting se f s).select ≡ label
  unfolding show_setting update_state_from_value
  show_setting-value f s value label e p l h =
      rw (e, lt→ltb 0 value p, l) (show_option-shown label s h)

  -- A label that is chosen, of a setting that is enabled and whose labels differ, and that stands for a
  -- value which the functions of the unit can take, asks for the functions to be stored; once the unit
  -- has reported the two halves that it was sent, the select shows the label, and a select of another
  -- code is treated as it was before.
  pub control-shown :
      (label : String) (value : ℕ) (s t : HardwareSettingSelect S) (f g : HeatpumpFunctions)
      (asked : Bool)
      → s.enabled ≡ true
      → s.failed ≡ false
      → OnceEach s.mapping
      → label_of s.mapping value ≡ some label
      → has_option s.select label ≡ true
      → length f.raw ≡ max_function_code_count
      → (set_value f s.code value).1 ≡ true
      → t.code ≢ s.code
      → let (f', stored) = control label s (f, asked) in
        let reported = set_data2 (set_data1 g (get_data1 f')) (get_data2 f') in
        (stored ≡ true)
        × (current_option (show_setting se reported s).select ≡ label)
        × (show_setting se reported t ≡ show_setting se f t)
  control-shown label value s t f g asked on ok once is_label offered full taken ne = rw sent (
    refl,
    show_setting-value _ s value label (reads s.code ∙ kept s.code ∙ ground arith)
        (stored_positive f s.code value taken) is_label offered,
    show_setting-same _ f t (reads t.code ∙ kept t.code ∙ ground (arith, ne)),
  )
    where
      f' : HeatpumpFunctions
      f' = (set_value f s.code value).0

      sent : control label s (f, asked) ≡ (f', true)
      sent =
          unfold control setting_changed in
          ground (arith, value_of_label-label_of s.mapping value label once is_label)

      kept : (k : ℕ) → get_value f' k ≡ (if s.code == k then value else get_value f k)
      kept k = elim (get_value-set_value f s.code value k) [
        | inl (done, e) ↦ e
        | inr (refused, e) ↦ absurd (true-ne-false (sym taken ∙ refused))
      ]

      reads :
          (code : ℕ)
          → get_value (set_data2 (set_data1 g (get_data1 f')) (get_data2 f')) code
            ≡ get_value f' code
      reads code =
          get_value_cong _ f' code
            (set_data-get_data f' g (length-set_value f s.code value ∙ full)).0
