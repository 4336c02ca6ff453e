-- ===== src/Functions/Buttons.antt =====
-- components/cn105/extra_components.cpp, with functions_button.h and functions_number.h: the two buttons and the
-- two numbers by which the functions are read and written from Home Assistant. A number's value is given as
-- the integer that it is cut to.
use Prim.Native.String.{String}
use mitsubishi_cn105esphome.Prelude.{
  ℕ, Bool, true, false, not, ◌≡◌, refl, ◌⊎◌, inl, inr, Option, none, some, if◌then◌else◌, ◌==◌,
  Bool-cases,
}
use mitsubishi_cn105esphome.Functions.{HeatpumpFunctions, is_valid, get_value, set_value}
use mitsubishi_cn105esphome.Functions.Laws.{get_value-set_value}

-- `functions`, `functions_code_`, `functions_value_`, the two requests of loop(), and the functions sensor
-- with the text that it shows.
pub record Panel : Type 0 where
  pub functions : HeatpumpFunctions
  pub functions_code : ℕ
  pub functions_value : ℕ
  pub is_get_functions : Bool
  pub is_set_functions : Bool
  pub functions_sensor : Option String

abbrev pub say : String → Panel → Panel
say text p = record p {
  functions_sensor = elim p.functions_sensor [ none ↦ none | some _ ↦ some text ];
}

unfoldable pub press_get : Panel → Panel
press_get p = record (say "Operation pending, please wait." p) { is_get_functions = true }

unfoldable pub press_set : Panel → Panel
press_set p =
    if not (is_valid p.functions)
    then say "Please get the functions first." p
    else record (say "Operation pending, please wait."
        (record p { functions = (set_value p.functions p.functions_code p.functions_value).0 })) {
          is_set_functions = true;
        }

unfoldable pub set_code : ℕ → Panel → Panel
set_code x p = record p { functions_code = x }

unfoldable pub set_number : ℕ → Panel → Panel
set_number x p = record p { functions_value = x }

-- A code and a value are entered, and the button is pressed. If the functions have been read, they are to be
-- stored, and the code has the value while every other code keeps its own, or nothing changes if the code or
-- the value is refused; if they have not been read, nothing is stored.
pub press_set-stores :
    (code value k : ℕ) (p : Panel)
    → let q = press_set (set_number value (set_code code p)) in
      let done = (set_value p.functions code value).1 in
      ((is_valid p.functions ≡ true)
        × (q.is_set_functions ≡ true)
        × (((done ≡ true)
              × (get_value q.functions k ≡ (if code == k then value else get_value p.functions k)))
            ⊎ ((done ≡ false) × (q.functions ≡ p.functions))))
      ⊎ ((is_valid p.functions ≡ false)
          × (q.is_set_functions ≡ p.is_set_functions)
          × (q.functions ≡ p.functions))
unfolding press_set set_number set_code
press_set-stores code value k p = elim (Bool-cases (is_valid p.functions)) [
  | inl e ↦ inl (rw e (refl, refl, get_value-set_value p.functions code value k))
  | inr e ↦ inr (rw e (refl, refl, refl))
]
