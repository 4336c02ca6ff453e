-- ===== src/Functions.antt =====
-- components/cn105/heatpump_functions.h and heatpump_functions.cpp: the installer settings, as thirty
-- bytes that hold a code and a value each.
pub mod Laws
pub mod Sending
pub mod Parts
pub mod Arrived
pub mod Buttons
pub mod Tests
use mitsubishi_cn105esphome.Prelude.{
  ℕ, zero, suc, ◌+◌, ◌-◌, ◌*◌, ◌/◌, ◌%◌, Bool, true, false, ◌&&◌, ◌||◌, List, [], ◌∷◌, ◌++◌, ltb,
  leb, ◌==◌, if◌then◌else◌, take, drop, replicate, map, set, get_or,
}
use mitsubishi_cn105esphome.Prelude.Word.{u8}

abbrev pub max_function_code_count : ℕ
max_function_code_count = 30

pub record HeatpumpFunctions : Type 0 where
  pub raw : List ℕ
  pub is_valid1 : Bool
  pub is_valid2 : Bool

-- `clear`, and the constructor.
unfoldable pub cleared : HeatpumpFunctions
cleared = record { raw = replicate max_function_code_count 0; is_valid1 = false; is_valid2 = false }

abbrev pub is_valid : HeatpumpFunctions → Bool
is_valid f = f.is_valid1 && f.is_valid2

-- `memcpy(raw, data, 15)`, for data of at least 15 bytes.
unfoldable pub set_data1 : HeatpumpFunctions → List ℕ → HeatpumpFunctions
set_data1 f bytes = record f { raw = take 15 bytes ++ drop 15 f.raw; is_valid1 = true }

unfoldable pub set_data2 : HeatpumpFunctions → List ℕ → HeatpumpFunctions
set_data2 f bytes = record f { raw = take 15 f.raw ++ take 15 bytes; is_valid2 = true }

unfoldable pub get_data1 : HeatpumpFunctions → List ℕ
get_data1 f = take 15 f.raw

unfoldable pub get_data2 : HeatpumpFunctions → List ℕ
get_data2 f = take 15 (drop 15 f.raw)

-- `((b >> 2) & 0xff) + 100` and `b & 3` of a byte.
unfoldable pub code_of : ℕ → ℕ
code_of b = b / 4 % 256 + 100

unfoldable pub value_of : ℕ → ℕ
value_of b = b % 4

abbrev pub bad_code : ℕ → Bool
bad_code code = ltb 128 code || ltb code 101

-- The loop of `get_value`.
pub search_value : List ℕ → ℕ → ℕ
unfolding code_of value_of
search_value [] code = 0
search_value (b ∷ bs) code = if code_of b == code then value_of b else search_value bs code

unfoldable pub get_value : HeatpumpFunctions → ℕ → ℕ
unfolding search_value
get_value f code = if bad_code code then 0 else search_value f.raw code

-- The loop of `set_value`; `false` is that no byte has the code.
pub store_value : List ℕ → ℕ → ℕ → List ℕ × Bool
unfolding code_of
store_value [] code value = ([], false)
store_value (b ∷ bs) code value =
    let rest = store_value bs code value in
    if code_of b == code then (u8 ((code - 100) * 4 + value) ∷ bs, true) else (b ∷ rest.0, rest.1)

unfoldable pub set_value : HeatpumpFunctions → ℕ → ℕ → HeatpumpFunctions × Bool
unfolding store_value
set_value f code value =
    if bad_code code
    then (f, false)
    else if ltb value 1 || ltb 3 value
    then (f, false)
    else (record f { raw = (store_value f.raw code value).0 }, (store_value f.raw code value).1)

pub record FunctionCode : Type 0 where
  pub valid : Bool
  pub code : ℕ

unfoldable pub get_all_codes : HeatpumpFunctions → List FunctionCode
unfolding code_of
get_all_codes f =
    map (λ b. record { valid = leb 101 (code_of b) && leb (code_of b) 128; code = code_of b }) f.raw
