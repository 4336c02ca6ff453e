-- ===== src/Functions/Tests.antt =====
-- Runs of components/cn105/heatpump_functions.cpp on functions that hold one code.
use mitsubishi_cn105esphome.Prelude.{
  replicate, ◌≡◌, refl, ◌⊎◌, none, true, false, [], ◌∷◌, if◌then◌else◌, ◌==◌, ◌+◌, ◌≤◌, length,
  arith,
}
use mitsubishi_cn105esphome.Functions.{
  HeatpumpFunctions, get_data1, get_data2, get_value, set_value, get_all_codes,
}
use mitsubishi_cn105esphome.Functions.Sending.{
  FunctionParts, functions_set_part1, functions_set_part2, set_functions,
}
use mitsubishi_cn105esphome.Functions.Parts.{again, set_functions-once}
use mitsubishi_cn105esphome.Link.Delivery.{Kept}
use mitsubishi_cn105esphome.Link.Tests.{started}
use mitsubishi_cn105esphome.Parser.Frame.{frame}
use mitsubishi_cn105esphome.Enums.Table.{codes}
use mitsubishi_cn105esphome.Functions.Arrived.{
  functions_text, all_entries, functions_text-all_entries,
}
use mitsubishi_cn105esphome.Functions.Buttons.{Panel, press_set, set_code, set_number}
use mitsubishi_cn105esphome.Functions.Laws.{get_value-set_value}

-- The code 102 with the value 1.
abbrev one_code : HeatpumpFunctions
one_code = record { raw = 9 ∷ []; is_valid1 = true; is_valid2 = true }

one_code_value : get_value one_code 102 ≡ 1
unfolding get_value
one_code_value = refl

get_value-set_value_example :
    let (g, done) = set_value one_code 102 3 in
    ((done ≡ true) × (get_value g 102 ≡ (if 102 == 102 then 3 else get_value one_code 102)))
    ⊎ ((done ≡ false) × (g ≡ one_code))
get_value-set_value_example = get_value-set_value one_code 102 3 102

-- Every code is 102, with the value 1.
abbrev full : HeatpumpFunctions
full = record { raw = replicate 30 9; is_valid1 = true; is_valid2 = true }

abbrev no_parts : FunctionParts
no_parts = record {
  pending_functions_packet2 = [];
  functions_part2_pending = false;
  fn_set_part2 = none;
}

-- The acknowledgement comes before the timer.
set_functions-once_example :
    let r = (set_functions 1000 full no_parts started).0 in
    let e = again (1200 ∷ 1500 ∷ []) r in
    Kept (frame 0x41 0x01 0x30 (functions_set_part1 ∷ get_data1 full)) true 1000 4000 started r.1
    × Kept (frame 0x41 0x01 0x30 (functions_set_part2 ∷ get_data2 full)) true 1200 4000 r.1 e.1
    × (e.0.functions_part2_pending ≡ false)
    × (e.0.fn_set_part2 ≡ none)
set_functions-once_example =
    set_functions-once 1000 1200 (1500 ∷ []) full no_parts started refl refl

functions_text-all_entries_example :
    (functions_text full ≡ all_entries full (get_all_codes full))
    × (length (functions_text full) + 1 ≤ 256)
functions_text-all_entries_example = functions_text-all_entries full (omega arith)

-- "102: 1 "
one_code_text : functions_text one_code ≡ codes "102: 1 "
unfolding functions_text get_all_codes get_value
one_code_text = refl

abbrev panel : Panel
panel = record {
  functions = one_code;
  functions_code = 0;
  functions_value = 0;
  is_get_functions = false;
  is_set_functions = false;
  functions_sensor = none;
}

-- The code 102 is given the value 3.
button_stores : (press_set (set_number 3 (set_code 102 panel))).functions.raw ≡ 11 ∷ []
unfolding press_set set_code set_number set_value
button_stores = refl
