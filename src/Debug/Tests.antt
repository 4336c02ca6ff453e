-- ===== src/Debug/Tests.antt =====
-- Runs of `hp_packet_debug` of components/cn105/utils.cpp.
use mitsubishi_cn105esphome.Prelude.{◌≡◌, refl, some, arith, [], ◌∷◌, replicate}
use mitsubishi_cn105esphome.Enums.Table.{codes}
use mitsubishi_cn105esphome.Debug.{Line, hp_packet_debug}
use mitsubishi_cn105esphome.Debug.Codes.{hp_functions_debug}
use mitsubishi_cn105esphome.Functions.Arrived.{digits}
use mitsubishi_cn105esphome.Debug.Sizes.{whole_line, hp_packet_debug-whole}

-- The longest label, 19 characters.
longest_label :
    hp_packet_debug (0xFC ∷ 0x5B ∷ 0x01 ∷ 0x30 ∷ 0x01 ∷ 0x04 ∷ 0xA0 ∷ [])
    ≡ Line.full (codes "FC 5B 01 30 01 ") (codes "04 ") (codes "A0") (codes "CONN_INST:ErrorInfo")
unfolding hp_packet_debug
longest_label = refl

hp_packet_debug-whole_example :
    hp_packet_debug (0xFC ∷ replicate 127 0x62) ≡ whole_line (0xFC ∷ replicate 127 0x62)
hp_packet_debug-whole_example = hp_packet_debug-whole (0xFC ∷ replicate 127 0x62) (omega arith)

-- The codes 102 and 107 with the values 1 and 2.
two_codes : hp_functions_debug (0x20 ∷ 0x09 ∷ 0x1E ∷ []) ≡ some (codes "20", codes " 102:1 107:2")
unfolding hp_functions_debug digits
two_codes = refl
