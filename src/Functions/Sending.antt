-- ===== src/Functions/Sending.antt =====
-- components/cn105/heatpump_functions.cpp: the two packets that store the functions in the unit. Part 2
-- waits for the acknowledgement of part 1, or for a timer.
use mitsubishi_cn105esphome.Prelude.{
  ℕ, ◌+◌, Bool, true, false, not, Option, none, List, ◌++◌, take, drop, set, length, if◌then◌else◌,
}
use mitsubishi_cn105esphome.Functions.{HeatpumpFunctions, is_valid, get_data1, get_data2}
use mitsubishi_cn105esphome.Packet.{prepare_set_packet, add_checksum}
use mitsubishi_cn105esphome.Link.{Link, due, write_packet}

abbrev pub functions_set_part1 : ℕ
functions_set_part1 = 0x1F

abbrev pub functions_set_part2 : ℕ
functions_set_part2 = 0x21

-- `pending_functions_packet2_`, `functions_part2_pending_` and the timer `fn_set_part2`.
pub record FunctionParts : Type 0 where
  pub pending_functions_packet2 : List ℕ
  pub functions_part2_pending : Bool
  pub fn_set_part2 : Option ℕ

-- `memcpy(&packet[at], bytes, …)`.
abbrev pub put_bytes : ℕ → List ℕ → List ℕ → List ℕ
put_bytes at bytes packet = take at packet ++ bytes ++ drop (at + length bytes) packet

unfoldable pub functions_packet : ℕ → List ℕ → List ℕ
functions_packet code bytes = add_checksum (put_bytes 6 bytes (set prepare_set_packet 5 code))

unfoldable pub set_functions :
    ℕ → HeatpumpFunctions → FunctionParts → Link → (FunctionParts × Link) × Bool
unfolding functions_packet get_data1 get_data2
set_functions now f s l = if not (is_valid f) then ((s, l), false) else (
  (
    record s {
      pending_functions_packet2 = functions_packet functions_set_part2 (get_data2 f);
      functions_part2_pending = true;
      fn_set_part2 = due now 500;
    },
    (write_packet now (functions_packet functions_set_part1 (get_data1 f)) true l).0,
  ),
  true,
)

-- Called by the acknowledgement and by the timer.
unfoldable pub send_pending_functions_packet2 : ℕ → FunctionParts × Link → FunctionParts × Link
send_pending_functions_packet2 now (s, l) = if not s.functions_part2_pending then (s, l) else (
  record s { functions_part2_pending = false; fn_set_part2 = none },
  (write_packet now s.pending_functions_packet2 true l).0,
)
