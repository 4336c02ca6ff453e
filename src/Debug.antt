-- ===== src/Debug.antt =====
-- components/cn105/utils.cpp: the line that `hp_packet_debug` logs for a packet, as bytes of text. It is put
-- together in buffers of fixed size, by `snprintf`, which cuts what does not fit; a size counts the
-- terminating zero. What the log does with the line is ESPHome's.
pub mod Sizes
pub mod Codes
pub mod Tests
use Prim.Native.String.{String}
use mitsubishi_cn105esphome.Prelude.{
  ℕ, ◌+◌, ◌-◌, ◌/◌, ◌%◌, Bool, List, [], ◌∷◌, ◌++◌, ltb, leb, ◌==◌, if◌then◌else◌, length, take,
  drop, get_or,
}
use mitsubishi_cn105esphome.Enums.Table.{codes}

unfoldable pub packet_command_label : ℕ → String
packet_command_label command =
    if command == 0x5A
    then "CONNECT"
    else if command == 0x5B
    then "CONN_INST"
    else if command == 0x41
    then "SET"
    else if command == 0x42
    then "GET"
    else if command == 0x61
    then "ACK"
    else if command == 0x62
    then "RESPONSE"
    else "UNKNOWN"

unfoldable pub packet_subcommand_label : ℕ → String
packet_subcommand_label sub =
    if sub == 0x01
    then ":Start"
    else if sub == 0x02
    then ":Settings"
    else if sub == 0x03
    then ":RoomTemp"
    else if sub == 0x04
    then ":ErrorInfo"
    else if sub == 0x05
    then ":Timers"
    else if sub == 0x06
    then ":Status"
    else if sub == 0x09
    then ":Power"
    else if sub == 0x10
    then ":Hello"
    else if sub == 0x20
    then ":Func1"
    else if sub == 0x22
    then ":Func2"
    else ""

-- `%X` of a digit, and `%02X` of a byte.
abbrev pub hex_digit : ℕ → ℕ
hex_digit n = if ltb n 10 then n + b'0' else n - 10 + b'A'

abbrev pub hex_byte : ℕ → List ℕ
hex_byte b = hex_digit (b / 16) ∷ hex_digit (b % 16) ∷ []

-- `snprintf(buf, size, …)` of a text.
abbrev pub printed : ℕ → List ℕ → List ℕ
printed size text = take (size - 1) text

-- The loop of `append_hex`: `rem` bytes of the buffer are left.
unfoldable pub append_hex : ℕ → List ℕ → List ℕ
append_hex rem [] = []
append_hex rem (b ∷ bs) =
    let text = hex_byte b ++ b' ' ∷ [] in
    let rest = append_hex (rem - length text) bs in
    if leb rem (length text) then printed rem text else text ++ rest

-- The line of a short packet, or the texts of the header, the payload, the checksum and the label.
pub data Line : Type 0 where
  short : List ℕ → Line
  full : List ℕ → List ℕ → List ℕ → List ℕ → Line

unfoldable pub hp_packet_debug : List ℕ → Line
unfolding append_hex packet_command_label packet_subcommand_label
hp_packet_debug packet =
    if ltb (length packet) 5
    then Line.short (append_hex 20 packet)
    else (let label =
          if get_or packet 0 0 == 0xFC
          then packet_command_label (get_or packet 1 0)
          else "UNKNOWN" in
        let sub_label =
          if ltb 5 (length packet) then packet_subcommand_label (get_or packet 5 0) else "" in
        Line.full (append_hex 18 (take 5 packet))
          (if ltb 6 (length packet)
            then append_hex 380 (take (length packet - 6) (drop 5 packet))
            else [])
          (printed 4 (hex_byte (get_or packet (length packet - 1) 0)))
          (printed 20 (codes label ++ codes sub_label)))
