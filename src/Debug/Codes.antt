-- ===== src/Debug/Codes.antt =====
-- components/cn105/utils.cpp: the line that `hp_functions_debug` logs for the functions that a response
-- holds. An entry is put together in a buffer of 16 bytes and the line in one of 128.
use mitsubishi_cn105esphome.Prelude.{
  ℕ, ◌+◌, ◌-◌, ◌*◌, ◌/◌, ◌%◌, ◌<◌, ◌≡◌, refl, arith, ◌&&◌, Option, none, some, List, [], ◌∷◌, ◌++◌,
  ltb, if◌then◌else◌, length, length-append, drop, get_or,
}
use mitsubishi_cn105esphome.Debug.{hex_byte, printed}
use mitsubishi_cn105esphome.Functions.Arrived.{digits, one_digit, three_digits}

-- " %d:%d" of the code and the value of a byte.
abbrev pub code_text : ℕ → List ℕ
code_text byte = b' ' ∷ (digits 10 (byte / 4 + 100) ++ b':' ∷ digits 10 (byte % 4))

-- What the loop writes from `p` on, with what stands there: a text that does not fit is written as far as it
-- goes, and `p` stays.
unfoldable pub append_codes : ℕ → List ℕ → List ℕ → List ℕ
append_codes rem held [] = held
append_codes rem held (byte ∷ bytes) =
    let text = code_text byte in
    let whole = ltb (length text) 16 in
    let fits = whole && ltb (length text) rem in
    let rest =
      append_codes (if fits then rem - length text else rem)
        (if fits then [] else if whole then printed rem text else held) bytes in
    if fits then text ++ rest else rest

-- The first byte and the decoded functions.
unfoldable pub hp_functions_debug : List ℕ → Option (List ℕ × List ℕ)
unfolding append_codes
hp_functions_debug packet =
    if ltb (length packet) 2
    then none
    else some (hex_byte (get_or packet 0 0), append_codes 128 [] (drop 1 packet))

-- The entries of all bytes.
all_codes : List ℕ → List ℕ
all_codes [] = []
all_codes (byte ∷ bytes) = code_text byte ++ all_codes bytes

length-code_text : (byte : ℕ) → byte < 256 → length (code_text byte) ≡ 6
length-code_text byte h = omega (
  arith,
  length-append (digits 10 (byte / 4 + 100)) (b':' ∷ digits 10 (byte % 4)),
  three_digits 7 (byte / 4 + 100) (omega arith) (omega arith),
  one_digit 9 (byte % 4) (omega arith),
)

abbrev Bytes : List ℕ → Type 0
Bytes [] = Unit
Bytes (b ∷ bs) = (b < 256) × Bytes bs

append_codes-all :
    (rem : ℕ) (bytes : List ℕ)
    → Bytes bytes
    → 6 * length bytes < rem
    → append_codes rem [] bytes ≡ all_codes bytes
unfolding append_codes all_codes
append_codes-all rem [] bs h = refl
append_codes-all rem (byte ∷ bytes) bs h =
    let size = length-code_text byte bs.0 in
    ground (arith, size, append_codes-all (rem - 6) bytes bs.1)

-- A packet of 2 to 22 bytes is logged with all the codes and values behind its first byte: the line is
-- not cut.
hp_functions_debug-whole :
    (first : ℕ) (bytes : List ℕ)
    → Bytes bytes
    → 0 < length bytes
    → length bytes < 22
    → hp_functions_debug (first ∷ bytes) ≡ some (hex_byte first, all_codes bytes)
unfolding hp_functions_debug
hp_functions_debug-whole first bytes bs least most = ground (arith, append_codes-all 128 bytes bs)
