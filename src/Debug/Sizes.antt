-- ===== src/Debug/Sizes.antt =====
-- components/cn105/utils.cpp: the buffers of `hp_packet_debug` are large enough for every packet.
use Prim.Native.String.{String}
use mitsubishi_cn105esphome.Prelude.{
  ℕ, suc, zero, ◌-◌, ◌*◌, ◌≤◌, ◌<◌, ◌≡◌, refl, ap, arith, List, [], ◌∷◌, ◌++◌, ltb, ◌==◌,
  if◌then◌else◌, if_keeps, length, length-append, take, drop, get_or, Bool-cases, inl, inr,
}
use mitsubishi_cn105esphome.Enums.Table.{codes}
use mitsubishi_cn105esphome.Debug.{
  packet_command_label, packet_subcommand_label, hex_byte, printed, append_hex, Line,
  hp_packet_debug,
}

-- Bytes as text, each followed by a space.
pub hex_text : List ℕ → List ℕ
hex_text [] = []
hex_text (b ∷ bs) = hex_byte b ++ b' ' ∷ hex_text bs

-- The line without any limit of size.
pub whole_line : List ℕ → Line
unfolding hex_text
whole_line packet =
    if ltb (length packet) 5
    then Line.short (hex_text packet)
    else (let label =
          if get_or packet 0 0 == 0xFC
          then packet_command_label (get_or packet 1 0)
          else "UNKNOWN" in
        let sub_label =
          if ltb 5 (length packet) then packet_subcommand_label (get_or packet 5 0) else "" in
        Line.full (hex_text (take 5 packet))
          (if ltb 6 (length packet)
            then hex_text (take (length packet - 6) (drop 5 packet))
            else [])
          (hex_byte (get_or packet (length packet - 1) 0)) (codes label ++ codes sub_label))

append_hex-text : (rem : ℕ) (bs : List ℕ) → 3 * length bs < rem → append_hex rem bs ≡ hex_text bs
unfolding append_hex hex_text
append_hex-text rem [] h = refl
append_hex-text rem (b ∷ bs) h = ground (arith, append_hex-text (rem - 3) bs)

take_short : (n : ℕ) (xs : List ℕ) → length xs ≤ n → take n xs ≡ xs
take_short zero [] h = refl
take_short (suc n) [] h = refl
take_short zero (x ∷ xs) h = absurd (omega arith)
take_short (suc n) (x ∷ xs) h = ap (◌∷◌ x) (take_short n xs (omega arith))

length-take-le : (n : ℕ) (xs : List ℕ) → length (take n xs) ≤ n
length-take-le zero xs = omega arith
length-take-le (suc n) [] = omega arith
length-take-le (suc n) (x ∷ xs) = omega (arith, length-take-le n xs)

abbrev Fits : ℕ → String → Type 0
Fits n s = length (codes s) ≤ n

command_label-Fits : (command : ℕ) → Fits 9 (packet_command_label command)
unfolding packet_command_label
command_label-Fits command =
    let P : String → Type 0 = Fits 9 in
    if_keeps P (command == 0x5A) _ _ (omega arith) (
      if_keeps P (command == 0x5B) _ _ (omega arith) (
        if_keeps P (command == 0x41) _ _ (omega arith) (
          if_keeps P (command == 0x42) _ _ (omega arith) (
            if_keeps P (command == 0x61) _ _ (omega arith)
              (if_keeps P (command == 0x62) _ _ (omega arith) (omega arith))))))

subcommand_label-Fits : (sub : ℕ) → Fits 10 (packet_subcommand_label sub)
unfolding packet_subcommand_label
subcommand_label-Fits sub =
    let P : String → Type 0 = Fits 10 in
    if_keeps P (sub == 0x01) _ _ (omega arith) (
      if_keeps P (sub == 0x02) _ _ (omega arith) (
        if_keeps P (sub == 0x03) _ _ (omega arith) (
          if_keeps P (sub == 0x04) _ _ (omega arith) (
            if_keeps P (sub == 0x05) _ _ (omega arith) (
              if_keeps P (sub == 0x06) _ _ (omega arith) (
                if_keeps P (sub == 0x09) _ _ (omega arith) (
                  if_keeps P (sub == 0x10) _ _ (omega arith) (
                    if_keeps P (sub == 0x20) _ _ (omega arith)
                      (if_keeps P (sub == 0x22) _ _ (omega arith) (omega arith))))))))))

-- For every packet of at most 128 bytes, the most that the parser takes, no part of the line is cut: the
-- header, the payload, the checksum and the label with its sub-command all fit their buffers.
pub hp_packet_debug-whole :
    (packet : List ℕ) → length packet ≤ 128 → hp_packet_debug packet ≡ whole_line packet
unfolding hp_packet_debug whole_line
hp_packet_debug-whole packet h = elim (Bool-cases (ltb (length packet) 5)) [
  | inl e ↦ rw e (ap Line.short (append_hex-text 20 packet (ground (arith, e))))
  | inr e ↦ rw e (λ i.
      Line.full (append_hex-text 18 (take 5 packet) (omega (arith, length-take-le 5 packet)) i)
        (if ltb 6 (length packet)
          then append_hex-text 380 (take (length packet - 6) (drop 5 packet))
              (omega (arith, length-take-le (length packet - 6) (drop 5 packet))) i
          else [])
        (hex_byte (get_or packet (length packet - 1) 0)) (label_fits i))
]
  where
    label : String
    label =
        if get_or packet 0 0 == 0xFC then packet_command_label (get_or packet 1 0) else "UNKNOWN"

    sub_label : String
    sub_label = if ltb 5 (length packet) then packet_subcommand_label (get_or packet 5 0) else ""

    label_length : Fits 9 label
    label_length =
        if_keeps (Fits 9) (get_or packet 0 0 == 0xFC) (packet_command_label (get_or packet 1 0))
          "UNKNOWN" (command_label-Fits (get_or packet 1 0)) (omega arith)

    sub_label_length : Fits 10 sub_label
    sub_label_length =
        if_keeps (Fits 10) (ltb 5 (length packet)) (packet_subcommand_label (get_or packet 5 0)) ""
          (subcommand_label-Fits (get_or packet 5 0)) (omega arith)

    label_fits : printed 20 (codes label ++ codes sub_label) ≡ codes label ++ codes sub_label
    label_fits = take_short 19 (codes label ++ codes sub_label) (
        omega
          (arith, length-append (codes label) (codes sub_label), label_length, sub_label_length))
