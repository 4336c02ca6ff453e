-- ===== src/Decoder/ErrorInfo.antt =====
-- components/cn105/hp_readings.cpp, `get_error_info_from_response_packet`: the text of the error sensor.
use mitsubishi_cn105esphome.Prelude.{
  ℕ, ◌<◌, ◌≤◌, ◌≡◌, refl, ltb, ap, sym, ◌∙◌, arith, true, false, Bool, Option, none, some, List, [],
  ◌++◌, ◌==◌, ◌&&◌, ◌/◌, ◌%◌, get_or,
}
use mitsubishi_cn105esphome.Enums.Table.{codes}
use mitsubishi_cn105esphome.Debug.{hex_digit, hex_byte, printed}
use mitsubishi_cn105esphome.Decoder.{
  error_info_min_len, DecodedErrorInfo, Payload, decode_error_info, payload_byte,
}

-- The buffer has 32 bytes.
abbrev text_of : Bool → ℕ → ℕ → List ℕ
text_of true code sub_code = codes "No Error"
text_of false code sub_code =
    printed 32 (codes "Error 0x" ++ hex_byte code ++ codes " sub 0x" ++ hex_byte sub_code)

abbrev pub error_text : DecodedErrorInfo → List ℕ
error_text decoded = text_of decoded.no_error decoded.code decoded.sub_code

abbrev pub show_error : Option DecodedErrorInfo → Option (List ℕ) → Option (List ℕ)
show_error none sensor = sensor
show_error (some decoded) none = none
show_error (some decoded) (some shown) = some (error_text decoded)

-- With the text that the sensor shows, if there is one.
unfoldable pub get_error_info_from_response_packet : Payload → ℕ → Option (List ℕ) → Option (List ℕ)
get_error_info_from_response_packet bytes length sensor =
    show_error (decode_error_info bytes length) sensor

hex_digit_injective : (m n : ℕ) → m < 16 → n < 16 → hex_digit m ≡ hex_digit n → m ≡ n
hex_digit_injective m n a b h = ground (arith, h)

hex_byte_injective :
    (m n : ℕ)
    → m < 256
    → n < 256
    → hex_digit (m / 16) ≡ hex_digit (n / 16)
    → hex_digit (m % 16) ≡ hex_digit (n % 16)
    → m ≡ n
hex_byte_injective m n a b high low =
    let e = hex_digit_injective (m / 16) (n / 16) (omega arith) (omega arith) high in
    let f = hex_digit_injective (m % 16) (n % 16) (omega arith) (omega arith) low in
    omega (arith, e, f)

byte_at : (i : ℕ) (xs ys : List ℕ) → xs ≡ ys → get_or xs i 0 ≡ get_or ys i 0
byte_at i xs ys h = ap (λ (t : List ℕ). get_or t i 0) h

text_of_injective :
    (b c : Bool) (m n p q : ℕ)
    → m < 256
    → n < 256
    → p < 256
    → q < 256
    → b ≡ (m == 0 && n == 0)
    → c ≡ (p == 0 && q == 0)
    → text_of b m n ≡ text_of c p q
    → (m ≡ p) × (n ≡ q)
text_of_injective true true m n p q m< n< p< q< e f h = (ground (arith, e, f), ground (arith, e, f))
text_of_injective true false m n p q m< n< p< q< e f h =
    absurd (ground (arith, byte_at 0 (text_of true m n) (text_of false p q) h))
text_of_injective false true m n p q m< n< p< q< e f h =
    absurd (ground (arith, byte_at 0 (text_of false m n) (text_of true p q) h))
text_of_injective false false m n p q m< n< p< q< e f h =
    let at = λ (i : ℕ). byte_at i (text_of false m n) (text_of false p q) h in
    (hex_byte_injective m p m< p< (at 8) (at 9), hex_byte_injective n q n< q< (at 17) (at 18))

not_short : (k : ℕ) → error_info_min_len ≤ k → ltb k error_info_min_len ≡ false
not_short k l = ground arith

-- Two error responses that the sensor shows by one text report one error: bit 7 of the code byte aside,
-- the code and the sub-code are the same.
get_error_info-distinguishes :
    (xs ys : List ℕ) (m n : ℕ) (old other : List ℕ)
    → error_info_min_len ≤ m
    → error_info_min_len ≤ n
    → payload_byte (some xs) m 5 0 < 256
    → payload_byte (some ys) n 5 0 < 256
    → get_error_info_from_response_packet (some xs) m (some old)
      ≡ get_error_info_from_response_packet (some ys) n (some other)
    → (payload_byte (some xs) m 4 0 % 128 ≡ payload_byte (some ys) n 4 0 % 128)
      × (payload_byte (some xs) m 5 0 ≡ payload_byte (some ys) n 5 0)
unfolding get_error_info_from_response_packet decode_error_info
get_error_info-distinguishes xs ys m n old other lm ln a b h =
    text_of_injective _ _ (payload_byte (some xs) m 4 0 % 128) (payload_byte (some xs) m 5 0)
      (payload_byte (some ys) n 4 0 % 128) (payload_byte (some ys) n 5 0) (omega arith) a
      (omega arith) b refl refl (ap text_in (sym (shown xs m old lm) ∙ h ∙ shown ys n other ln))
  where
    text_in : Option (List ℕ) → List ℕ
    text_in none = []
    text_in (some text) = text

    shown :
        (zs : List ℕ) (k : ℕ) (held : List ℕ)
        → error_info_min_len ≤ k
        → get_error_info_from_response_packet (some zs) k (some held)
          ≡ some (
              text_of
                (payload_byte (some zs) k 4 0 % 128 == 0 && payload_byte (some zs) k 5 0 == 0)
                (payload_byte (some zs) k 4 0 % 128)
                (payload_byte (some zs) k 5 0))
    shown zs k held l =
        unfold get_error_info_from_response_packet decode_error_info in rw (not_short k l) refl
