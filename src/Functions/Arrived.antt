-- ===== src/Functions/Arrived.antt =====
-- components/cn105/heatpump_functions.cpp, `functions_arrived`: the text that the functions sensor shows. It
-- is written to a buffer of 256 bytes, and is never cut.
use mitsubishi_cn105esphome.Prelude.{
  ℕ, zero, suc, ◌+◌, ◌-◌, ◌*◌, ◌/◌, ◌%◌, ◌≤◌, ◌<◌, ◌≡◌, refl, ap, sym, ◌∙◌, arith, true, false,
  ◌&&◌, List, [], ◌∷◌, ◌++◌, map, ltb, leb, if◌then◌else◌, take, length, length-append, Bool-cases,
  inl, inr,
}
use mathlib.Core.List.{append-nil, append_assoc}
use mitsubishi_cn105esphome.Functions.{
  HeatpumpFunctions, FunctionCode, get_value, get_all_codes, code_of, value_of, search_value,
  max_function_code_count,
}

-- `%i` of a number below 10 ^ 10.
unfoldable pub digits : ℕ → ℕ → List ℕ
digits zero n = []
digits (suc k) n =
    let front = digits k (n / 10) in
    if ltb n 10 then (n + b'0') ∷ [] else front ++ (n % 10 + b'0') ∷ []

-- `snprintf` with "%i: %i ", without its size.
unfoldable pub entry_text : ℕ → ℕ → List ℕ
unfolding digits
entry_text code value = digits 10 code ++ b':' ∷ b' ' ∷ (digits 10 value ++ b' ' ∷ [])

-- The loop over the codes, with what is in the buffer before its terminating zero; `remaining` is the rest
-- of the buffer. What does not fit is written as far as it goes, and ends the loop.
unfoldable pub write_entries : HeatpumpFunctions → List FunctionCode → List ℕ → ℕ → List ℕ
unfolding entry_text
write_entries f [] states remaining = states
write_entries f (c ∷ cs) states remaining =
    let value = get_value f c.code in
    let text = entry_text c.code value in
    let written = length text in
    let shown = c.valid && ltb 0 value in
    let rest =
      write_entries f cs (if shown then states ++ text else states)
        (if shown then remaining - written else remaining) in
    if shown && leb remaining written then states ++ take (remaining - 1) text else rest

unfoldable pub functions_text : HeatpumpFunctions → List ℕ
unfolding write_entries
functions_text f = write_entries f (get_all_codes f) [] 256

-- The entries of all valid codes that have a value, one after the other.
pub all_entries : HeatpumpFunctions → List FunctionCode → List ℕ
all_entries f [] = []
all_entries f (c ∷ cs) =
    if c.valid && ltb 0 (get_value f c.code)
    then entry_text c.code (get_value f c.code) ++ all_entries f cs
    else all_entries f cs

-- A code of three digits.
abbrev ThreeDigits : List FunctionCode → Type 0
ThreeDigits [] = Unit
ThreeDigits (c ∷ cs) = ((c.valid ≡ true → (100 ≤ c.code) × (c.code < 1000))) × ThreeDigits cs

pub one_digit : (k n : ℕ) → n < 10 → length (digits (suc k) n) ≡ 1
unfolding digits
one_digit k n h = ground arith

more_digits : (k n : ℕ) → 10 ≤ n → length (digits (suc k) n) ≡ length (digits k (n / 10)) + 1
unfolding digits
more_digits k n h = ground (arith, length-append (digits k (n / 10)) ((n % 10 + b'0') ∷ []))

pub three_digits : (k n : ℕ) → 100 ≤ n → n < 1000 → length (digits (suc (suc (suc k))) n) ≡ 3
three_digits k n a b = omega (
  arith,
  more_digits (suc (suc k)) n (omega arith),
  more_digits (suc k) (n / 10) (omega arith),
  one_digit k (n / 10 / 10) (omega arith),
)

length-entry_text :
    (code value : ℕ) → 100 ≤ code → code < 1000 → value < 10 → length (entry_text code value) ≡ 7
unfolding entry_text
length-entry_text code value a b c =
    length-append (digits 10 code) _
    ∙ omega (
      arith,
      three_digits 7 code a b,
      one_digit 9 value c,
      length-append (digits 10 value) (b' ' ∷ []),
    )

search_value-lt : (bs : List ℕ) (code : ℕ) → search_value bs code < 4
unfolding search_value value_of
search_value-lt [] code = omega arith
search_value-lt (b ∷ bs) code = ground (arith, search_value-lt bs code)

get_value-lt : (f : HeatpumpFunctions) (code : ℕ) → get_value f code < 4
unfolding get_value
get_value-lt f code = ground (arith, search_value-lt f.raw code)

fits : (r n : ℕ) → n < r → leb r n ≡ false
fits r n h = ground arith

-- An entry that is written takes seven bytes.
entry_size :
    (f : HeatpumpFunctions) (c : FunctionCode) (cs : List FunctionCode)
    → ThreeDigits (c ∷ cs)
    → c.valid && ltb 0 (get_value f c.code) ≡ true
    → length (entry_text c.code (get_value f c.code)) ≡ 7
entry_size f c cs t e =
    let small = get_value-lt f c.code in
    length-entry_text c.code (get_value f c.code) (t.0 valid).0 (t.0 valid).1 (omega arith)
  where
    valid : c.valid ≡ true
    valid = ground (arith, e)

write_entries-all :
    (f : HeatpumpFunctions) (cs : List FunctionCode) (states : List ℕ) (remaining : ℕ)
    → ThreeDigits cs
    → 7 * length cs < remaining
    → write_entries f cs states remaining ≡ states ++ all_entries f cs
unfolding write_entries all_entries
write_entries-all f [] states r t h = sym (append-nil states)
write_entries-all f (c ∷ cs) states r t h =
    elim (Bool-cases (c.valid && ltb 0 (get_value f c.code))) [
      | inl e ↦
          let text = entry_text c.code (get_value f c.code) in
          let size : length text ≡ 7 = entry_size f c cs t e in
          rw (e, fits r (length text) (omega arith))
            (write_entries-all f cs (states ++ text) (r - length text) t.1 (omega arith)
              ∙ append_assoc states text (all_entries f cs))
      | inr e ↦ rw e (write_entries-all f cs states r t.1 (omega arith))
    ]

length-all_entries :
    (f : HeatpumpFunctions) (cs : List FunctionCode)
    → ThreeDigits cs
    → length (all_entries f cs) ≤ 7 * length cs
unfolding all_entries
length-all_entries f [] t = omega arith
length-all_entries f (c ∷ cs) t = elim (Bool-cases (c.valid && ltb 0 (get_value f c.code))) [
  | inl e ↦ rw e (
      omega (
        arith,
        entry_size f c cs t e,
        length-append (entry_text c.code (get_value f c.code)) (all_entries f cs),
        length-all_entries f cs t.1,
      ))
  | inr e ↦ rw e (omega (arith, length-all_entries f cs t.1))
]

codes-ThreeDigits : (f : HeatpumpFunctions) → ThreeDigits (get_all_codes f)
unfolding get_all_codes
codes-ThreeDigits f = go f.raw
  where
    go :
        (bs : List ℕ)
        → ThreeDigits (
            map
              (λ b. record { valid = leb 101 (code_of b) && leb (code_of b) 128; code = code_of b })
              bs)
    go [] = tt
    go (b ∷ bs) = (λ h. ground arith, go bs)

length-map {ℓ κ} :
    {A : Type ℓ} {B : Type κ} (g : A → B) (bs : List A) → length (map g bs) ≡ length bs
length-map g [] = refl
length-map g (b ∷ bs) = ap suc (length-map g bs)

length-get_all_codes : (f : HeatpumpFunctions) → length (get_all_codes f) ≡ length f.raw
unfolding get_all_codes
length-get_all_codes f = length-map _ f.raw

-- The text that is published for the thirty functions is the entries of all valid codes that have a value,
-- in the order of the bytes: none is cut or left out, and with its terminating zero the text fits the
-- buffer of 256 bytes.
pub functions_text-all_entries :
    (f : HeatpumpFunctions)
    → length f.raw ≤ max_function_code_count
    → (functions_text f ≡ all_entries f (get_all_codes f)) × (length (functions_text f) + 1 ≤ 256)
unfolding functions_text
functions_text-all_entries f h = (
  whole,
  rw whole (omega (arith, count, length-all_entries f (get_all_codes f) (codes-ThreeDigits f))),
)
  where
    count : length (get_all_codes f) ≤ 30
    count = omega (arith, length-get_all_codes f)

    whole : write_entries f (get_all_codes f) [] 256 ≡ all_entries f (get_all_codes f)
    whole =
        write_entries-all f (get_all_codes f) [] 256 (codes-ThreeDigits f) (omega (arith, count))
