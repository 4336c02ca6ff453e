-- ===== src/Prelude/Fixed.antt =====
-- A number type that meets the laws of Prelude.Float, with 8 binary places and a NaN: the tests
-- evaluate the code on it. It saturates nowhere, and it truncates where a float rounds.
use Prim.Native.Nat.{ℕ, zero, suc, ◌+◌, ◌-◌, ◌*◌, ◌/◌, ◌%◌, ◌≤◌, ◌<◌}
use mathlib.Core.Path.{◌≡◌, refl, ap}
use mathlib.Core.Bool.{Bool, true, false, not}
use native.Mathlib.Omega.{arith}
use native.Mathlib.Nat.{add-div_left}
use mitsubishi_cn105esphome.Prelude.Tests.{ltb, ◌==◌, if◌then◌else◌}
use mitsubishi_cn105esphome.Prelude.Int.{ℤ, pos, negsuc, ◌+ℤ◌, ◌-ℤ◌, ltb_ℤ, leb_ℤ}
use mitsubishi_cn105esphome.Prelude.Float.{Float, IsIeee}

-- `units n` is n / 256.
pub data Fixed : Type 0 where
  not_number : Fixed
  units : ℤ → Fixed

abbrev pub magnitude : ℤ → ℕ
magnitude (pos n) = n
magnitude (negsuc n) = suc n

abbrev pub is_negative : ℤ → Bool
is_negative (pos n) = false
is_negative (negsuc n) = true

abbrev pub differ : Bool → Bool → Bool
differ a b = if a then not b else b

abbrev pub with_sign : Bool → ℕ → ℤ
with_sign false n = pos n
with_sign true zero = pos 0
with_sign true (suc n) = negsuc n

abbrev pub whole : ℤ → Fixed
whole (pos n) = units (pos (256 * n))
whole (negsuc n) = units (negsuc (256 * n + 255))

abbrev pub add_fixed : Fixed → Fixed → Fixed
add_fixed (units a) (units b) = units (a +ℤ b)
add_fixed (units a) not_number = not_number
add_fixed not_number b = not_number

abbrev pub sub_fixed : Fixed → Fixed → Fixed
sub_fixed (units a) (units b) = units (a -ℤ b)
sub_fixed (units a) not_number = not_number
sub_fixed not_number b = not_number

abbrev pub mul_fixed : Fixed → Fixed → Fixed
mul_fixed (units a) (units b) =
    units (with_sign (differ (is_negative a) (is_negative b)) (magnitude a * magnitude b / 256))
mul_fixed (units a) not_number = not_number
mul_fixed not_number b = not_number

abbrev pub div_fixed : Fixed → Fixed → Fixed
div_fixed (units a) (units b) =
    if magnitude b == 0
    then not_number
    else units
        (with_sign (differ (is_negative a) (is_negative b)) (256 * magnitude a / magnitude b))
div_fixed (units a) not_number = not_number
div_fixed not_number b = not_number

abbrev pub round_fixed : Fixed → Fixed
round_fixed (units a) = units (with_sign (is_negative a) (256 * ((magnitude a + 128) / 256)))
round_fixed not_number = not_number

abbrev pub abs_fixed : Fixed → Fixed
abs_fixed (units a) = units (pos (magnitude a))
abs_fixed not_number = not_number

abbrev pub lt_fixed : Fixed → Fixed → Bool
lt_fixed (units a) (units b) = ltb_ℤ a b
lt_fixed (units a) not_number = false
lt_fixed not_number b = false

abbrev pub le_fixed : Fixed → Fixed → Bool
le_fixed (units a) (units b) = leb_ℤ a b
le_fixed (units a) not_number = false
le_fixed not_number b = false

abbrev pub is_not_number : Fixed → Bool
is_not_number not_number = true
is_not_number (units a) = false

abbrev pub max_fixed : Fixed → Fixed → Fixed
max_fixed not_number b = b
max_fixed (units a) not_number = units a
max_fixed (units a) (units b) = if ltb_ℤ a b then units b else units a

abbrev pub eq_fixed : Fixed → Fixed → Bool
eq_fixed a b = if le_fixed a b then le_fixed b a else false

abbrev pub byte_fixed : Fixed → ℕ
byte_fixed (units a) = magnitude a / 256 % 256
byte_fixed not_number = 0

abbrev pub fixed : Float
fixed = record {
  F = Fixed;
  nan = not_number;
  of_int = whole;
  add = add_fixed;
  sub = sub_fixed;
  mul = mul_fixed;
  div = div_fixed;
  round = round_fixed;
  fabs = abs_fixed;
  fmax = max_fixed;
  lt = lt_fixed;
  le = le_fixed;
  eq = eq_fixed;
  is_nan = is_not_number;
  to_u8 = byte_fixed;
}

lt-numbers :
    (a b : Fixed) → lt_fixed a b ≡ true → (is_not_number a ≡ false) × (is_not_number b ≡ false)
lt-numbers (units a) (units b) h = (refl, refl)
lt-numbers (units a) not_number h = cc
lt-numbers not_number b h = cc

total_order :
    (a b : Fixed)
    → is_not_number a ≡ false
    → is_not_number b ≡ false
    → lt_fixed a b ≡ false
    → le_fixed b a ≡ true
total_order (units a) (units b) ha hb h = ground arith
total_order (units a) not_number ha hb h = cc
total_order not_number b ha hb h = cc

le-not_lt : (a b : Fixed) → le_fixed a b ≡ true → lt_fixed b a ≡ false
le-not_lt (units a) (units b) h = ground arith
le-not_lt (units a) not_number h = cc
le-not_lt not_number b h = cc

le_reflexive : (a : Fixed) → is_not_number a ≡ false → le_fixed a a ≡ true
le_reflexive (units a) h = ground arith
le_reflexive not_number h = cc

le_transitive : (a b c : Fixed) → le_fixed a b ≡ true → le_fixed b c ≡ true → le_fixed a c ≡ true
le_transitive (units a) (units b) (units c) h g = ground arith
le_transitive (units a) (units b) not_number h g = cc
le_transitive (units a) not_number c h g = cc
le_transitive not_number b c h g = cc

lt-le : (a b : Fixed) → lt_fixed a b ≡ true → le_fixed a b ≡ true
lt-le (units a) (units b) h = ground arith
lt-le (units a) not_number h = cc
lt-le not_number b h = cc

whole-number : (a : ℤ) → is_not_number (whole a) ≡ false
whole-number (pos n) = refl
whole-number (negsuc n) = refl

whole-lt : (m n : ℕ) → lt_fixed (whole (pos m)) (whole (pos n)) ≡ ltb m n
whole-lt m n = ground arith

whole-add : (m n : ℕ) → add_fixed (whole (pos m)) (whole (pos n)) ≡ whole (pos (m + n))
whole-add m n = ap units (ground arith)

whole-half :
    (n : ℕ) → mul_fixed (div_fixed (whole (pos n)) (whole (pos 2))) (whole (pos 2)) ≡ whole (pos n)
whole-half n = ap (λ k. units (pos k)) (omega arith)

whole-round : (a : ℤ) → round_fixed (whole a) ≡ whole a
whole-round (pos n) = ap (λ k. units (pos k)) (omega arith)
whole-round (negsuc n) =
    let rounded : 256 * ((suc (256 * n + 255) + 128) / 256) ≡ suc (256 * n + 255) = omega arith in
    ap (λ k. units (with_sign true k)) rounded

quotient_pos : (m n : ℕ) → 0 < m → 0 < n → n ≤ 256 → 0 < 256 * (256 * m) / (256 * n)
quotient_pos m n hm hn top =
    let k = 256 * (256 * m) - 256 * n in
    let whole_part : 256 * (256 * m) ≡ 256 * n + k = omega arith in
    let divisor : 0 < 256 * n = omega arith in
    omega (arith, ap (λ x. x / (256 * n)) whole_part, add-div_left k divisor)

whole-div :
    (m n : ℕ)
    → 0 < m
    → 0 < n
    → n ≤ 256
    → lt_fixed (whole (pos 0)) (div_fixed (whole (pos m)) (whole (pos n))) ≡ true
whole-div m n hm hn top = ground (arith, quotient_pos m n hm hn top)

sub_itself :
    (a : Fixed) (m n : ℤ)
    → le_fixed (whole m) a ≡ true
    → le_fixed a (whole n) ≡ true
    → abs_fixed (sub_fixed a a) ≡ whole (pos 0)
sub_itself (units (pos a)) m n h g = ground arith
sub_itself (units (negsuc a)) m n h g = ground arith
sub_itself not_number (pos m) n h g = cc
sub_itself not_number (negsuc m) n h g = cc

whole-byte : (n : ℕ) → n < 256 → byte_fixed (whole (pos n)) ≡ n
whole-byte n h = omega arith

pub fixed-IsIeee : IsIeee fixed
fixed-IsIeee = record {
  lt_not_nan = lt-numbers;
  le_of_not_lt = total_order;
  not_lt_of_le = le-not_lt;
  le_refl = le_reflexive;
  le_trans = le_transitive;
  le_of_lt = lt-le;
  of_int_not_nan = whole-number;
  lt_of_int = λ m n _ _. whole-lt m n;
  add_of_int = λ m n _. whole-add m n;
  double_half = λ n _. whole-half n;
  round_of_int = whole-round;
  div_pos = λ m n hm _ hn top. whole-div m n hm hn top;
  sub_self = sub_itself;
  to_u8_of_int = whole-byte;
}
