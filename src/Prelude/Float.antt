-- ===== src/Prelude/Float.antt =====
-- IEEE single precision, as far as the component uses it: the operations that the code calls, and
-- the documented facts that the theorems need. A NaN compares false; small integers are exact.
use Prim.Native.Nat.{ℕ, ◌+◌, ◌≤◌, ◌<◌}
use mathlib.Core.Path.{◌≡◌}
use mathlib.Core.Bool.{Bool, true, false}
use mitsubishi_cn105esphome.Prelude.Int.{ℤ, pos}
use mitsubishi_cn105esphome.Prelude.Tests.{ltb}

pub record Float : Type 1 where
  pub F : Type 0
  pub nan : F
  pub of_int : ℤ → F
  pub add : F → F → F
  pub sub : F → F → F
  pub mul : F → F → F
  pub div : F → F → F
  pub round : F → F
  pub fabs : F → F
  pub fmax : F → F → F
  pub lt : F → F → Bool
  pub le : F → F → Bool
  pub eq : F → F → Bool
  pub is_nan : F → Bool
  -- `static_cast<uint8_t>` of a value in range.
  pub to_u8 : F → ℕ

-- What the theorems rely on, each with the theorem's own choice of it.
pub record IsIeee (fl : Float) : Type 0 where
  pub lt_not_nan : (a b : fl.F) → fl.lt a b ≡ true → (fl.is_nan a ≡ false) × (fl.is_nan b ≡ false)
  pub le_of_not_lt :
      (a b : fl.F)
      → fl.is_nan a ≡ false
      → fl.is_nan b ≡ false
      → fl.lt a b ≡ false
      → fl.le b a ≡ true
  pub not_lt_of_le : (a b : fl.F) → fl.le a b ≡ true → fl.lt b a ≡ false
  pub le_refl : (a : fl.F) → fl.is_nan a ≡ false → fl.le a a ≡ true
  pub le_trans : (a b c : fl.F) → fl.le a b ≡ true → fl.le b c ≡ true → fl.le a c ≡ true
  pub le_of_lt : (a b : fl.F) → fl.lt a b ≡ true → fl.le a b ≡ true
  pub of_int_not_nan : (a : ℤ) → fl.is_nan (fl.of_int a) ≡ false
  pub lt_of_int :
      (m n : ℕ)
      → m ≤ 16777216
      → n ≤ 16777216
      → fl.lt (fl.of_int (pos m)) (fl.of_int (pos n)) ≡ ltb m n
  pub add_of_int :
      (m n : ℕ)
      → m + n ≤ 16777216
      → fl.add (fl.of_int (pos m)) (fl.of_int (pos n)) ≡ fl.of_int (pos (m + n))
  pub double_half :
      (n : ℕ)
      → n ≤ 16777216
      → fl.mul (fl.div (fl.of_int (pos n)) (fl.of_int (pos 2))) (fl.of_int (pos 2))
        ≡ fl.of_int (pos n)
  pub round_of_int : (a : ℤ) → fl.round (fl.of_int a) ≡ fl.of_int a
  pub div_pos :
      (m n : ℕ)
      → 0 < m
      → m ≤ 256
      → 0 < n
      → n ≤ 256
      → fl.lt (fl.of_int (pos 0)) (fl.div (fl.of_int (pos m)) (fl.of_int (pos n))) ≡ true
  -- A value between two integers is finite.
  pub sub_self :
      (a : fl.F) (m n : ℤ)
      → fl.le (fl.of_int m) a ≡ true
      → fl.le a (fl.of_int n) ≡ true
      → fl.fabs (fl.sub a a) ≡ fl.of_int (pos 0)
  pub to_u8_of_int : (n : ℕ) → n < 256 → fl.to_u8 (fl.of_int (pos n)) ≡ n
