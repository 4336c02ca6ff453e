-- ===== src/Functions/Laws.antt =====
-- components/cn105/heatpump_functions.cpp: what is stored is read back, and nothing else changes.
use mitsubishi_cn105esphome.Prelude.{
  ℕ, ◌+◌, ◌-◌, ◌*◌, ◌%◌, ◌≤◌, ◌≡◌, refl, ◌⊎◌, true, false, List, [], ◌∷◌, arith, if◌then◌else◌,
  ◌==◌, length,
}
use mitsubishi_cn105esphome.Functions.{
  HeatpumpFunctions, code_of, value_of, search_value, store_value, get_value, set_value,
}

-- A byte that is written holds its code and its value.
written :
    (code value : ℕ)
    → 101 ≤ code
    → code ≤ 128
    → 1 ≤ value
    → value ≤ 3
    → (code_of (((code - 100) * 4 + value) % 256) ≡ code)
      × (value_of (((code - 100) * 4 + value) % 256) ≡ value)
unfolding code_of value_of
written code value a b c d = (omega arith, omega arith)

search-store :
    (bs : List ℕ) (code value k : ℕ)
    → 101 ≤ code
    → code ≤ 128
    → 1 ≤ value
    → value ≤ 3
    → (store_value bs code value).1 ≡ true
    → search_value (store_value bs code value).0 k
      ≡ (if code == k then value else search_value bs k)
unfolding search_value store_value
search-store [] code value k a b c d h = cc
search-store (x ∷ bs) code value k a b c d h =
    ground (arith, written code value a b c d, search-store bs code value k a b c d)

store_fails :
    (bs : List ℕ) (code value : ℕ)
    → (store_value bs code value).1 ≡ false
    → (store_value bs code value).0 ≡ bs
unfolding store_value
store_fails [] code value h = refl
store_fails (x ∷ bs) code value h = ground (arith, store_fails bs code value)

-- After a value is stored under a code, that code has the value and every other code the value it
-- had; the flags stay. If it is refused, nothing changes.
pub get_value-set_value :
    (f : HeatpumpFunctions) (code value k : ℕ)
    → let (g, done) = set_value f code value in
      ((done ≡ true) × (get_value g k ≡ (if code == k then value else get_value f k)))
      ⊎ ((done ≡ false) × (g ≡ f))
unfolding set_value get_value
get_value-set_value f code value k =
    ground (arith, search-store f.raw code value k, store_fails f.raw code value)

length-store_value :
    (bs : List ℕ) (code value : ℕ) → length (store_value bs code value).0 ≡ length bs
unfolding store_value
length-store_value [] code value = refl
length-store_value (b ∷ bs) code value = ground (arith, length-store_value bs code value)

pub length-set_value :
    (f : HeatpumpFunctions) (code value : ℕ) → length (set_value f code value).0.raw ≡ length f.raw
unfolding set_value
length-set_value f code value = ground (arith, length-store_value f.raw code value)
