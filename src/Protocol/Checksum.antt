-- ===== src/Protocol/Checksum.antt =====
-- components/cn105/cn105_protocol.h, `checksum`: what it detects.
use mitsubishi_cn105esphome.Prelude.{
  ℕ, zero, suc, ◌+◌, ◌-◌, ◌%◌, ◌<◌, ◌≡◌, refl, ap, ◌≢◌, List, [], ◌∷◌, ◌++◌, arith, length, get_or,
  set, take,
}
use mitsubishi_cn105esphome.Protocol.{sum_bytes, checksum}

-- The sum without wrapping.
pub total : List ℕ → ℕ
total [] = 0
total (b ∷ bs) = b + total bs

pub total-append : (xs ys : List ℕ) → total (xs ++ ys) ≡ total xs + total ys
unfolding total
total-append [] ys = omega arith
total-append (x ∷ xs) ys = omega (arith, total-append xs ys)

total-take-suc : (bs : List ℕ) (i : ℕ) → total (take (suc i) bs) ≡ total (take i bs) + get_or bs i 0
unfolding total
total-take-suc [] zero = refl
total-take-suc [] (suc i) = refl
total-take-suc (b ∷ bs) zero = omega arith
total-take-suc (b ∷ bs) (suc i) = omega (arith, total-take-suc bs i)

sum_bytes-total :
    (bs : List ℕ) (i rounds sum : ℕ)
    → sum ≡ total (take i bs) % 256
    → sum_bytes bs i rounds sum ≡ total (take (i + rounds) bs) % 256
unfolding sum_bytes
sum_bytes-total bs i zero sum h = rw (native_add_zero i) h
  where
    native_add_zero : (n : ℕ) → n + 0 ≡ n
    native_add_zero n = omega arith
sum_bytes-total bs i (suc rounds) sum h =
    rw (shift i rounds) (sum_bytes-total bs (suc i) rounds _ (omega (arith, total-take-suc bs i)))
  where
    shift : (n k : ℕ) → n + suc k ≡ suc n + k
    shift n k = omega arith

-- The checksum is the complement to 0xfc of the sum of the first `len` bytes, modulo 256.
pub checksum_lem :
    (bs : List ℕ) (len : ℕ) → checksum bs len ≡ (508 - total (take len bs) % 256) % 256
unfolding checksum total
checksum_lem bs len = omega (arith, sum_bytes-total bs 0 len 0 refl, ap_total)
  where
    ap_total : total (take (0 + len) bs) ≡ total (take len bs)
    ap_total = rw (zero_add len)
      where
        zero_add : (n : ℕ) → 0 + n ≡ n
        zero_add n = omega arith

pub checksum_cong :
    (xs ys : List ℕ) (len : ℕ) → take len xs ≡ take len ys → checksum xs len ≡ checksum ys len
checksum_cong xs ys len h = omega (arith, checksum_lem xs len, checksum_lem ys len, ap total h)

-- A frame and its checksum sum up to 0xfc modulo 256, and no other byte does so.
pub checksum-total :
    (bs : List ℕ) (len c : ℕ)
    → c < 256
    → ((c ≡ checksum bs len) → (total (take len bs) + c) % 256 ≡ 0xfc)
      × (((total (take len bs) + c) % 256 ≡ 0xfc) → c ≡ checksum bs len)
checksum-total bs len c h =
    (λ e. omega (arith, checksum_lem bs len), λ e. omega (arith, checksum_lem bs len))

total-set :
    (bs : List ℕ) (i len v : ℕ)
    → i < len
    → i < length bs
    → total (take len (set bs i v)) + get_or bs i 0 ≡ total (take len bs) + v
unfolding total
total-set [] i len v h l = elim l [ ]
total-set (b ∷ bs) i zero v h l = elim h [ ]
total-set (b ∷ bs) zero (suc len) v h l = omega arith
total-set (b ∷ bs) (suc i) (suc len) v h l =
    omega (arith, total-set bs i len v (omega arith) (omega arith))

-- Changing one byte that is summed to another byte value changes the checksum.
pub checksum-set_ne :
    (bs : List ℕ) (i len v : ℕ)
    → i < len
    → i < length bs
    → get_or bs i 0 < 256
    → v < 256
    → v ≢ get_or bs i 0
    → checksum (set bs i v) len ≢ checksum bs len
checksum-set_ne bs i len v h l old new ne e =
    ne (
      omega
        (arith, e, checksum_lem bs len, checksum_lem (set bs i v) len, total-set bs i len v h l))
