-- ===== src/Prelude/Word.antt =====
-- Machine words as native numbers: `uint8_t` and `uint32_t` wrap by `%`.
use Prim.Native.Nat.{ℕ, ◌+◌, ◌-◌, ◌%◌}

abbrev pub u8 : ℕ → ℕ
u8 n = n % 256

-- `uint32_t`: sums, and differences of two values below 2 ^ 32.
abbrev pub u32 : ℕ → ℕ
u32 n = n % 4294967296

abbrev pub sub32 : ℕ → ℕ → ℕ
sub32 a b = (a + 4294967296 - b) % 4294967296
