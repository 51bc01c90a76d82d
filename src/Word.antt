-- ===== src/Word.antt =====
-- 64-bit words as native numbers: the C operators on `uint64_t`, `size_t` and `uintptr_t`, with
-- their wrap-around, and the bits of a word.
pub mod Bits
pub mod Count
use sysrv.Prelude.{ℕ, ◌+◌, ◌-◌, ◌*◌, ◌%◌, ◌^◌}

abbrev pub u64 : ℕ → ℕ
u64 n = n % 2 ^ 64

abbrev pub u32 : ℕ → ℕ
u32 n = n % 2 ^ 32

-- a + b, a - b and a * b; `-` on ℕ stops at 0, so the modulus is added first.
abbrev pub add64 : ℕ → ℕ → ℕ
add64 a b = u64 (a + b)

abbrev pub sub64 : ℕ → ℕ → ℕ
sub64 a b = u64 (a + 2 ^ 64 - b)

abbrev pub mul64 : ℕ → ℕ → ℕ
mul64 a b = u64 (a * b)

-- UINT64_MAX
abbrev pub max64 : ℕ
max64 = 2 ^ 64 - 1

-- 1ULL << k
abbrev pub bit_mask : ℕ → ℕ
bit_mask k = 2 ^ k

-- ~x
abbrev pub not64 : ℕ → ℕ
not64 x = max64 - x
