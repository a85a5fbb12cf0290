-- ===== src/Common/Words.antt =====
-- Fixed-width unsigned integers as native numbers: a cast is a remainder.
use Prim.Native.Nat.{ℕ, ◌+◌, ◌-◌, ◌%◌, ◌^◌}

abbrev pub u8 : ℕ → ℕ
u8 n = n % 2 ^ 8

abbrev pub u16 : ℕ → ℕ
u16 n = n % 2 ^ 16

abbrev pub u32 : ℕ → ℕ
u32 n = n % 2 ^ 32

abbrev pub u64 : ℕ → ℕ
u64 n = n % 2 ^ 64

-- UINT64 a - b, which wraps.
abbrev pub sub64 : ℕ → ℕ → ℕ
sub64 a b = (a + 2 ^ 64 - b) % 2 ^ 64

abbrev pub max_uint32 : ℕ
max_uint32 = 2 ^ 32 - 1

-- MAX_UINT64, and MAX_UINTN on the 64-bit target.
abbrev pub max_uint64 : ℕ
max_uint64 = 2 ^ 64 - 1
