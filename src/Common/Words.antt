-- ===== src/Common/Words.antt =====
-- Fixed-width unsigned words as native numbers, with their wrap-around written out.
use Prim.Native.Nat.{ℕ, ◌%◌, ◌<◌}
use mathlib.Core.Path.{◌≡◌}
use native.Mathlib.Omega.{arith}

-- uint64_t and UINTN.
abbrev pub u64 : ℕ → ℕ
u64 n = n % 0x1_0000_0000_0000_0000

abbrev pub u32 : ℕ → ℕ
u32 n = n % 0x1_0000_0000

abbrev pub u64_limit : ℕ
u64_limit = 0x1_0000_0000_0000_0000

pub u64_of_lt : (n : ℕ) → n < u64_limit → u64 n ≡ n
u64_of_lt n h = omega arith
