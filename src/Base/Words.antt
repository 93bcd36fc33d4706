-- ===== src/Base/Words.antt =====
-- Unsigned machine words, as numbers with the wrap-around written out.
use Prim.Native.Nat.{ℕ, ◌+◌, ◌-◌, ◌%◌}

abbrev pub u64_mod : ℕ
u64_mod = 18446744073709551616

-- A value stored in an `int`, `uint32_t` or `uint64_t`.
abbrev pub u32 : ℕ → ℕ
u32 a = a % 4294967296

abbrev pub u64 : ℕ → ℕ
u64 a = a % 18446744073709551616

-- `uint64_t` addition and subtraction.
abbrev pub add64 : ℕ → ℕ → ℕ
add64 a b = (a + b) % 18446744073709551616

abbrev pub sub64 : ℕ → ℕ → ℕ
sub64 a b = (a + 18446744073709551616 - b) % 18446744073709551616
