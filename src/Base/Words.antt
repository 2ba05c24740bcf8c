-- ===== src/Base/Words.antt =====
-- Unsigned machine words: the wrap-around of 64-bit and 32-bit arithmetic, written out.
use Prim.Native.Nat.{ℕ, ◌+◌, ◌-◌, ◌*◌, ◌/◌, ◌%◌, ◌^◌}

abbrev pub u64_mod : ℕ
u64_mod = 2 ^ 64

abbrev pub u32_mod : ℕ
u32_mod = 2 ^ 32

abbrev pub add64 : ℕ → ℕ → ℕ
add64 a b = (a + b) % u64_mod

abbrev pub add32 : ℕ → ℕ → ℕ
add32 a b = (a + b) % u32_mod

abbrev pub sub64 : ℕ → ℕ → ℕ
sub64 a b = (a + u64_mod - b) % u64_mod

-- ~x
abbrev pub not64 : ℕ → ℕ
not64 x = u64_mod - 1 - x

-- x >> n
abbrev pub shr : ℕ → ℕ → ℕ
shr x n = x / 2 ^ n

abbrev pub sub32 : ℕ → ℕ → ℕ
sub32 a b = (a + u32_mod - b) % u32_mod

-- x << n in 32 bits. C++ leaves a shift by 32 or more undefined; here all bits are shifted out.
abbrev pub shl32 : ℕ → ℕ → ℕ
shl32 x n = x * 2 ^ n % u32_mod
