-- ===== src/Base/Integers.antt =====
-- Integers over the native numbers, for signed members, and their 64-bit representation.
use Prim.Native.Nat.{ℕ, zero, suc, ◌-◌, ◌^◌, ◌<◌}
use mathlib.Core.Path.{◌≡◌, refl, ap}
use native.Mathlib.Omega.{arith}
use gekko_fs.Base.Tests.{ltb, if◌then◌else◌, lt→ltb, le→ltb_false}

pub data ℤ : Type 0 where
  pos negsuc : ℕ → ℤ

abbrev pub negate : ℕ → ℤ
negate zero = pos 0
negate (suc n) = negsuc n

-- A conversion between the 64-bit types, in two's complement.
abbrev pub to_signed : ℕ → ℤ
to_signed n = if ltb n (2 ^ 63) then pos n else negsuc (2 ^ 64 - 1 - n)

abbrev pub to_unsigned : ℤ → ℕ
to_unsigned (pos n) = n
to_unsigned (negsuc n) = 2 ^ 64 - 1 - n

-- The integers of 64 bits.
abbrev pub IsInt64 : ℤ → Type 0
IsInt64 (pos n) = n < 2 ^ 63
IsInt64 (negsuc n) = n < 2 ^ 63

pub to_signed-to_unsigned : (z : ℤ) → IsInt64 z → to_signed (to_unsigned z) ≡ z
to_signed-to_unsigned (pos n) h = rw (lt→ltb n (2 ^ 63) h) refl
to_signed-to_unsigned (negsuc n) h =
    rw (le→ltb_false (2 ^ 64 - 1 - n) (2 ^ 63) (omega (arith, h))) (ap negsuc (omega (arith, h)))
