-- ===== src/Common/Arithmetic.antt =====
-- include/common/arithmetic/arithmetic.hpp: block arithmetic on 64-bit words, by masks and shifts.
-- The `assert(is_power_of_2(block_size))` of each function is a hypothesis of the theorems.
pub mod Bounds
pub mod Blocks
use gekko_fs.Base.{
  ℕ, zero, suc, ◌+◌, ◌-◌, ◌^◌, bit_and, Bool, true, false, not, ◌&&◌, ltb, eqb, if◌then◌else◌,
}
use gekko_fs.Base.Words.{add64, sub64, not64, shr, sub32, shl32}

unfoldable pub is_power_of_2 : ℕ → Bool
is_power_of_2 n = not (eqb n 0) && eqb (bit_and n (sub64 n 1)) 0

-- __builtin_clzll: the zeros above the highest set bit of a word of `w` bits.
unfoldable pub count_leading_zeros : ℕ → ℕ → ℕ
count_leading_zeros zero n = 0
count_leading_zeros (suc w) n =
    let below = count_leading_zeros w n in if ltb n (2 ^ w) then suc below else 0

unfoldable pub log2 : ℕ → ℕ
log2 n = 64 - count_leading_zeros 64 n - 1

-- The mask is built from `1u`, a 32-bit word.
unfoldable pub is_aligned : ℕ → ℕ → Bool
is_aligned n block_size = eqb (bit_and n (sub32 (shl32 1 (log2 block_size)) 1)) 0

unfoldable pub align_left : ℕ → ℕ → ℕ
align_left offset block_size = bit_and offset (not64 (sub64 block_size 1))

unfoldable pub align_right : ℕ → ℕ → ℕ
align_right offset block_size = add64 (align_left offset block_size) block_size

unfoldable pub block_overrun : ℕ → ℕ → ℕ
block_overrun offset block_size = bit_and offset (sub64 block_size 1)

unfoldable pub block_underrun : ℕ → ℕ → ℕ
block_underrun offset block_size = sub64 (align_right offset block_size) offset

unfoldable pub block_index : ℕ → ℕ → ℕ
block_index offset block_size = shr (align_left offset block_size) (log2 block_size)

-- -!!size: no bit, or all bits.
abbrev pub presence_mask : ℕ → ℕ
presence_mask size = if eqb size 0 then 0 else not64 0

unfoldable pub block_count : ℕ → ℕ → ℕ → ℕ
block_count offset size block_size =
    let first_block = align_left offset block_size in
    let final_block = align_left (add64 offset size) block_size in
    bit_and
      (add64 (sub64 (shr final_block (log2 block_size)) (shr first_block (log2 block_size)))
        (if is_aligned (add64 offset size) block_size then 0 else 1))
      (presence_mask size)
