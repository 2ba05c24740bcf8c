-- ===== src/Common/Arithmetic/Blocks.antt =====
-- The mask arithmetic against division and remainder by the block size.
use native.Mathlib.Nat.{mod-eq_of_lt, mul-div_cancel, div-add-mod'}
use native.Mathlib.Nat.{div-eq_of_lt-le, mod-lt, div-le_self}
use gekko_fs.Base.{
  ℕ-cases, inl, inr, ℕ, suc, ◌+◌, ◌-◌, ◌*◌, ◌/◌, ◌%◌, ◌^◌, ◌≤◌, ◌<◌, bit_and, ◌≡◌, ap, ap₂, ◌∙◌,
  arith, eqb, if◌then◌else◌,
}
use gekko_fs.Base.Division.{div_mono}
use gekko_fs.Base.Words.{sub64, not64, add64, shr, sub32, shl32}
use gekko_fs.Base.Bits.{
  two_pow_pos, two_pow_strict, block_end_fits, bit_and_none, bit_and_low_mask, bit_and_high_mask,
}
use gekko_fs.Common.Arithmetic.{
  log2, is_aligned, align_left, align_right, block_overrun, block_underrun, block_index,
  block_count, presence_mask,
}
use gekko_fs.Common.Arithmetic.Bounds.{log2-two_pow}

low_mask_word : (k : ℕ) → k < 64 → sub64 (2 ^ k) 1 ≡ 2 ^ k - 1
low_mask_word k h = omega (arith, two_pow_pos k, two_pow_strict k 64 h)

module _ (k offset : ℕ) (small : k < 64) (word : offset < 2 ^ 64) where
  -- `align_left` is the multiple of the block size at or below the offset.
  pub align_left-div : align_left offset (2 ^ k) ≡ offset / 2 ^ k * 2 ^ k
  unfolding align_left
  align_left-div = ap (bit_and offset) complement ∙ bit_and_high_mask k 64 offset (omega arith) word
    where
      complement : not64 (sub64 (2 ^ k) 1) ≡ 2 ^ 64 - 2 ^ k
      complement = omega (arith, low_mask_word k small, two_pow_pos k, two_pow_strict k 64 small)

  pub block_overrun-mod : block_overrun offset (2 ^ k) ≡ offset % 2 ^ k
  unfolding block_overrun
  block_overrun-mod = ap (bit_and offset) (low_mask_word k small) ∙ bit_and_low_mask k offset

  pub block_index-div : block_index offset (2 ^ k) ≡ offset / 2 ^ k
  unfolding block_index
  block_index-div =
      ap₂ (λ (a n : ℕ). a / 2 ^ n) align_left-div (log2-two_pow k small)
      ∙ mul-div_cancel (offset / 2 ^ k) (two_pow_pos k)

  pub align_right-div :
      offset / 2 ^ k * 2 ^ k + 2 ^ k < 2 ^ 64
      → align_right offset (2 ^ k) ≡ offset / 2 ^ k * 2 ^ k + 2 ^ k
  unfolding align_right
  align_right-div fits = ap (λ (a : ℕ). add64 a (2 ^ k)) align_left-div ∙ mod-eq_of_lt fits

  pub block_underrun-mod : block_underrun offset (2 ^ k) ≡ 2 ^ k - offset % 2 ^ k
  unfolding block_underrun align_right
  block_underrun-mod =
      ap (λ (a : ℕ). sub64 (add64 a (2 ^ k)) offset) align_left-div
      ∙ omega (
        arith,
        block_end_fits k 64 offset (omega arith) word,
        div-add-mod' offset (2 ^ k),
        two_pow_pos k,
        two_pow_strict k 64 small,
      )

-- `is_aligned` tests divisibility, for block sizes below 2^32.
pub is_aligned-mod : (k n : ℕ) → k < 32 → is_aligned n (2 ^ k) ≡ eqb (n % 2 ^ k) 0
unfolding is_aligned
is_aligned-mod k n h = ap (λ (m : ℕ). eqb m 0) (ap (bit_and n) mask_word ∙ bit_and_low_mask k n)
  where
    mask_word : sub32 (shl32 1 (log2 (2 ^ k))) 1 ≡ 2 ^ k - 1
    mask_word =
        rw (log2-two_pow k (omega arith)) (omega (arith, two_pow_pos k, two_pow_strict k 32 h))

-- The end of a range lies one past the last block that holds a byte of it, unless it is aligned.
last_block : (e p : ℕ) → 0 < p → 0 < e → e / p + (if eqb (e % p) 0 then 0 else 1) ≡ (e - 1) / p + 1
last_block e p hp he = elim (ℕ-cases (e % p)) [
  | inl aligned ↦
      let (q, e_q) = positive aligned in
      rw (aligned, e_q)
        (omega (
          arith,
          div-eq_of_lt-le {k = q} p {m = e - 1} (omega (arith, multiple aligned q e_q))
              (omega (arith, multiple aligned q e_q)),
        ))
  | inr (m, inside) ↦ ground (
    arith,
    inside,
    div-eq_of_lt-le {k = e / p} p {m = e - 1} (omega (arith, div-add-mod' e p, inside))
        (omega (arith, div-add-mod' e p, inside, mod-lt e hp)),
  )
]
  where
    positive : e % p ≡ 0 → (q : ℕ) × (e / p ≡ suc q)
    positive aligned = elim (ℕ-cases (e / p)) [
      | inl none_below ↦ absurd (omega (arith, div-add-mod' e p, ap (λ (m : ℕ). m * p) none_below))
      | inr some_below ↦ some_below
    ]

    multiple : e % p ≡ 0 → (q : ℕ) → e / p ≡ suc q → e ≡ q * p + p
    multiple aligned q e_q = omega (arith, div-add-mod' e p, ap (λ (m : ℕ). m * p) e_q)

-- The count, with the masks and shifts already read as quotients.
count_words :
    (first final size extra : ℕ)
    → first ≤ final
    → final + extra < 2 ^ 64
    → bit_and (add64 (sub64 final first) extra) (presence_mask size)
      ≡ (if eqb size 0 then 0 else final + extra - first)
count_words first final size extra h fits = ground (
  arith,
  bit_and_none (add64 (sub64 final first) extra),
  bit_and_low_mask 64 (add64 (sub64 final first) extra),
)

-- block_count is the number of blocks from the one of the offset to the one of the last byte, and 0
-- for an empty range, for block sizes below 2^32 and ranges that end below 2^64.
pub block_count-eq :
    (k offset size : ℕ)
    → k < 32
    → offset + size < 2 ^ 64
    → block_count offset size (2 ^ k) ≡ (
        if eqb size 0
        then 0
        else block_index (offset + size - 1) (2 ^ k) + 1 - block_index offset (2 ^ k))
unfolding block_count
block_count-eq k offset size h fits =
    rw
      (
        mod-eq_of_lt fits,
        final_block,
        first_block,
        is_aligned-mod k (offset + size) h,
        block_index-div k offset (omega arith) (omega arith),
        block_index-div k (offset + size - 1) (omega arith) (omega arith),
      )
      (count_words (offset / 2 ^ k) ((offset + size) / 2 ^ k) size extra
          (div_mono offset (offset + size) (2 ^ k) (two_pow_pos k) (omega arith)) extra_fits
        ∙ counted)
  where
    extra : ℕ
    extra = if eqb ((offset + size) % 2 ^ k) 0 then 0 else 1

    at_most_one : extra ≤ 1
    at_most_one = ground arith

    extra_fits : (offset + size) / 2 ^ k + extra < 2 ^ 64
    extra_fits = elim (ℕ-cases (offset + size)) [
      | inl nothing ↦ omega (arith, nothing, div-le_self (offset + size) (2 ^ k), at_most_one)
      | inr (m, something) ↦ omega (
        arith,
        last_block (offset + size) (2 ^ k) (two_pow_pos k) (omega arith),
        div-le_self (offset + size - 1) (2 ^ k),
      )
    ]

    counted :
        (if eqb size 0 then 0 else (offset + size) / 2 ^ k + extra - offset / 2 ^ k)
        ≡ (if eqb size 0 then 0 else (offset + size - 1) / 2 ^ k + 1 - offset / 2 ^ k)
    counted = ground (arith, last_block (offset + size) (2 ^ k) (two_pow_pos k))

    final_block : shr (align_left (offset + size) (2 ^ k)) (log2 (2 ^ k)) ≡ (offset + size) / 2 ^ k
    final_block = unfold block_index in block_index-div k (offset + size) (omega arith) fits

    first_block : shr (align_left offset (2 ^ k)) (log2 (2 ^ k)) ≡ offset / 2 ^ k
    first_block = unfold block_index in block_index-div k offset (omega arith) (omega arith)
