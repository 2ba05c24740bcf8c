-- ===== src/Common/Arithmetic/Bounds.antt =====
-- `log2` and `is_power_of_2` against their documentation.
use native.Mathlib.Nat.{pow-suc}
use native.Mathlib.Numerals.{towards_suc}
use native.Mathlib.Decide.{dec_lt}
use gekko_fs.Base.{
  ℕ, zero, suc, ◌+◌, ◌-◌, ◌*◌, ◌/◌, ◌%◌, ◌^◌, ◌≤◌, ◌<◌, bit_and, ◌≡◌, refl, ap, ap₂, ◌↔◌, inl, inr,
  true, arith, ltb, Bool-cases, ltb→lt,
}
use gekko_fs.Base.Order.{strong_induction}
use gekko_fs.Base.Words.{sub64}
use gekko_fs.Base.Bits.{bit_and_digit, two_pow_pos, two_pow_mono, two_pow_strict, bit_and_self}
use gekko_fs.Common.Arithmetic.{is_power_of_2, count_leading_zeros, log2}

-- The highest bit that is set stands directly below the leading zeros.
clz_highest :
    (w n : ℕ)
    → 0 < n
    → n < 2 ^ w
    → (k : ℕ) × (count_leading_zeros w n + suc k ≡ w) × (2 ^ k ≤ n) × (n < 2 ^ suc k)
unfolding count_leading_zeros
clz_highest zero n pos fits = absurd (omega arith)
clz_highest (suc w) n pos fits = elim (Bool-cases (ltb n (2 ^ w))) [
  | inl low ↦
      let (k, e, lo, hi) = clz_highest w n pos (ltb→lt _ _ low) in
      (k, ground (arith, e, low), lo, hi)
  | inr high ↦ (w, ground arith, ground arith, fits)
]

-- For every 64-bit word but 0, log2 is the exponent of the highest power of two that is not above
-- it, and less than 64.
pub log2-floor :
    (n : ℕ) → 0 < n → n < 2 ^ 64 → (2 ^ log2 n ≤ n) × (n < 2 ^ (log2 n + 1)) × (log2 n < 64)
log2-floor n pos fits =
    let (k, e, lo, hi) = clz_highest 64 n pos fits in
    let exponent : log2 n ≡ k = unfold log2 in omega (arith, e) in
    rw exponent (lo, simp towards_suc hi, omega (arith, e))

-- A number between two neighbouring powers of two determines the exponent.
pub log2-two_pow : (k : ℕ) → k < 64 → log2 (2 ^ k) ≡ k
log2-two_pow k h =
    let (low, high, _) = log2-floor (2 ^ k) (two_pow_pos k) (two_pow_strict k 64 h) in
    omega (
      arith,
      exponent_lt k (log2 (2 ^ k) + 1) high,
      exponent_lt (log2 (2 ^ k)) (k + 1) (omega (arith, low, step)),
    )
  where
    step : 2 ^ k < 2 ^ (k + 1)
    step = two_pow_strict k (k + 1) (omega arith)

    exponent_lt : (a b : ℕ) → 2 ^ a < 2 ^ b → a < b
    exponent_lt a b lt = elim (dec_lt a b) [
      | yes p ↦ p
      | no q ↦ absurd (omega (arith, two_pow_mono b a (omega arith), lt))
    ]

-- n & (n - 1) clears the lowest set bit; nothing is left of a power of two.
clear_lowest_two_pow : (k : ℕ) → bit_and (2 ^ k) (2 ^ k - 1) ≡ 0
clear_lowest_two_pow zero = refl
clear_lowest_two_pow (suc k) = rw (pow-suc 2 k) (
    omega (
      arith,
      two_pow_pos k,
      bit_and_digit (2 ^ k * 2) (2 ^ k * 2 - 1),
      ap₂ bit_and (whole (2 ^ k)) (halved (2 ^ k) (two_pow_pos k)),
      clear_lowest_two_pow k,
    ))
  where
    whole : (p : ℕ) → p * 2 / 2 ≡ p
    whole p = omega arith

    halved : (p : ℕ) → 0 < p → (p * 2 - 1) / 2 ≡ p - 1
    halved p h = omega arith

half_pred_odd : (n : ℕ) → 0 < n % 2 → (n - 1) / 2 ≡ n / 2
half_pred_odd n odd = omega arith

half_pred_even : (n : ℕ) → ¬ (0 < n % 2) → (n - 1) / 2 ≡ n / 2 - 1
half_pred_even n even = omega arith

-- Only of a power of two is nothing left.
two_pow_of_clear_lowest : (n : ℕ) → 0 < n → bit_and n (n - 1) ≡ 0 → (k : ℕ) × (n ≡ 2 ^ k)
two_pow_of_clear_lowest =
    strong_induction (λ n. 0 < n → bit_and n (n - 1) ≡ 0 → (k : ℕ) × (n ≡ 2 ^ k)) step
  where
    step :
        (n : ℕ)
        → ((m : ℕ) → m < n → 0 < m → bit_and m (m - 1) ≡ 0 → (k : ℕ) × (m ≡ 2 ^ k))
        → 0 < n
        → bit_and n (n - 1) ≡ 0
        → (k : ℕ) × (n ≡ 2 ^ k)
    step n ih pos h = elim (dec_lt 0 (n % 2)) [
      | yes odd ↦ (
        0,
        omega (
          arith,
          bit_and_digit n (n - 1),
          ap (bit_and (n / 2)) (half_pred_odd n odd),
          bit_and_self (n / 2),
        ),
      )
      | no even ↦
          let (k, e) = ih (n / 2) (omega arith) (omega arith) (
            omega (arith, bit_and_digit n (n - 1), ap (bit_and (n / 2)) (half_pred_even n even))) in
          (suc k, rw (pow-suc 2 k) (omega (arith, e)))
    ]

-- is_power_of_2 holds of the powers of two that fit a 64-bit word and of no other word.
pub is_power_of_2_iff : (n : ℕ) → n < 2 ^ 64 → (is_power_of_2 n ≡ true) ↔ ((k : ℕ) × (n ≡ 2 ^ k))
unfolding is_power_of_2
is_power_of_2_iff n fits = (
  λ h.
      two_pow_of_clear_lowest n (ground arith)
        (ground (arith, ap (bit_and n) (pred_word (ground arith)))),
  λ (k, e). ground (
    arith,
    e,
    two_pow_pos k,
    ap (bit_and n) (pred_word (omega (arith, e, two_pow_pos k))),
    ap (λ (m : ℕ). bit_and m (m - 1)) e,
    clear_lowest_two_pow k,
  ),
)
  where
    pred_word : 0 < n → sub64 n 1 ≡ n - 1
    pred_word pos = omega arith
