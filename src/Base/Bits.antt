-- ===== src/Base/Bits.antt =====
-- `&` with a mask of low ones and with its complement, as arithmetic, at every width.
use Prim.Native.Nat.{
  ℕ, zero, suc, ◌+◌, ◌-◌, ◌*◌, ◌/◌, ◌%◌, ◌^◌, ◌≤◌, ◌<◌, min, max, bit_and, bit_or, digits,
  bit_and-bitwise, bit_or-bitwise,
}
use mathlib.Core.Path.{◌≡◌, refl, sym, ap, ◌∙◌}
use native.Mathlib.Omega.{arith}
use native.Mathlib.Nat.{
  pow-suc, one-le-pow, div-add-mod, mul-add-mod_self_left, mod-eq_of_lt, div-div-eq-div-mul,
}
use gekko_fs.Base.Order.{strong_induction}

-- The digit recursion gives one result for every fuel that covers its first argument.
digits_any_fuel :
    (z : ℕ → ℕ) (f : ℕ → ℕ → ℕ) (n m a b : ℕ) → a ≤ n → a ≤ m → digits z f n a b ≡ digits z f m a b
digits_any_fuel z f zero zero a b p q = refl
digits_any_fuel z f (suc n) (suc m) zero b p q = refl
digits_any_fuel z f zero (suc m) zero b p q = refl
digits_any_fuel z f (suc n) zero zero b p q = refl
digits_any_fuel z f zero (suc m) (suc a) b p q = absurd (omega arith)
digits_any_fuel z f (suc n) zero (suc a) b p q = absurd (omega arith)
digits_any_fuel z f (suc n) (suc m) (suc a) b p q =
    omega (arith, digits_any_fuel z f n m (suc a / 2) (b / 2) (omega arith) (omega arith))

-- One binary digit at a time.
pub bit_and_digit : (a b : ℕ) → bit_and a b ≡ bit_and (a / 2) (b / 2) * 2 + min (a % 2) (b % 2)
bit_and_digit zero b = simp bit_and-bitwise (omega arith)
bit_and_digit (suc a) b = simp bit_and-bitwise (
    omega (
      arith,
      digits_any_fuel (λ y. 0) min a (suc a / 2) (suc a / 2) (b / 2) (omega arith) (omega arith),
    ))

pub bit_or_digit : (a b : ℕ) → bit_or a b ≡ bit_or (a / 2) (b / 2) * 2 + max (a % 2) (b % 2)
bit_or_digit zero b = simp bit_or-bitwise (omega arith)
bit_or_digit (suc a) b = simp bit_or-bitwise (
    omega (
      arith,
      digits_any_fuel (λ y. y) max a (suc a / 2) (suc a / 2) (b / 2) (omega arith) (omega arith),
    ))

pub bit_and_none : (a : ℕ) → bit_and a 0 ≡ 0
bit_and_none = strong_induction (λ a. bit_and a 0 ≡ 0) by_halves
  where
    by_halves : (n : ℕ) → ((k : ℕ) → k < n → bit_and k 0 ≡ 0) → bit_and n 0 ≡ 0
    by_halves zero below = refl
    by_halves (suc n) below =
        omega (arith, bit_and_digit (suc n) 0, below (suc n / 2) (omega arith))

pub bit_or_none : (a : ℕ) → bit_or a 0 ≡ a
bit_or_none = strong_induction (λ a. bit_or a 0 ≡ a) by_halves
  where
    by_halves : (n : ℕ) → ((k : ℕ) → k < n → bit_or k 0 ≡ k) → bit_or n 0 ≡ n
    by_halves zero below = refl
    by_halves (suc n) below = omega (arith, bit_or_digit (suc n) 0, below (suc n / 2) (omega arith))

pub bit_and_self : (a : ℕ) → bit_and a a ≡ a
bit_and_self = strong_induction (λ a. bit_and a a ≡ a) by_halves
  where
    by_halves : (n : ℕ) → ((k : ℕ) → k < n → bit_and k k ≡ k) → bit_and n n ≡ n
    by_halves zero below = refl
    by_halves (suc n) below =
        omega (arith, bit_and_digit (suc n) (suc n), below (suc n / 2) (omega arith))

pub two_pow_pos : (k : ℕ) → 0 < 2 ^ k
two_pow_pos k = one-le-pow k 2 (omega arith)

pub two_pow_suc : (k : ℕ) → 2 ^ suc k ≡ 2 * 2 ^ k
two_pow_suc k = omega (arith, pow-suc 2 k)

pub two_pow_mono : (k w : ℕ) → k ≤ w → 2 ^ k ≤ 2 ^ w
two_pow_mono zero w h = one-le-pow w 2 (omega arith)
two_pow_mono (suc k) zero h = absurd (omega arith)
two_pow_mono (suc k) (suc w) h =
    omega (arith, pow-suc 2 k, pow-suc 2 w, two_pow_mono k w (omega arith))

pub two_pow_strict : (k w : ℕ) → k < w → 2 ^ k < 2 ^ w
two_pow_strict k w h = omega (arith, two_pow_mono (suc k) w h, two_pow_suc k, two_pow_pos k)

-- Division by twice a number halves first.
pub halve_quotient : (x p : ℕ) → x / (p * 2) ≡ x / 2 / p
halve_quotient x p = ap (λ (m : ℕ). x / m) (twice p) ∙ sym (div-div-eq-div-mul x 2 p)
  where
    twice : (q : ℕ) → q * 2 ≡ 2 * q
    twice q = omega arith

-- A block of size 2^k that begins in a word ends in it.
pub block_end_fits : (k w x : ℕ) → k ≤ w → x < 2 ^ w → x / 2 ^ k * 2 ^ k + 2 ^ k ≤ 2 ^ w
block_end_fits zero w x h fits = omega arith
block_end_fits (suc k) zero x h fits = absurd (omega arith)
block_end_fits (suc k) (suc w) x h fits =
    rw (pow-suc 2 k, pow-suc 2 w)
      (omega (
        arith,
        ap (λ (m : ℕ). m * 2 ^ k) (halve_quotient x (2 ^ k)),
        block_end_fits k w (x / 2) (omega arith) (omega (arith, pow-suc 2 w)),
      ))

-- The remainder by 2p, from the remainder of the half by p.
mod_double : (x p : ℕ) → 0 < p → x % (2 * p) ≡ x / 2 % p * 2 + x % 2
mod_double x p h =
    let q : ℕ = x / 2 / p in
    let r : ℕ = x / 2 % p * 2 + x % 2 in
    let whole : 2 * p * q + r ≡ x = omega (arith, div-add-mod (x / 2) p) in
    ap (λ (t : ℕ). t % (2 * p)) (sym whole)
    ∙ mul-add-mod_self_left (2 * p) q r
    ∙ mod-eq_of_lt (omega (arith, mod_lt_pos))
  where
    mod_lt_pos : x / 2 % p < p
    mod_lt_pos = omega arith

-- x & (2^k - 1)
pub bit_and_low_mask : (k x : ℕ) → bit_and x (2 ^ k - 1) ≡ x % 2 ^ k
bit_and_low_mask zero x = omega (arith, bit_and_none x)
bit_and_low_mask (suc k) x = rw (pow-suc 2 k) (
    omega (
      arith,
      two_pow_pos k,
      bit_and_digit x (2 ^ k * 2 - 1),
      ap (λ (m : ℕ). bit_and (x / 2) m) (halved (2 ^ k) (two_pow_pos k)),
      bit_and_low_mask k (x / 2),
      mod_double x (2 ^ k) (two_pow_pos k),
      ap (λ (m : ℕ). x % m) (doubled (2 ^ k)),
    ))
  where
    halved : (p : ℕ) → 0 < p → (p * 2 - 1) / 2 ≡ p - 1
    halved p h = omega arith

    doubled : (p : ℕ) → p * 2 ≡ 2 * p
    doubled p = omega arith

-- x & ~(2^k - 1) in a word of w bits
pub bit_and_high_mask :
    (k w x : ℕ) → k ≤ w → x < 2 ^ w → bit_and x (2 ^ w - 2 ^ k) ≡ x / 2 ^ k * 2 ^ k
bit_and_high_mask zero w x h fits = omega (arith, bit_and_low_mask w x, mod-eq_of_lt fits)
bit_and_high_mask (suc k) zero x h fits = absurd (omega arith)
bit_and_high_mask (suc k) (suc w) x h fits =
    rw (pow-suc 2 k, pow-suc 2 w)
      (omega (
        arith,
        bit_and_digit x (2 ^ w * 2 - 2 ^ k * 2),
        ap (λ (m : ℕ). bit_and (x / 2) m) (halved (2 ^ w) (2 ^ k)),
        bit_and_high_mask k w (x / 2) (omega arith) (omega (arith, pow-suc 2 w)),
        ap (λ (m : ℕ). m * 2 ^ k) (halve_quotient x (2 ^ k)),
      ))
  where
    halved : (p q : ℕ) → (p * 2 - q * 2) / 2 ≡ p - q
    halved p q = omega arith
