-- ===== src/Base/BitTests.antt =====
-- Single bits: the bit of weight 2^j under `|` and `&` with one bit.
use Prim.Native.Nat.{ℕ, zero, suc, ◌+◌, ◌*◌, ◌/◌, ◌%◌, ◌^◌, ◌<◌, bit_and, bit_or}
use mathlib.Core.Path.{◌≡◌, ap}
use native.Mathlib.Omega.{arith}
use native.Mathlib.Nat.{pow-suc, div-one}
use gekko_fs.Base.Tests.{eqb, if◌then◌else◌}
use gekko_fs.Base.Bits.{bit_or_digit, bit_and_digit, bit_or_none, bit_and_none, halve_quotient}

-- The bit of weight 2^j.
abbrev pub bit_at : ℕ → ℕ → ℕ
bit_at x j = x / 2 ^ j % 2

bit_at-suc : (x j : ℕ) → bit_at x (suc j) ≡ bit_at (x / 2) j
bit_at-suc x j = rw (pow-suc 2 j) (ap (λ (m : ℕ). m % 2) (halve_quotient x (2 ^ j)))

half_pow : (i : ℕ) → 2 ^ suc i / 2 ≡ 2 ^ i
half_pow i = omega (arith, pow-suc 2 i)

even_pow : (i : ℕ) → 2 ^ suc i % 2 ≡ 0
even_pow i = omega (arith, pow-suc 2 i)

half_or_one : (x : ℕ) → bit_or x 1 / 2 ≡ x / 2
half_or_one x = omega (arith, bit_or_digit x 1, bit_or_none (x / 2))

half_or_pow : (x i : ℕ) → bit_or x (2 ^ suc i) / 2 ≡ bit_or (x / 2) (2 ^ i)
half_or_pow x i =
    omega (arith, bit_or_digit x (2 ^ suc i), ap (bit_or (x / 2)) (half_pow i), even_pow i)

-- Setting the bit of weight 2^i changes no other bit.
pub bit_at-bit_or : (i j x : ℕ) → bit_at (bit_or x (2 ^ i)) j ≡ (if eqb i j then 1 else bit_at x j)
bit_at-bit_or zero zero x = omega (arith, bit_or_digit x 1, div-one (bit_or x 1))
bit_at-bit_or (suc i) zero x = ground (arith, bit_or_digit x (2 ^ suc i), even_pow i)
bit_at-bit_or zero (suc j) x =
    ground
      (arith, bit_at-suc (bit_or x 1) j, bit_at-suc x j, ap (λ (m : ℕ). bit_at m j) (half_or_one x))
bit_at-bit_or (suc i) (suc j) x = ground (
  arith,
  bit_at-suc (bit_or x (2 ^ suc i)) j,
  bit_at-suc x j,
  ap (λ (m : ℕ). bit_at m j) (half_or_pow x i),
  bit_at-bit_or i j (x / 2),
)

-- `x & 2^i` keeps that bit alone.
pub bit_and_bit : (i x : ℕ) → bit_and x (2 ^ i) ≡ bit_at x i * 2 ^ i
bit_and_bit zero x = omega (arith, bit_and_digit x 1, bit_and_none (x / 2))
bit_and_bit (suc i) x = rw (bit_at-suc x i) (
    omega (
      arith,
      bit_and_digit x (2 ^ suc i),
      ap (bit_and (x / 2)) (half_pow i),
      even_pow i,
      bit_and_bit i (x / 2),
      ap (λ (m : ℕ). bit_at (x / 2) i * m) (pow-suc 2 i),
    ))

double_or : (k q r : ℕ) → q * 2 ^ suc k / 2 ≡ q * 2 ^ k
double_or k q r = omega (arith, ap (λ (m : ℕ). q * m) (pow-suc 2 k))

-- `|` adds what lies below a shifted value.
pub bit_or_low : (k q r : ℕ) → r < 2 ^ k → bit_or (q * 2 ^ k) r ≡ q * 2 ^ k + r
bit_or_low zero q r h = ground (arith, bit_or_none q)
bit_or_low (suc k) q r h = omega (
  arith,
  bit_or_digit (q * 2 ^ suc k) r,
  ap (λ (m : ℕ). bit_or m (r / 2)) (double_or k q r),
  bit_or_low k q (r / 2) (omega (arith, pow-suc 2 k)),
  ap (λ (m : ℕ). q * m) (pow-suc 2 k),
)

-- `|` stays within a word.
pub bit_or-lt : (w x y : ℕ) → x < 2 ^ w → y < 2 ^ w → bit_or x y < 2 ^ w
bit_or-lt zero zero zero hx hy = omega arith
bit_or-lt zero zero (suc y) hx hy = absurd (omega arith)
bit_or-lt zero (suc x) y hx hy = absurd (omega arith)
bit_or-lt (suc w) x y hx hy = omega (
  arith,
  bit_or_digit x y,
  pow-suc 2 w,
  bit_or-lt w (x / 2) (y / 2) (omega (arith, pow-suc 2 w)) (omega (arith, pow-suc 2 w)),
)
