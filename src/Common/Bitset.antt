-- ===== src/Common/Bitset.antt =====
-- get_bitset and set_bitset of src/common/rpc/rpc_util.cpp: the set of chunks that a host serves.
-- A position is a `uint16_t`. An access past the end, which C++ leaves undefined, reads 0 and
-- writes nothing.
pub mod Base64
pub mod Transport
pub mod Groups
pub mod RoundTrip
use gekko_fs.Base.{
  ℕ, zero, suc, ◌+◌, ◌*◌, ◌/◌, ◌%◌, ◌^◌, ◌<◌, ◌≡◌, refl, Bool, true, false, not, arith, eqb,
  bit_and, bit_or, if◌then◌else◌, List, [], ◌∷◌, length, replicate, set, ap, All, length-set,
}
use gekko_fs.Base.Eq.{Bytes}
use gekko_fs.Base.BitTests.{bit_at, bit_at-bit_or, bit_and_bit, bit_or-lt}
use gekko_fs.Base.Bits.{two_pow_pos, two_pow_strict}

unfoldable pub byte_at : Bytes → ℕ → ℕ
byte_at [] i = 0
byte_at (b ∷ bs) zero = b
byte_at (b ∷ bs) (suc i) = byte_at bs i

abbrev pub position16 : ℕ → ℕ
position16 position = position % 2 ^ 16

unfoldable pub get_bitset : Bytes → ℕ → Bool
unfolding byte_at
get_bitset bytes position =
    not (eqb (bit_and (byte_at bytes (position16 position / 8)) (2 ^ (position16 position % 8))) 0)

-- A byte holds eight bits, so the result of `|=` is in its range.
unfoldable pub set_bitset : Bytes → ℕ → Bytes
unfolding byte_at
set_bitset bytes position =
    let i = position16 position / 8 in
    set bytes i (bit_or (byte_at bytes i) (2 ^ (position16 position % 8)))

byte_at-set :
    (bytes : Bytes) (i j v : ℕ)
    → i < length bytes
    → byte_at (set bytes i v) j ≡ (if eqb i j then v else byte_at bytes j)
unfolding byte_at
byte_at-set [] i j v h = elim h [ ]
byte_at-set (b ∷ bs) zero zero v h = refl
byte_at-set (b ∷ bs) zero (suc j) v h = ground arith
byte_at-set (b ∷ bs) (suc i) zero v h = ground arith
byte_at-set (b ∷ bs) (suc i) (suc j) v h = ground (arith, byte_at-set bs i j v (omega arith))

get_bitset-bit_at :
    (bytes : Bytes) (p : ℕ)
    → p < 2 ^ 16
    → get_bitset bytes p ≡ eqb (bit_at (byte_at bytes (p / 8)) (p % 8)) 1
unfolding get_bitset
get_bitset-bit_at bytes p h = ground (
  arith,
  bit_and_bit (p % 8) (byte_at bytes (p / 8)),
  ap (λ (m : ℕ). bit_and (byte_at bytes (m / 8)) (2 ^ (m % 8))) (small p h),
  two_pow_pos (p % 8),
)
  where
    small : (q : ℕ) → q < 2 ^ 16 → q % 2 ^ 16 ≡ q
    small q fits = omega arith

byte_at-set_bitset :
    (bytes : Bytes) (p j : ℕ)
    → p < 2 ^ 16
    → p / 8 < length bytes
    → byte_at (set_bitset bytes p) j
      ≡ (if eqb (p / 8) j then bit_or (byte_at bytes (p / 8)) (2 ^ (p % 8)) else byte_at bytes j)
unfolding set_bitset
byte_at-set_bitset bytes p j h room =
    rw (small p h) (byte_at-set bytes (p / 8) j (bit_or (byte_at bytes (p / 8)) (2 ^ (p % 8))) room)
  where
    small : (q : ℕ) → q < 2 ^ 16 → q % 2 ^ 16 ≡ q
    small q fits = omega arith

-- Setting the bit of a position makes it answer true and changes the answer of no other position,
-- for positions below 2^16 and a position inside the set.
pub get_bitset-set_bitset :
    (bytes : Bytes) (p q : ℕ)
    → p < 2 ^ 16
    → q < 2 ^ 16
    → p / 8 < length bytes
    → get_bitset (set_bitset bytes p) q ≡ (if eqb p q then true else get_bitset bytes q)
get_bitset-set_bitset bytes p q hp hq room = ground (
  arith,
  get_bitset-bit_at (set_bitset bytes p) q hq,
  get_bitset-bit_at bytes q hq,
  ap (λ (v : ℕ). bit_at v (q % 8)) (byte_at-set_bitset bytes p (q / 8) hp room),
  bit_at-bit_or (p % 8) (q % 8) (byte_at bytes (p / 8)),
  ap (λ (i : ℕ). bit_at (byte_at bytes i) (q % 8)) {x = p / 8} {y = q / 8},
)

pub length-set_bitset : (bytes : Bytes) (p : ℕ) → length (set_bitset bytes p) ≡ length bytes
unfolding set_bitset
length-set_bitset bytes p = length-set bytes _ _

All-set :
    (bytes : Bytes) (i v : ℕ)
    → v < 256
    → All (λ b. b < 256) bytes
    → All (λ b. b < 256) (set bytes i v)
All-set [] i v hv h = tt
All-set (b ∷ bs) zero v hv h = (hv, h.1)
All-set (b ∷ bs) (suc i) v hv h = (h.0, All-set bs i v hv h.1)

byte_at-lt : (bytes : Bytes) (i : ℕ) → All (λ b. b < 256) bytes → byte_at bytes i < 256
unfolding byte_at
byte_at-lt [] i h = omega arith
byte_at-lt (b ∷ bs) zero h = h.0
byte_at-lt (b ∷ bs) (suc i) h = byte_at-lt bs i h.1

-- The entries stay bytes.
pub set_bitset-bytes :
    (bytes : Bytes) (p : ℕ) → All (λ b. b < 256) bytes → All (λ b. b < 256) (set_bitset bytes p)
unfolding set_bitset
set_bitset-bytes bytes p h =
    All-set bytes _ _
      (bit_or-lt 8 _ _ (byte_at-lt bytes (position16 p / 8) h)
        (two_pow_strict (position16 p % 8) 8 (omega arith)))
      h
