-- ===== src/Common/Bitset/Transport.antt =====
-- What a host decodes from the text that a client sends it.
use gekko_fs.Base.{
  ℕ, zero, suc, ◌+◌, ◌-◌, ◌*◌, ◌/◌, ◌%◌, ◌^◌, ◌<◌, ◌≡◌, refl, ap, ◌∙◌, Bool, true, false, not, ◌&&◌,
  eqb, leb, bit_or, ◌∷◌, none, some, arith, ◌≤◌, Bool-cases, eqb_iff, inl, inr,
}
use gekko_fs.Base.Eq.{Bytes}
use gekko_fs.Base.Bits.{bit_and_low_mask}
use gekko_fs.Base.BitTests.{bit_or_low}
use gekko_fs.Base.Words.{u32_mod}
use gekko_fs.Common.Bitset.{byte_at}
use gekko_fs.Common.Bitset.Base64.{
  base64_chars, index_of, base64_char, push_byte, push_sextet, with_byte, decode_chars,
}

pub push_byte_lem :
    (buffer byte : ℕ) → byte < 256 → push_byte buffer byte ≡ buffer % 2 ^ 24 * 256 + byte
unfolding push_byte
push_byte_lem buffer byte h =
    ap (λ (m : ℕ). bit_or m byte) shifted ∙ bit_or_low 8 (buffer % 2 ^ 24) byte h
  where
    shifted : buffer * 2 ^ 8 % u32_mod ≡ buffer % 2 ^ 24 * 2 ^ 8
    shifted = omega arith

pub push_sextet_lem :
    (buffer value : ℕ) → value < 64 → push_sextet buffer value ≡ buffer % 2 ^ 26 * 64 + value
unfolding push_sextet
push_sextet_lem buffer value h =
    ap (λ (m : ℕ). bit_or m value) shifted ∙ bit_or_low 6 (buffer % 2 ^ 26) value h
  where
    shifted : buffer * 2 ^ 6 % u32_mod ≡ buffer % 2 ^ 26 * 2 ^ 6
    shifted = omega arith

-- Whether the test holds of `count` numbers from `from` on.
holds_from : (ℕ → Bool) → ℕ → ℕ → Bool
holds_from test from zero = true
holds_from test from (suc count) = test from && holds_from test (from + 1) count

test_in_range :
    (test : ℕ → Bool) (from count v : ℕ)
    → from ≤ v
    → v < from + count
    → holds_from test from count ≡ true
    → test v ≡ true
unfolding holds_from
test_in_range test from zero v lo hi all = absurd (omega arith)
test_in_range test from (suc count) v lo hi all = elim (Bool-cases (eqb from v)) [
  | inl here ↦ ground (arith, ap test ((eqb_iff from v).0 here))
  | inr later ↦ test_in_range test (from + 1) count v (ground arith) (omega arith) (ground arith)
]

-- Every character of the alphabet is found at its own index, and none is '='.
is_found : ℕ → Bool
is_found v =
    elim (index_of (base64_char v) base64_chars) [ none ↦ false | some i ↦ eqb i v ]
    && not (eqb (base64_char v) b'=')

alphabet_table : holds_from is_found 0 64 ≡ true
unfolding holds_from is_found index_of base64_char byte_at
alphabet_table = refl

found_iff :
    (x : ℕ)
    → is_found x ≡ true
    → (index_of (base64_char x) base64_chars ≡ some x) × (eqb (base64_char x) b'=' ≡ false)
unfolding is_found
found_iff x e = ground arith

index_of-base64_char :
    (v : ℕ)
    → v < 64
    → (index_of (base64_char v) base64_chars ≡ some v) × (eqb (base64_char v) b'=' ≡ false)
index_of-base64_char v h =
    found_iff v (test_in_range is_found 0 64 v (omega arith) (omega arith) alphabet_table)

-- One character puts six bits in, and eight pending bits make a byte.
pub decode_pending :
    (buffer padding v : ℕ) (cs : Bytes)
    → v < 64
    → padding < 2
    → decode_chars buffer padding (base64_char v ∷ cs)
      ≡ decode_chars (push_sextet buffer v) (padding + 6) cs
unfolding decode_chars
decode_pending buffer padding v cs h small =
    let (found, other) = index_of-base64_char v h in rw (other, found, waits)
  where
    waits : leb 8 (padding + 6) ≡ false
    waits = ground arith

pub decode_filled :
    (buffer padding v : ℕ) (cs : Bytes)
    → v < 64
    → decode_chars buffer (padding + 2) (base64_char v ∷ cs)
      ≡ with_byte
          (push_sextet buffer v / 2 ^ padding % 256)
          (decode_chars (push_sextet buffer v) padding cs)
unfolding decode_chars
decode_filled buffer padding v cs h =
    let (found, other) = index_of-base64_char v h in
    rw (other, found, full, left)
      (ap (λ (b : ℕ). with_byte b (decode_chars (push_sextet buffer v) padding cs))
        (bit_and_low_mask 8 _))
  where
    full : leb 8 (padding + 2 + 6) ≡ true
    full = ground arith

    left : padding + 2 + 6 - 8 ≡ padding
    left = omega arith
