-- ===== src/Common/Bitset/Groups.antt =====
-- Groups of three bytes and of four characters, and the last, shorter group.
use native.Mathlib.Nat.{div-one}
use gekko_fs.Base.{
  ℕ, zero, suc, ◌*◌, ◌/◌, ◌%◌, ◌^◌, ◌<◌, ◌≡◌, refl, ap, ◌∙◌, [], ◌∷◌, replicate, arith,
}
use gekko_fs.Base.Eq.{Bytes}
use gekko_fs.Base.Bits.{bit_and_low_mask}
use gekko_fs.Base.Words.{u32_mod}
use gekko_fs.Common.Bitset.Base64.{
  base64_char, push_byte, sextet, emit_sextets, encode_bytes, push_sextet, Decoded, with_byte,
  decode_chars,
}
use gekko_fs.Common.Bitset.Transport.{push_byte_lem, push_sextet_lem, decode_pending, decode_filled}

abbrev pub IsByte : ℕ → Type 0
IsByte b = b < 256

sextet_lem : (buffer padding : ℕ) → sextet buffer padding ≡ base64_char (buffer / 2 ^ padding % 64)
unfolding sextet
sextet_lem buffer padding = ap base64_char (bit_and_low_mask 6 (buffer / 2 ^ padding))

-- Three bytes are four characters.
pub encode_three :
    (e a b c : ℕ) (bytes : Bytes)
    → let f = push_byte e a in
      let g = push_byte f b in
      let h = push_byte g c in
      encode_bytes e 0 (a ∷ b ∷ c ∷ bytes)
      ≡ base64_char (f / 2 ^ 2 % 64)
        ∷ base64_char (g / 2 ^ 4 % 64)
        ∷ base64_char (h / 2 ^ 6 % 64)
        ∷ base64_char (h / 2 ^ 0 % 64)
        ∷ encode_bytes h 0 bytes
unfolding encode_bytes emit_sextets
encode_three e a b c bytes = ground (
  arith,
  sextet_lem (push_byte e a) 2,
  sextet_lem (push_byte (push_byte e a) b) 4,
  sextet_lem (push_byte (push_byte (push_byte e a) b) c) 6,
  sextet_lem (push_byte (push_byte (push_byte e a) b) c) 0,
)

-- Four characters are three bytes.
pub decode_four :
    (d s t u v : ℕ) (cs : Bytes)
    → s < 64
    → t < 64
    → u < 64
    → v < 64
    → let e = push_sextet d s in
      let f = push_sextet e t in
      let g = push_sextet f u in
      let h = push_sextet g v in
      decode_chars d 0 (base64_char s ∷ base64_char t ∷ base64_char u ∷ base64_char v ∷ cs)
      ≡ with_byte
          (f / 2 ^ 4 % 256)
          (with_byte (g / 2 ^ 2 % 256) (with_byte (h / 2 ^ 0 % 256) (decode_chars h 0 cs)))
decode_four d s t u v cs hs ht hu hv =
    let e : ℕ = push_sextet d s in
    let f : ℕ = push_sextet e t in
    let g : ℕ = push_sextet f u in
    decode_pending d 0 s _ hs (omega arith)
    ∙ decode_filled e 4 t _ ht
    ∙ ap (with_byte (f / 2 ^ 4 % 256)) (decode_filled f 2 u _ hu)
    ∙ ap (λ (r : Decoded). with_byte (f / 2 ^ 4 % 256) (with_byte (g / 2 ^ 2 % 256) r))
        (decode_filled g 0 v cs hv)

-- The first byte, through the two buffers.
pub first_byte :
    (e d a b : ℕ)
    → IsByte a
    → IsByte b
    → let f = push_byte e a in
      let g = push_byte f b in
      let s = push_sextet d (f / 2 ^ 2 % 64) in push_sextet s (g / 2 ^ 4 % 64) / 2 ^ 4 % 256 ≡ a
first_byte e d a b ha hb = omega (
  arith,
  push_byte_lem e a ha,
  push_byte_lem (push_byte e a) b hb,
  push_sextet_lem d (push_byte e a / 2 ^ 2 % 64) (omega arith),
  push_sextet_lem (push_sextet d (push_byte e a / 2 ^ 2 % 64))
      (push_byte (push_byte e a) b / 2 ^ 4 % 64) (omega arith),
)

pub second_byte :
    (f t b c : ℕ)
    → IsByte b
    → IsByte c
    → let g = push_byte f b in
      let h = push_byte g c in
      let u = push_sextet t (g / 2 ^ 4 % 64) in push_sextet u (h / 2 ^ 6 % 64) / 2 ^ 2 % 256 ≡ b
second_byte f t b c hb hc = omega (
  arith,
  push_byte_lem f b hb,
  push_byte_lem (push_byte f b) c hc,
  push_sextet_lem t (push_byte f b / 2 ^ 4 % 64) (omega arith),
  push_sextet_lem (push_sextet t (push_byte f b / 2 ^ 4 % 64))
      (push_byte (push_byte f b) c / 2 ^ 6 % 64) (omega arith),
)

pub third_byte :
    (g u c : ℕ)
    → IsByte c
    → let h = push_byte g c in
      let v = push_sextet u (h / 2 ^ 6 % 64) in push_sextet v (h / 2 ^ 0 % 64) / 2 ^ 0 % 256 ≡ c
third_byte g u c hc = omega (
  arith,
  push_byte_lem g c hc,
  push_sextet_lem u (push_byte g c / 2 ^ 6 % 64) (omega arith),
  push_sextet_lem (push_sextet u (push_byte g c / 2 ^ 6 % 64)) (push_byte g c / 2 ^ 0 % 64)
      (omega arith),
  div-one (push_byte g c),
  div-one (push_sextet (push_sextet u (push_byte g c / 2 ^ 6 % 64)) (push_byte g c / 2 ^ 0 % 64)),
)

-- A last group of one byte is two characters, one of two bytes is three.
pub encode_one :
    (e a : ℕ)
    → let f = push_byte e a in
      encode_bytes e 0 (a ∷ [])
      ≡ base64_char (f / 2 ^ 2 % 64) ∷ base64_char (f * 2 ^ 4 % u32_mod % 64) ∷ []
unfolding encode_bytes emit_sextets
encode_one e a =
    ground
      (arith, sextet_lem (push_byte e a) 2, bit_and_low_mask 6 (push_byte e a * 2 ^ 4 % u32_mod))

pub encode_two :
    (e a b : ℕ)
    → let f = push_byte e a in
      let g = push_byte f b in
      encode_bytes e 0 (a ∷ b ∷ [])
      ≡ base64_char (f / 2 ^ 2 % 64)
        ∷ base64_char (g / 2 ^ 4 % 64)
        ∷ base64_char (g * 2 ^ 2 % u32_mod % 64)
        ∷ []
unfolding encode_bytes emit_sextets
encode_two e a b = ground (
  arith,
  sextet_lem (push_byte e a) 2,
  sextet_lem (push_byte (push_byte e a) b) 4,
  bit_and_low_mask 6 (push_byte (push_byte e a) b * 2 ^ 2 % u32_mod),
)

pub last_of_one :
    (e d a : ℕ)
    → IsByte a
    → let f = push_byte e a in
      let t = push_sextet (push_sextet d (f / 2 ^ 2 % 64)) (f * 2 ^ 4 % u32_mod % 64) in
      (t / 2 ^ 4 % 256 ≡ a) × (t % 2 ^ 4 ≡ 0)
last_of_one e d a ha = omega (
  arith,
  push_byte_lem e a ha,
  push_sextet_lem d (push_byte e a / 2 ^ 2 % 64) (omega arith),
  push_sextet_lem (push_sextet d (push_byte e a / 2 ^ 2 % 64))
      (push_byte e a * 2 ^ 4 % u32_mod % 64) (omega arith),
)

pub last_of_two :
    (f s b : ℕ)
    → IsByte b
    → let g = push_byte f b in
      let u = push_sextet (push_sextet s (g / 2 ^ 4 % 64)) (g * 2 ^ 2 % u32_mod % 64) in
      (u / 2 ^ 2 % 256 ≡ b) × (u % 2 ^ 2 ≡ 0)
last_of_two f s b hb = omega (
  arith,
  push_byte_lem f b hb,
  push_sextet_lem s (push_byte f b / 2 ^ 4 % 64) (omega arith),
  push_sextet_lem (push_sextet s (push_byte f b / 2 ^ 4 % 64))
      (push_byte f b * 2 ^ 2 % u32_mod % 64) (omega arith),
)

pub decode_end : (d p k : ℕ) → decode_chars d p (replicate k b'=') ≡ ([], d, p)
unfolding decode_chars
decode_end d p zero = refl
decode_end d p (suc k) = refl
