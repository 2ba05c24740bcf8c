-- ===== src/Common/Bitset/RoundTrip.antt =====
-- Decoding undoes encoding, but for one byte more where the last group of three is not full.
use gekko_fs.Base.{
  ℕ, zero, suc, ◌*◌, ◌/◌, ◌%◌, ◌^◌, ◌<◌, ◌≡◌, ◌≢◌, refl, sym, ap, ap₂, ◌∙◌, not, eqb, bit_and,
  if◌then◌else◌, [], ◌∷◌, ◌++◌, length, replicate, All, arith, append_assoc, append-nil, Bool-cases,
  ◌⊎◌, inl, inr,
}
use gekko_fs.Base.Eq.{Bytes}
use gekko_fs.Base.Bits.{bit_and_low_mask}
use gekko_fs.Base.Words.{u32_mod, shr}
use gekko_fs.Common.Bitset.{byte_at, get_bitset, position16}
use gekko_fs.Common.Bitset.Base64.{
  push_byte, encode_bytes, pad_quads, base64_encode, push_sextet, Decoded, with_byte, decode_chars,
  finish, base64_decode,
}
use gekko_fs.Common.Bitset.Transport.{decode_pending, decode_filled}
use gekko_fs.Common.Bitset.Groups.{
  IsByte, encode_three, decode_four, first_byte, second_byte, third_byte, encode_one, encode_two,
  last_of_one, last_of_two, decode_end,
}

-- What is left when the characters are decoded: nothing, or up to five zero bits.
abbrev Leaves : Bytes → ℕ → ℕ → Type 0
Leaves bytes d p =
    ((p ≡ 0) × (length bytes % 3 ≡ 0))
    ⊎ ((0 < p) × (p < 6) × (d % 2 ^ p ≡ 0) × (length bytes % 3 ≢ 0))

three_more :
    (a b c : ℕ) (bytes : Bytes) (d p : ℕ) → Leaves bytes d p → Leaves (a ∷ b ∷ c ∷ bytes) d p
three_more a b c bytes d p (inl (none_left, full)) = inl (none_left, omega arith)
three_more a b c bytes d p (inr (some_left, few, zeros, partial)) =
    inr (some_left, few, zeros, omega arith)

same_three :
    (bytes : Bytes) (d p : ℕ) {x y z a b c : ℕ}
    → x ≡ a
    → y ≡ b
    → z ≡ c
    → ◌≡◌ {A = Decoded}
        (with_byte x (with_byte y (with_byte z (bytes, d, p))))
        (a ∷ b ∷ c ∷ bytes, d, p)
same_three bytes d p ex ey ez = rw (ex, ey, ez)

three_back :
    (e d a b c : ℕ) (bytes : Bytes) (d' p : ℕ)
    → IsByte a
    → IsByte b
    → IsByte c
    → let f = push_byte e a in
      let g = push_byte f b in
      let h = push_byte g c in
      let s = push_sextet d (f / 2 ^ 2 % 64) in
      let t = push_sextet s (g / 2 ^ 4 % 64) in
      let u = push_sextet t (h / 2 ^ 6 % 64) in
      let v = push_sextet u (h / 2 ^ 0 % 64) in
      ◌≡◌ {A = Decoded}
        (with_byte
          (t / 2 ^ 4 % 256)
          (with_byte (u / 2 ^ 2 % 256) (with_byte (v / 2 ^ 0 % 256) (bytes, d', p))))
        (a ∷ b ∷ c ∷ bytes, d', p)
three_back e d a b c bytes d' p ha hb hc =
    let s : ℕ = push_sextet d (push_byte e a / 2 ^ 2 % 64) in
    same_three bytes d' p (first_byte e d a b ha hb) (second_byte (push_byte e a) s b c hb hc) (
      third_byte (push_byte (push_byte e a) b)
        (push_sextet s (push_byte (push_byte e a) b / 2 ^ 4 % 64)) c hc)

decode_encoded :
    (bytes : Bytes) (e d k : ℕ)
    → All IsByte bytes
    → (d' p : ℕ) × (decode_chars d 0 (encode_bytes e 0 bytes ++ replicate k b'=') ≡ (bytes, d', p))
      × Leaves bytes d' p
decode_encoded [] e d k h = (d, 0, unfold encode_bytes in decode_end d 0 k, inl (refl, refl))
decode_encoded (a ∷ []) e d k (ha, _) =
    let f : ℕ = push_byte e a in
    let s : ℕ = push_sextet d (f / 2 ^ 2 % 64) in
    let t : ℕ = push_sextet s (f * 2 ^ 4 % u32_mod % 64) in
    (
      t,
      4,
      ap (λ (cs : Bytes). decode_chars d 0 (cs ++ replicate k b'=')) (encode_one e a)
          ∙ decode_pending d 0 _ _ (omega arith) (omega arith)
          ∙ decode_filled s 4 _ _ (omega arith)
          ∙ ap (with_byte (t / 2 ^ 4 % 256)) (decode_end t 4 k)
          ∙ ap (λ (b : ℕ). with_byte b ([], t, 4)) (last_of_one e d a ha).0,
      inr (omega arith, omega arith, (last_of_one e d a ha).1, omega arith),
    )
decode_encoded (a ∷ b ∷ []) e d k (ha, (hb, _)) =
    let f : ℕ = push_byte e a in
    let g : ℕ = push_byte f b in
    let s : ℕ = push_sextet d (f / 2 ^ 2 % 64) in
    let t : ℕ = push_sextet s (g / 2 ^ 4 % 64) in
    let u : ℕ = push_sextet t (g * 2 ^ 2 % u32_mod % 64) in
    (
      u,
      2,
      ap (λ (cs : Bytes). decode_chars d 0 (cs ++ replicate k b'=')) (encode_two e a b)
          ∙ decode_pending d 0 _ _ (omega arith) (omega arith)
          ∙ decode_filled s 4 _ _ (omega arith)
          ∙ ap (with_byte (t / 2 ^ 4 % 256)) (decode_filled t 2 _ _ (omega arith))
          ∙ ap (λ (r : Decoded). with_byte (t / 2 ^ 4 % 256) (with_byte (u / 2 ^ 2 % 256) r))
              (decode_end u 2 k)
          ∙ ap₂ (λ (x y : ℕ). with_byte x (with_byte y ([], u, 2))) (first_byte e d a b ha hb)
              (last_of_two f s b hb).0,
      inr (omega arith, omega arith, (last_of_two f s b hb).1, omega arith),
    )
decode_encoded (a ∷ b ∷ c ∷ bytes) e d k (ha, (hb, (hc, rest))) =
    let f : ℕ = push_byte e a in
    let g : ℕ = push_byte f b in
    let h : ℕ = push_byte g c in
    let s : ℕ = push_sextet d (f / 2 ^ 2 % 64) in
    let t : ℕ = push_sextet s (g / 2 ^ 4 % 64) in
    let u : ℕ = push_sextet t (h / 2 ^ 6 % 64) in
    let v : ℕ = push_sextet u (h / 2 ^ 0 % 64) in
    let (d', p, decoded, leaves) = decode_encoded bytes h v k rest in
    (
      d',
      p,
      ap (λ (cs : Bytes). decode_chars d 0 (cs ++ replicate k b'=')) (encode_three e a b c bytes)
          ∙ decode_four d _ _ _ _ _ (omega arith) (omega arith) (omega arith) (omega arith)
          ∙ ap
              (λ (r : Decoded).
                with_byte (t / 2 ^ 4 % 256)
                  (with_byte (u / 2 ^ 2 % 256) (with_byte (v / 2 ^ 0 % 256) r)))
              decoded
          ∙ three_back e d a b c bytes d' p ha hb hc,
      three_more a b c bytes d' p leaves,
    )

pad_quads_lem :
    (fuel : ℕ) (chars : Bytes) → (k : ℕ) × (pad_quads fuel chars ≡ chars ++ replicate k b'=')
unfolding pad_quads
pad_quads_lem zero chars = (0, sym (append-nil chars))
pad_quads_lem (suc fuel) chars =
    let (k, e) = pad_quads_lem fuel (chars ++ b'=' ∷ []) in
    elim (Bool-cases (eqb (length chars % 4) 0)) [
      | inl full ↦ (0, rw full (sym (append-nil chars)))
      | inr more ↦ (suc k, rw more (e ∙ append_assoc chars (b'=' ∷ []) (replicate k b'=')))
    ]

-- The result when some bits are pending, and when none are.
finish_pending :
    (bytes : Bytes) (d p : ℕ)
    → 0 < p
    → p < 6
    → d % 2 ^ p ≡ 0
    → finish (bytes, d, p) ≡ bytes ++ bit_and (shr (shr d p) 8) 0xff ∷ []
unfolding finish
finish_pending bytes d p some_left few zeros = ground (arith, bit_and_low_mask p d)

finish_done : (bytes : Bytes) (d : ℕ) → finish (bytes, d, 0) ≡ bytes
unfolding finish
finish_done [] d = refl
finish_done (b ∷ bytes) d = ground arith

-- What base64_decode gives of an encoded list of bytes begins with these bytes; one byte more
-- follows unless their number is a multiple of three.
pub base64_decode-base64_encode :
    (bytes : Bytes)
    → All IsByte bytes
    → (rest : Bytes) × (base64_decode (base64_encode bytes) ≡ bytes ++ rest)
      × (length rest ≡ (if eqb (length bytes % 3) 0 then 0 else 1))
unfolding base64_decode base64_encode
base64_decode-base64_encode bytes h =
    let (k, padded) = pad_quads_lem 3 (encode_bytes 0 0 bytes) in
    let (d, p, decoded, leaves) = decode_encoded bytes 0 0 k h in
    let whole : base64_decode (base64_encode bytes) ≡ finish (bytes, d, p) =
      ap (λ (cs : Bytes). finish (decode_chars 0 0 cs)) padded ∙ ap finish decoded in
    elim leaves [
      | inl (done, full) ↦ (
        [],
        whole
            ∙ ap (λ (q : ℕ). finish (bytes, d, q)) done
            ∙ finish_done bytes d
            ∙ sym (append-nil bytes),
        ground arith,
      )
      | inr (some_left, few, zeros, partial) ↦ (
        bit_and (shr (shr d p) 8) 0xff ∷ [],
        whole ∙ finish_pending bytes d p some_left few zeros,
        ground arith,
      )
    ]

byte_at-append :
    (bytes rest : Bytes) (i : ℕ) → i < length bytes → byte_at (bytes ++ rest) i ≡ byte_at bytes i
unfolding byte_at
byte_at-append [] rest i h = elim h [ ]
byte_at-append (b ∷ bytes) rest zero h = refl
byte_at-append (b ∷ bytes) rest (suc i) h = byte_at-append bytes rest i (omega arith)

-- The set of chunks that a client marks is the set that the host reads.
pub get_bitset-transport :
    (bytes : Bytes) (position : ℕ)
    → All IsByte bytes
    → position < 2 ^ 16
    → position / 8 < length bytes
    → get_bitset (base64_decode (base64_encode bytes)) position ≡ get_bitset bytes position
unfolding get_bitset
get_bitset-transport bytes position h small room =
    let (rest, e, _) = base64_decode-base64_encode bytes h in
    ap (λ (b : ℕ). not (eqb (bit_and b (2 ^ (position16 position % 8))) 0))
      (ap (λ (bs : Bytes). byte_at bs (position16 position / 8)) e
        ∙ byte_at-append bytes rest (position16 position / 8) (omega arith))
