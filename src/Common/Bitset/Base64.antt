-- ===== src/Common/Bitset/Base64.antt =====
-- base64_encode and base64_decode of src/common/rpc/rpc_util.cpp, on the 32-bit buffer and the
-- count of pending bits that the code calls `padding`.
use gekko_fs.Base.{
  ℕ, zero, suc, ◌+◌, ◌-◌, ◌*◌, ◌%◌, ◌^◌, ◌&&◌, eqb, leb, ltb, ◌≡◌, refl, bit_and, bit_or,
  if◌then◌else◌, [], ◌∷◌, ◌++◌, length, Option, none, some,
}
use gekko_fs.Base.Eq.{Bytes}
use gekko_fs.Base.Text.{codes}
use gekko_fs.Base.Words.{u32_mod, shr}
use gekko_fs.Common.Bitset.{byte_at}

abbrev pub base64_chars : Bytes
base64_chars = codes "ABCDEFGHIJKLMNOPQRSTUVWXYZabcdefghijklmnopqrstuvwxyz0123456789+/"

-- std::string::find of one character
unfoldable pub index_of : ℕ → Bytes → Option ℕ
index_of c [] = none
index_of c (x ∷ xs) =
    if eqb x c then some 0 else elim (index_of c xs) [ none ↦ none | some i ↦ some (suc i) ]

-- base64_chars[i]
unfoldable pub base64_char : ℕ → ℕ
base64_char i = byte_at base64_chars i

-- (buffer << 8) | byte
unfoldable pub push_byte : ℕ → ℕ → ℕ
push_byte buffer byte = bit_or (buffer * 2 ^ 8 % u32_mod) byte

-- base64_chars[(buffer >> padding) & 0x3F]
unfoldable pub sextet : ℕ → ℕ → ℕ
sextet buffer padding = base64_char (bit_and (shr buffer padding) 0x3f)

-- while(padding >= 6), with what is left of `padding`. Every round takes 6 bits off.
unfoldable pub emit_sextets : ℕ → ℕ → ℕ → Bytes × ℕ
emit_sextets zero buffer padding = ([], padding)
emit_sextets (suc fuel) buffer padding =
    let rest = emit_sextets fuel buffer (padding - 6) in
    if leb 6 padding then (sextet buffer (padding - 6) ∷ rest.0, rest.1) else ([], padding)

-- The loop over the bytes, and the last, partly filled character. At most 13 bits are pending.
unfoldable pub encode_bytes : ℕ → ℕ → Bytes → Bytes
encode_bytes buffer padding [] =
    if ltb 0 padding
    then base64_char (bit_and (buffer * 2 ^ (6 - padding) % u32_mod) 0x3f) ∷ []
    else []
encode_bytes buffer padding (byte ∷ bytes) =
    let filled = push_byte buffer byte in
    let (chars, pending) = emit_sextets 3 filled (padding + 8) in
    chars ++ encode_bytes filled pending bytes

-- while(length % 4 != 0) add '='. Three rounds are enough for every length.
unfoldable pub pad_quads : ℕ → Bytes → Bytes
pad_quads zero chars = chars
pad_quads (suc fuel) chars =
    let padded = pad_quads fuel (chars ++ b'=' ∷ []) in
    if eqb (length chars % 4) 0 then chars else padded

unfoldable pub base64_encode : Bytes → Bytes
base64_encode bytes = pad_quads 3 (encode_bytes 0 0 bytes)

-- (buffer << 6) | value
unfoldable pub push_sextet : ℕ → ℕ → ℕ
push_sextet buffer value = bit_or (buffer * 2 ^ 6 % u32_mod) value

-- The state of the decoder: the bytes so far to come, the buffer and the pending bits.
abbrev pub Decoded : Type 0
Decoded = Bytes × ℕ × ℕ

abbrev pub with_byte : ℕ → Decoded → Decoded
with_byte byte (bytes, buffer, padding) = (byte ∷ bytes, buffer, padding)

-- The loop over the characters: it stops at '=' and skips what is no character of the alphabet.
unfoldable pub decode_chars : ℕ → ℕ → Bytes → Decoded
decode_chars buffer padding [] = ([], buffer, padding)
decode_chars buffer padding (c ∷ cs) =
    let skipped = decode_chars buffer padding cs in
    if eqb c b'=' then ([], buffer, padding) else elim (index_of c base64_chars) [
      | none ↦ skipped
      | some value ↦
          let filled = push_sextet buffer value in
          if leb 8 (padding + 6)
          then with_byte (bit_and (shr filled (padding + 6 - 8)) 0xff)
              (decode_chars filled (padding + 6 - 8) cs)
          else decode_chars filled (padding + 6) cs
    ]

-- What follows the loop: the rest bits, and the result.
unfoldable pub finish : Decoded → Bytes
finish (bytes, buffer, padding) =
    if ltb 0 padding && ltb padding 6 && eqb (bit_and buffer (2 ^ padding - 1)) 0
    then bytes ++ bit_and (shr (shr buffer padding) 8) 0xff ∷ []
    else if eqb (length bytes) 0
    then []
    else if eqb (padding % 8) 0
    then bytes
    else []

unfoldable pub base64_decode : Bytes → Bytes
base64_decode encoded = finish (decode_chars 0 0 encoded)

-- Three bytes are four characters and back; of one byte more comes back than was put in.
decode_three : base64_decode (base64_encode (1 ∷ 2 ∷ 255 ∷ [])) ≡ 1 ∷ 2 ∷ 255 ∷ []
unfolding base64_decode decode_chars push_sextet index_of finish base64_encode encode_bytes
    push_byte emit_sextets sextet base64_char byte_at pad_quads
decode_three = refl

decode_one : base64_decode (base64_encode (0xab ∷ [])) ≡ 0xab ∷ 0 ∷ []
unfolding base64_decode decode_chars push_sextet index_of finish base64_encode encode_bytes
    push_byte emit_sextets sextet base64_char byte_at pad_quads
decode_one = refl
