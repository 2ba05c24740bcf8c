-- ===== src/Tests/Arithmetic.antt =====
-- Examples for include/common/arithmetic/arithmetic.hpp and src/common/rpc/rpc_util.cpp.
use gekko_fs.Base.{◌%◌, ◌≡◌, eqb, if◌then◌else◌, [], ◌∷◌, ◌++◌, length, arith}
use gekko_fs.Base.Eq.{Bytes}
use gekko_fs.Common.Bitset.{get_bitset}
use gekko_fs.Common.Bitset.Base64.{base64_encode, base64_decode}
use gekko_fs.Common.Bitset.RoundTrip.{base64_decode-base64_encode, get_bitset-transport}

abbrev three_bytes : Bytes
three_bytes = 0 ∷ 5 ∷ 255 ∷ []

base64_decode-base64_encode_example :
    (rest : Bytes) × (base64_decode (base64_encode three_bytes) ≡ three_bytes ++ rest)
    × (length rest ≡ (if eqb (length three_bytes % 3) 0 then 0 else 1))
base64_decode-base64_encode_example =
    base64_decode-base64_encode three_bytes (omega arith, (omega arith, (omega arith, tt)))

get_bitset-transport_example :
    get_bitset (base64_decode (base64_encode three_bytes)) 10 ≡ get_bitset three_bytes 10
get_bitset-transport_example =
    get_bitset-transport three_bytes 10 (omega arith, (omega arith, (omega arith, tt)))
      (omega arith) (omega arith)
