-- ===== src/Base/Decimal.antt =====
-- Decimal numbers: what `std::to_string` and `fmt::format_int` print, and what `std::stoul` reads.
pub mod RoundTrip
use Prim.Native.Nat.{ℕ, zero, suc, ◌+◌, ◌*◌, ◌/◌, ◌%◌, ◌^◌, ◌-◌}
use mathlib.Core.Bool.{Bool, true, false, ◌&&◌, ◌||◌}
use mathlib.Core.List.{List, [], ◌∷◌, ◌++◌}
use mathlib.Core.Option.{Option, none, some}
use gekko_fs.Base.Tests.{leb, ltb, eqb, if◌then◌else◌}
use gekko_fs.Base.Eq.{Bytes}
use gekko_fs.Base.Integers.{ℤ, pos, negsuc, negate}

-- The digits of a number, before `acc`. Twenty digits are enough for a 64-bit number.
unfoldable pub digits : ℕ → ℕ → Bytes → Bytes
digits zero n acc = acc
digits (suc fuel) n acc =
    let more = digits fuel (n / 10) ((b'0' + n % 10) ∷ acc) in
    if ltb n 10 then (b'0' + n) ∷ acc else more

abbrev pub max_digits : ℕ
max_digits = 20

unfoldable pub to_string : ℕ → Bytes
to_string n = digits max_digits n []

abbrev pub is_digit : ℕ → Bool
is_digit c = leb b'0' c && leb c b'9'

-- The digits at the front, read onto `n`, and what follows them.
unfoldable pub read_digits : ℕ → Bytes → ℕ × Bytes
read_digits n [] = (n, [])
read_digits n (c ∷ cs) = if is_digit c then read_digits (n * 10 + (c - b'0')) cs else (n, c ∷ cs)

abbrev pub is_space : ℕ → Bool
is_space c = eqb c 32 || leb 9 c && leb c 13

unfoldable pub skip_spaces : Bytes → Bytes
skip_spaces [] = []
skip_spaces (c ∷ cs) = if is_space c then skip_spaces cs else c ∷ cs

-- The digits at the front; `none` is std::invalid_argument.
unfoldable pub magnitude : Bytes → Option (ℕ × Bytes)
magnitude [] = none
magnitude (c ∷ cs) = let r = read_digits 0 (c ∷ cs) in if is_digit c then some r else none

abbrev pub with_sign : Bool → Option (ℕ × Bytes) → Option (Bool × ℕ × Bytes)
with_sign negative none = none
with_sign negative (some (n, rest)) = some (negative, n, rest)

-- A sign and a number behind it.
unfoldable pub read_sign : Bytes → Option (Bool × ℕ × Bytes)
read_sign [] = none
read_sign (c ∷ cs) =
    if eqb c b'-'
    then with_sign true (magnitude cs)
    else if eqb c b'+'
    then with_sign false (magnitude cs)
    else with_sign false (magnitude (c ∷ cs))

-- A number that does not fit is std::out_of_range.
abbrev pub as_unsigned : Option (Bool × ℕ × Bytes) → Option (ℕ × Bytes)
as_unsigned none = none
as_unsigned (some (negative, n, rest)) =
    if ltb n (2 ^ 64) then some ((if negative then (2 ^ 64 - n) % 2 ^ 64 else n), rest) else none

abbrev pub as_signed : Option (Bool × ℕ × Bytes) → Option (ℤ × Bytes)
as_signed none = none
as_signed (some (false, n, rest)) = if ltb n (2 ^ 63) then some (pos n, rest) else none
as_signed (some (true, n, rest)) = if leb n (2 ^ 63) then some (negate n, rest) else none

unfoldable pub stoul : Bytes → Option (ℕ × Bytes)
stoul s = as_unsigned (read_sign (skip_spaces s))

unfoldable pub stol : Bytes → Option (ℤ × Bytes)
stol s = as_signed (read_sign (skip_spaces s))

unfoldable pub to_string_signed : ℤ → Bytes
to_string_signed (pos n) = to_string n
to_string_signed (negsuc n) = b'-' ∷ to_string (n + 1)
