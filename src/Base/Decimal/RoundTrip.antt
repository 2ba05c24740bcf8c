-- ===== src/Base/Decimal/RoundTrip.antt =====
-- Reading what was printed.
use gekko_fs.Base.{
  ℕ, zero, suc, ◌+◌, ◌-◌, ◌*◌, ◌/◌, ◌%◌, ◌^◌, ◌<◌, ◌≡◌, refl, sym, ap, ◌∙◌, true, false, arith, eqb,
  ltb, [], ◌∷◌, ◌++◌, some, Bool-cases, inl, inr, lt→ltb, le→leb,
}
use gekko_fs.Base.Eq.{Bytes}
use gekko_fs.Base.Integers.{ℤ, pos, negsuc, negate, to_unsigned, IsInt64}
use gekko_fs.Base.Decimal.{
  digits, to_string, is_digit, read_digits, is_space, skip_spaces, magnitude, with_sign, read_sign,
  as_unsigned, as_signed, stoul, stol, to_string_signed,
}

-- No digit is at the front.
abbrev pub EndsNumber : Bytes → Type 0
EndsNumber [] = Unit
EndsNumber (c ∷ cs) = is_digit c ≡ false

read_digits-end : (n : ℕ) (rest : Bytes) → EndsNumber rest → read_digits n rest ≡ (n, rest)
unfolding read_digits
read_digits-end n [] h = refl
read_digits-end n (c ∷ cs) h = rw h refl

read_digits-digit :
    (n d : ℕ) (rest : Bytes)
    → d < 10
    → read_digits n ((b'0' + d) ∷ rest) ≡ read_digits (n * 10 + d) rest
unfolding read_digits
read_digits-digit n d rest h = ground (
  arith,
  ap (λ (m : ℕ). read_digits m rest) {x = n * 10 + (b'0' + d - b'0')} {y = n * 10 + d}
      (omega arith),
)

read_digits-first :
    (d : ℕ) (rest : Bytes) → d < 10 → read_digits 0 ((b'0' + d) ∷ rest) ≡ read_digits d rest
read_digits-first d rest h =
    read_digits-digit 0 d rest h ∙ ap (λ (m : ℕ). read_digits m rest) (omega arith)

ten_pow_suc : (k : ℕ) → 10 ^ suc k ≡ 10 ^ k * 10
ten_pow_suc k = omega arith

-- Reading goes on behind the digits with the number that they were printed for.
read_digits-digits :
    (fuel n : ℕ) (acc rest : Bytes)
    → n < 10 ^ suc fuel
    → read_digits 0 (digits (suc fuel) n acc ++ rest) ≡ read_digits n (acc ++ rest)
unfolding digits
read_digits-digits zero n acc rest h =
    rw (lt→ltb n 10 (omega (arith, h))) (read_digits-first n (acc ++ rest) (omega arith))
read_digits-digits (suc fuel) n acc rest h = elim (Bool-cases (ltb n 10)) [
  | inl small ↦ rw small (read_digits-first n (acc ++ rest) (ground arith))
  | inr large ↦ rw large (
      read_digits-digits fuel (n / 10) ((b'0' + n % 10) ∷ acc) rest
        (omega (arith, ten_pow_suc (suc fuel)))
      ∙ read_digits-digit (n / 10) (n % 10) (acc ++ rest) (omega arith)
      ∙ ap (λ (m : ℕ). read_digits m (acc ++ rest)) (omega arith))
]

digits-head :
    (fuel n : ℕ) (acc : Bytes)
    → (c : ℕ) × (cs : Bytes) × (digits (suc fuel) n acc ≡ c ∷ cs) × (is_digit c ≡ true)
unfolding digits
digits-head zero n acc = elim (Bool-cases (ltb n 10)) [
  | inl small ↦ (b'0' + n, acc, rw small refl, ground arith)
  | inr large ↦ (b'0' + n % 10, acc, rw large refl, ground arith)
]
digits-head (suc fuel) n acc = elim (Bool-cases (ltb n 10)) [
  | inl small ↦ (b'0' + n, acc, rw small refl, ground arith)
  | inr large ↦
      let (c, cs, e, d) = digits-head fuel (n / 10) ((b'0' + n % 10) ∷ acc) in
      (c, cs, rw large e, d)
]

magnitude-to_string :
    (n : ℕ) (rest : Bytes)
    → EndsNumber rest
    → n < 10 ^ 20
    → magnitude (to_string n ++ rest) ≡ some (n, rest)
unfolding to_string magnitude
magnitude-to_string n rest ends twenty =
    let (c, cs, e, d) = digits-head 19 n [] in
    ap (λ (s : Bytes). magnitude (s ++ rest)) e
    ∙ rw d (
        ap some (
          ap (λ (s : Bytes). read_digits 0 (s ++ rest)) (sym e)
          ∙ read_digits-digits 19 n [] rest twenty
          ∙ read_digits-end n rest ends))

-- A digit is no white space and no sign.
read_sign-digit :
    (c : ℕ) (cs : Bytes)
    → is_digit c ≡ true
    → read_sign (skip_spaces (c ∷ cs)) ≡ with_sign false (magnitude (c ∷ cs))
unfolding read_sign skip_spaces
read_sign-digit c cs d = rw no_space (rw no_minus (rw no_plus refl))
  where
    no_space : is_space c ≡ false
    no_space = ground arith

    no_minus : eqb c b'-' ≡ false
    no_minus = ground arith

    no_plus : eqb c b'+' ≡ false
    no_plus = ground arith

read_sign-to_string :
    (n : ℕ) (rest : Bytes)
    → EndsNumber rest
    → n < 10 ^ 20
    → read_sign (skip_spaces (to_string n ++ rest)) ≡ some (false, n, rest)
unfolding to_string
read_sign-to_string n rest ends twenty =
    let (c, cs, e, d) = digits-head 19 n [] in
    ap (λ (s : Bytes). read_sign (skip_spaces (s ++ rest))) e
    ∙ read_sign-digit c (cs ++ rest) d
    ∙ ap (λ (s : Bytes). with_sign false (magnitude (s ++ rest))) (sym e)
    ∙ ap (with_sign false) (magnitude-to_string n rest ends twenty)

read_sign-minus :
    (n : ℕ) (rest : Bytes)
    → EndsNumber rest
    → n < 10 ^ 20
    → read_sign (skip_spaces (b'-' ∷ (to_string n ++ rest))) ≡ some (true, n, rest)
unfolding read_sign skip_spaces
read_sign-minus n rest ends twenty = ap (with_sign true) (magnitude-to_string n rest ends twenty)

pub stoul-to_string :
    (n : ℕ) (rest : Bytes)
    → EndsNumber rest
    → n < 2 ^ 64
    → stoul (to_string n ++ rest) ≡ some (n, rest)
unfolding stoul
stoul-to_string n rest ends h =
    ap as_unsigned (read_sign-to_string n rest ends (omega (arith, h)))
    ∙ rw (lt→ltb n (2 ^ 64) h) refl

pub stol-to_string :
    (n : ℕ) (rest : Bytes)
    → EndsNumber rest
    → n < 2 ^ 63
    → stol (to_string n ++ rest) ≡ some (pos n, rest)
unfolding stol
stol-to_string n rest ends h =
    ap as_signed (read_sign-to_string n rest ends (omega (arith, h)))
    ∙ rw (lt→ltb n (2 ^ 63) h) refl

negate-suc : (n : ℕ) → negate (n + 1) ≡ negsuc n
negate-suc n = ap negate {x = n + 1} {y = suc n} (omega arith)

pub stol-to_string_signed :
    (z : ℤ) (rest : Bytes)
    → EndsNumber rest
    → IsInt64 z
    → stol (to_string_signed z ++ rest) ≡ some (z, rest)
unfolding stol to_string_signed
stol-to_string_signed (pos n) rest ends h = stol-to_string n rest ends h
stol-to_string_signed (negsuc n) rest ends h =
    ap as_signed (read_sign-minus (n + 1) rest ends (omega (arith, h)))
    ∙ rw (le→leb (n + 1) (2 ^ 63) (omega (arith, h)))
        (ap (λ (z : ℤ). some (z, rest)) (negate-suc n))

-- `std::stoul` takes a negative number too, and gives its representation.
pub stoul-to_string_signed :
    (z : ℤ) (rest : Bytes)
    → EndsNumber rest
    → IsInt64 z
    → stoul (to_string_signed z ++ rest) ≡ some (to_unsigned z, rest)
unfolding stoul to_string_signed
stoul-to_string_signed (pos n) rest ends h = stoul-to_string n rest ends (omega (arith, h))
stoul-to_string_signed (negsuc n) rest ends h =
    ap as_unsigned (read_sign-minus (n + 1) rest ends (omega (arith, h)))
    ∙ rw (lt→ltb (n + 1) (2 ^ 64) (omega (arith, h)))
        (ap (λ (m : ℕ). some (m, rest)) (omega (arith, h)))

-- A number has a digit.
pub to_string-head : (n : ℕ) → (c : ℕ) × (cs : Bytes) × (to_string n ≡ c ∷ cs)
unfolding to_string
to_string-head n = let (c, cs, e, _) = digits-head 19 n [] in (c, cs, e)
