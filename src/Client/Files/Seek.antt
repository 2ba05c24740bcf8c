-- ===== src/Client/Files/Seek.antt =====
-- gkfs_lseek of src/client/gkfs_functions.cpp, and the position that a seek asks for.
use gekko_fs.Base.{
  not, ◌&&◌, Bool, ltb, eqb, ℕ, zero, suc, ◌+◌, ◌-◌, ◌^◌, ◌≤◌, ◌<◌, ◌≡◌, ◌≢◌, refl, ap, ap₂, arith,
  true, false, subst, leb, if◌then◌else◌, Option, some, none, inl, inr, Bool-cases, lt→ltb,
  le→ltb_false, leb→le,
}
use gekko_fs.Base.Integers.{ℤ, pos, negsuc, to_signed, to_unsigned, IsInt64}
use gekko_fs.Base.Eq.{Bytes}
use gekko_fs.Base.Words.{add64, sub64}
use gekko_fs.Client.Files.{Remote, ClientSettings, Client, add_off, fail, set_pos}

abbrev pub einval : ℕ
einval = 22

abbrev pub is_negative : ℤ → Bool
is_negative (pos n) = false
is_negative (negsuc n) = true

-- The negative of a 64-bit integer, which is itself for -2^63.
abbrev pub negated : ℤ → ℤ
negated n = to_signed (sub64 0 (to_unsigned n))

abbrev pub less : ℤ → ℤ → Bool
less (pos a) (pos b) = ltb a b
less (pos a) (negsuc b) = false
less (negsuc a) (pos b) = true
less (negsuc a) (negsuc b) = ltb b a

negated-negsuc : (n : ℕ) → n < 2 ^ 63 - 1 → negated (negsuc n) ≡ pos (suc n)
negated-negsuc n lt =
    let back : sub64 0 (to_unsigned (negsuc n)) ≡ suc n = omega arith in
    rw (back, lt→ltb (suc n) (2 ^ 63) (omega arith)) refl

-- The whence of a seek, with any other number.
pub data Whence : Type 0 where
  seek_set seek_cur seek_end seek_data seek_hole unknown : Whence

module _ (r : Remote) (g : ClientSettings) where
  open r use {State, forward_get_metadentry_size, forward_get_metadentry_size_proxy}

  abbrev pub seek_to : ℕ → ℕ → Client State → Client State × ℤ
  seek_to ptr position c = (set_pos r g ptr position c, to_signed position)

  abbrev pub seek_size : Bytes → State → ℕ × ℤ
  seek_size path s =
      if g.fwd_get_size && g.use_proxy
      then forward_get_metadentry_size_proxy path s
      else forward_get_metadentry_size path 0 s

  -- offset < 0 && file_size < -offset
  abbrev pub before_start : ℤ → ℤ → Bool
  before_start file_size offset = is_negative offset && less file_size (negated offset)

  abbrev pub seek_from_end : ℕ → ℤ → Client State → ℕ × ℤ → Client State × ℤ
  seek_from_end ptr offset c (err, file_size) =
      if not (eqb err 0)
      then fail r g err c
      else if before_start file_size offset
      then fail r g einval c
      else seek_to ptr (to_unsigned (add_off file_size offset)) c

  unfoldable pub gkfs_lseek : ℕ → ℤ → Whence → Client State → Client State × ℤ
  gkfs_lseek ptr offset seek_set c =
      if is_negative offset then fail r g einval c else seek_to ptr (to_unsigned offset) c
  gkfs_lseek ptr offset seek_cur c =
      seek_to ptr (add64 (c.files ptr).position (to_unsigned offset)) c
  gkfs_lseek ptr offset seek_end c =
      seek_from_end ptr offset c (seek_size (c.files ptr).path c.remote)
  gkfs_lseek ptr offset seek_data c = fail r g einval c
  gkfs_lseek ptr offset seek_hole c = fail r g einval c
  gkfs_lseek ptr offset unknown c = fail r g einval c

-- The sum of a position and an offset.
abbrev pub shifted : ℕ → ℤ → ℤ
shifted base (pos n) = pos (base + n)
shifted base (negsuc n) = if leb (suc n) base then pos (base - suc n) else negsuc (n - base)

abbrev IsNatural : ℤ → Type 0
IsNatural (pos n) = Unit {0}
IsNatural (negsuc n) = ⊥

shifted_in : (base n : ℕ) → leb (suc n) base ≡ true → shifted base (negsuc n) ≡ pos (base - suc n)
shifted_in base n e = rw e refl

shifted_out : (base n : ℕ) → leb (suc n) base ≡ false → shifted base (negsuc n) ≡ negsuc (n - base)
shifted_out base n e = rw e refl

Option_some-eq : (a b : ℕ) → some a ≡ some b → a ≡ b
Option_some-eq a b e = cc

module _ (r : Remote) (g : ClientSettings) where
  open r use {State}

  -- Where a seek counts from: nowhere if it is not supported, or the size cannot be had.
  abbrev pub size_or_none : ℕ × ℤ → Option ℕ
  size_or_none (zero, pos size) = some size
  size_or_none (zero, negsuc n) = none
  size_or_none (suc err, n) = none

  abbrev pub origin : ℕ → Whence → Client State → Option ℕ
  origin ptr seek_set c = some 0
  origin ptr seek_cur c = some (c.files ptr).position
  origin ptr seek_end c = size_or_none (seek_size r g (c.files ptr).path c.remote)
  origin ptr seek_data c = none
  origin ptr seek_hole c = none
  origin ptr unknown c = none

  -- The new position, or EINVAL if it is negative and the seek is not from the old position.
  abbrev pub moved_to : ℕ → Client State → ℤ → Client State × ℤ
  moved_to ptr c (pos target) = (set_pos r g ptr target c, pos target)
  moved_to ptr c (negsuc n) = fail r g einval c

  seek_to-signed :
      (ptr target wrapped : ℕ) (c : Client State)
      → target < 2 ^ 63
      → wrapped ≡ target
      → seek_to r g ptr wrapped c ≡ moved_to ptr c (pos target)
  seek_to-signed ptr target wrapped c lt e = rw (e, lt→ltb target (2 ^ 63) lt) refl

  seek_to-moved :
      (ptr base : ℕ) (offset : ℤ) (c : Client State)
      → base < 2 ^ 63
      → IsInt64 offset
      → IsInt64 (shifted base offset)
      → IsNatural (shifted base offset)
      → seek_to r g ptr (add64 base (to_unsigned offset)) c ≡ moved_to ptr c (shifted base offset)
  seek_to-moved ptr base (pos n) c lt i j natural =
      seek_to-signed ptr (base + n) (add64 base n) c j (omega arith)
  seek_to-moved ptr base (negsuc n) c lt i j natural = elim (Bool-cases (leb (suc n) base)) [
    | inl e ↦ rw (shifted_in base n e) (
        seek_to-signed ptr (base - suc n) (add64 base (to_unsigned (negsuc n))) c
          (omega (arith, leb→le (suc n) base e)) (omega (arith, leb→le (suc n) base e)))
    | inr e ↦ absurd (subst IsNatural (shifted_out base n e) natural)
  ]

  seek_set-moved :
      (ptr : ℕ) (offset : ℤ) (c : Client State)
      → IsInt64 offset
      → gkfs_lseek r g ptr offset seek_set c ≡ moved_to ptr c (shifted 0 offset)
  unfolding gkfs_lseek
  seek_set-moved ptr (pos n) c i = seek_to-signed ptr (0 + n) n c (omega arith) (omega arith)
  seek_set-moved ptr (negsuc n) c i = rw (shifted_out 0 n (ground arith)) refl

  seek_end-moved :
      (ptr : ℕ) (offset : ℤ) (base : ℕ) (c : Client State) (answer : ℕ × ℤ)
      → size_or_none answer ≡ some base
      → base < 2 ^ 63
      → IsInt64 offset
      → IsInt64 (shifted base offset)
      → offset ≢ negsuc (2 ^ 63 - 1)
      → seek_from_end r g ptr offset c answer ≡ moved_to ptr c (shifted base offset)
  seek_end-moved ptr (pos n) base c (zero, pos size) e lt i j k =
      rw (Option_some-eq size base e) (
        seek_to-signed ptr (base + n) (to_unsigned (add_off (pos base) (pos n))) c j (ground arith))
  seek_end-moved ptr (negsuc n) base c (zero, pos size) e lt i j k =
      let last : n ≢ 2 ^ 63 - 1 = λ q. k (ap negsuc q) in
      let opposite : negated (negsuc n) ≡ pos (suc n) = negated-negsuc n (omega (arith, last)) in
      elim (Bool-cases (leb (suc n) base)) [
        | inl e' ↦
            let le = leb→le (suc n) base e' in
            rw (opposite, le→ltb_false size (suc n) (ground (arith, le)), shifted_in base n e')
              (seek_to-signed ptr (base - suc n) (to_unsigned (add_off (pos size) (negsuc n))) c
                (omega (arith, le)) (ground (arith, le)))
        | inr e' ↦ rw (opposite, lt→ltb size (suc n) (ground arith), shifted_out base n e') refl
      ]
  seek_end-moved ptr offset base c (zero, negsuc n) e lt i j k = cc
  seek_end-moved ptr offset base c (suc err, n) e lt i j k = cc

  -- A seek from the start or the end of a file moves to the sum of that and the offset, and fails
  -- with EINVAL and no move if it is negative; a seek from the position does the same if the sum is
  -- not negative; the condition is that the size can be had, all numbers are in the range of 64
  -- bits, and the offset of a seek from the end is not -2^63.
  pub gkfs_lseek-target :
      (ptr : ℕ) (offset : ℤ) (whence : Whence) (base : ℕ) (c : Client State)
      → origin ptr whence c ≡ some base
      → base < 2 ^ 63
      → IsInt64 offset
      → IsInt64 (shifted base offset)
      → (whence ≡ seek_cur → IsNatural (shifted base offset))
      → (whence ≡ seek_end → offset ≢ negsuc (2 ^ 63 - 1))
      → gkfs_lseek r g ptr offset whence c ≡ moved_to ptr c (shifted base offset)
  unfolding gkfs_lseek
  gkfs_lseek-target ptr offset seek_set base c e lt i j n k =
      rw (← Option_some-eq 0 base e) (seek_set-moved ptr offset c i)
  gkfs_lseek-target ptr offset seek_cur base c e lt i j n k =
      rw (Option_some-eq (c.files ptr).position base e)
        (seek_to-moved ptr base offset c lt i j (n refl))
  gkfs_lseek-target ptr offset seek_end base c e lt i j n k =
      seek_end-moved ptr offset base c (seek_size r g (c.files ptr).path c.remote) e lt i j (k refl)
  gkfs_lseek-target ptr offset seek_data base c e lt i j n k = cc
  gkfs_lseek-target ptr offset seek_hole base c e lt i j n k = cc
  gkfs_lseek-target ptr offset unknown base c e lt i j n k = cc

  -- A seek from the position to before the start of the file has no error: the position wraps
  -- around to one above 2^63, and the result is the negative number, if the offset is negative, not
  -- below -2^63, and reaches before the start.
  pub gkfs_lseek-wraps :
      (ptr n : ℕ) (c : Client State)
      → n < 2 ^ 63
      → (c.files ptr).position ≤ n
      → gkfs_lseek r g ptr (negsuc n) seek_cur c ≡ (
        set_pos r g ptr (2 ^ 64 + (c.files ptr).position - suc n) c,
        negsuc (n - (c.files ptr).position),
      )
  unfolding gkfs_lseek
  gkfs_lseek-wraps ptr n c lt le =
      let p : ℕ = (c.files ptr).position in
      let wrapped : add64 p (2 ^ 64 - 1 - n) ≡ 2 ^ 64 + p - suc n = omega arith in
      let back : 2 ^ 64 - 1 - add64 p (2 ^ 64 - 1 - n) ≡ n - p = omega arith in
      rw (le→ltb_false (add64 p (2 ^ 64 - 1 - n)) (2 ^ 63) (omega arith))
        (ap₂ (λ (a b : ℕ). (set_pos r g ptr a c, negsuc b)) wrapped back)
