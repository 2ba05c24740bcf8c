-- ===== src/Client/Files/Results.antt =====
-- What gkfs_write of src/client/gkfs_functions.cpp returns, and where it leaves the position of the
-- file: for writes whose size is an int, and for larger ones.
use gekko_fs.Base.{
  ℕ, ◌+◌, ◌-◌, ◌%◌, ◌^◌, ◌≤◌, ◌<◌, ◌≡◌, ◌≢◌, refl, ap, ◌∙◌, arith, true, false, eqb, if◌then◌else◌,
  length, some, inl, inr, Bool-cases,
}
use gekko_fs.Base.Eq.{Bytes, beq_refl, nat_eq}
use gekko_fs.Base.Integers.{ℤ, pos, negsuc, to_signed, to_unsigned}
use gekko_fs.Client.FileMap.{get}
use gekko_fs.Client.Files.{OpenFile, Remote, ClientSettings, Client, add_off, to_int, gkfs_write}
use gekko_fs.Client.Files.Writes.{Accepts, Wrote, IsRegular, start_of, gkfs_write-Wrote}

pub to_int-small : (n : ℕ) → n < 2 ^ 31 → to_int (pos n) ≡ pos n
to_int-small n h = ground arith

to_int-large : (n : ℕ) → 2 ^ 31 ≤ n → n < 2 ^ 32 → to_int (pos n) ≡ negsuc (2 ^ 32 - 1 - n)
to_int-large n h k = ground arith

add_off-small : (a b : ℕ) → a + b < 2 ^ 63 → to_unsigned (add_off (pos a) (pos b)) ≡ a + b
add_off-small a b h = ground arith

add_off-large :
    (a n : ℕ)
    → a < 2 ^ 63
    → 2 ^ 31 ≤ n
    → n < 2 ^ 32
    → to_unsigned (add_off (pos a) (negsuc (2 ^ 32 - 1 - n)))
      ≡ (a + (2 ^ 64 - (2 ^ 32 - n))) % 2 ^ 64
add_off-large a n h k l = ground arith

pub eqb-ne : (a b : ℕ) → a ≢ b → eqb a b ≡ false
eqb-ne a b h = ground arith

module _ (r : Remote) (g : ClientSettings) (ok : Accepts r) where
  open r use {State}

  -- Where the data of a write go: behind the file's end if it is opened to append.
  abbrev pub base_of : ℕ → Client State → ℕ
  base_of ptr c =
      if (c.files ptr).append
      then ok.end_of_file (c.files ptr).path c.remote
      else (c.files ptr).position

  start_of-base :
      (ptr : ℕ) (c : Client State)
      → (c.files ptr).position < 2 ^ 63
      → start_of r g ok (c.files ptr) (to_signed (c.files ptr).position) c ≡ pos (base_of ptr c)
  start_of-base ptr c h = elim (Bool-cases (c.files ptr).append) [
    | inl e ↦ ground arith
    | inr e ↦ ground arith
  ]

  abbrev start : ℕ → Client State → ℤ
  start ptr c = start_of r g ok (c.files ptr) (to_signed (c.files ptr).position) c

  position-Wrote :
      (ptr : ℕ) (start : ℤ) (size : ℕ) (c : Client State) (out : Client State × ℤ)
      → Wrote r g ok ptr start size true c out
      → (out.0.files ptr).position ≡ to_unsigned (add_off start (to_int (pos size)))
  position-Wrote ptr start size c out (ret, files, map, errno) =
      ap (λ (f : ℕ → OpenFile). (f ptr).position) files ∙ rw (beq_refl ptr) refl

  others-Wrote :
      (ptr ptr' : ℕ) (start : ℤ) (size : ℕ) (c : Client State) (out : Client State × ℤ)
      → Wrote r g ok ptr start size true c out
      → ptr' ≢ ptr
      → out.0.files ptr' ≡ c.files ptr'
  others-Wrote ptr ptr' start size c out (ret, files, map, errno) ne =
      ap (λ (f : ℕ → OpenFile). f ptr') files ∙ rw (eqb-ne ptr' ptr ne) refl

  module _ (fd ptr : ℕ) (buf : Bytes) (c : Client State) (at : get c.file_map fd ≡ some ptr)
      (reg : IsRegular r g ok ptr c) (in_range : (c.files ptr).position < 2 ^ 63) where
    -- A write of some bytes through a descriptor of a regular file returns its size and moves the
    -- position of the file, and of no other, to its end, counted from the end of the file that the
    -- daemons reserve if it is opened to append, and from its position otherwise, and errno stays,
    -- under all settings of proxy, replicas and caches, if the daemons accept every request, the
    -- size is below 2^31 and the positions are below 2^63.
    pub gkfs_write-position :
        0 < length buf
        → length buf < 2 ^ 31
        → base_of ptr c + length buf < 2 ^ 63
        → ((gkfs_write r g fd buf c).1 ≡ pos (length buf))
          × (((gkfs_write r g fd buf c).0.files ptr).position ≡ base_of ptr c + length buf)
          × ((ptr' : ℕ) → ptr' ≢ ptr → (gkfs_write r g fd buf c).0.files ptr' ≡ c.files ptr')
          × ((gkfs_write r g fd buf c).0.errno ≡ c.errno)
    gkfs_write-position some_bytes small fits =
        let w = gkfs_write-Wrote r g ok fd ptr buf c some_bytes at reg in
        (
          w.0 ∙ to_int-small (length buf) small,
          position-Wrote ptr (start ptr c) (length buf) c (gkfs_write r g fd buf c) w
              ∙ rw (start_of-base ptr c in_range, to_int-small (length buf) small)
                  (add_off-small (base_of ptr c) (length buf) fits),
          (λ ptr' ne.
              others-Wrote ptr ptr' (start ptr c) (length buf) c (gkfs_write r g fd buf c) w ne),
          w.3,
        )

    -- A write of 2^31 bytes or more, below 2^32, that the daemons accept returns its size less
    -- 2^32, a negative number, moves the position back by as much, and leaves errno.
    pub gkfs_write-large :
        2 ^ 31 ≤ length buf
        → length buf < 2 ^ 32
        → base_of ptr c < 2 ^ 63
        → ((gkfs_write r g fd buf c).1 ≡ negsuc (2 ^ 32 - 1 - length buf))
          × (((gkfs_write r g fd buf c).0.files ptr).position
              ≡ (base_of ptr c + (2 ^ 64 - (2 ^ 32 - length buf))) % 2 ^ 64)
          × ((gkfs_write r g fd buf c).0.errno ≡ c.errno)
    gkfs_write-large large int32 fits =
        let w = gkfs_write-Wrote r g ok fd ptr buf c (omega arith) at reg in
        (
          w.0 ∙ to_int-large (length buf) large int32,
          position-Wrote ptr (start ptr c) (length buf) c (gkfs_write r g fd buf c) w
              ∙ rw (start_of-base ptr c in_range, to_int-large (length buf) large int32)
                  (add_off-large (base_of ptr c) (length buf) fits large int32),
          w.3,
        )
