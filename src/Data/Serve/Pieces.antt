-- ===== src/Data/Serve/Pieces.antt =====
-- The part of a write or read that lies in one chunk, and its share of the interval.
use gekko_fs.Base.{
  ℕ, zero, suc, ◌+◌, ◌-◌, ◌*◌, ◌/◌, ◌%◌, ◌^◌, ◌≤◌, ◌<◌, min, max, ◌≡◌, ap, ◌∙◌, Bool, not, ◌&&◌,
  arith, eqb, if◌then◌else◌, length, sum, map,
}
use gekko_fs.Base.Words.{add64}
use gekko_fs.Common.Arithmetic.{block_index, block_overrun, block_underrun, is_aligned}
use gekko_fs.Common.Arithmetic.Blocks.{
  block_index-div, block_overrun-mod, block_underrun-mod, is_aligned-mod,
}
use gekko_fs.Data.{chunksize}
use gekko_fs.Data.Write.{span, contains}
use gekko_fs.Data.Write.Folds.{served, contains-served}

-- The first byte of the file's interval in the chunk and the one behind the last, as positions in
-- the file.
abbrev pub piece_start : ℕ → ℕ → ℕ
piece_start offset c = max (c * chunksize) offset

abbrev pub piece_end : ℕ → ℕ → ℕ → ℕ
piece_end offset size c = min ((c + 1) * chunksize) (offset + size)

unfoldable pub piece_size : ℕ → ℕ → ℕ → ℕ
piece_size offset size c = piece_end offset size c - piece_start offset c

module _ (offset size : ℕ) (some_bytes : 0 < size) (fits : offset + size < 2 ^ 64) where
  pub chnk_start-span : (span offset size).chnk_start ≡ offset / chunksize
  unfolding span
  chnk_start-span = block_index-div 19 offset (omega arith) (omega arith)

  pub chnk_end-span : (span offset size).chnk_end ≡ (offset + size - 1) / chunksize
  unfolding span
  chnk_end-span =
      ap (λ (n : ℕ). block_index n chunksize) (omega arith)
      ∙ block_index-div 19 (offset + size - 1) (omega arith) (omega arith)

  pub overrun-eq : block_overrun offset chunksize ≡ offset % chunksize
  overrun-eq = block_overrun-mod 19 offset (omega arith) (omega arith)

  pub aligned-eq : is_aligned (add64 offset size) chunksize ≡ eqb ((offset + size) % chunksize) 0
  aligned-eq =
      ap (λ (n : ℕ). is_aligned n chunksize) (omega arith)
      ∙ is_aligned-mod 19 (offset + size) (omega arith)

  pub underrun-eq :
      block_underrun (add64 offset size) chunksize ≡ chunksize - (offset + size) % chunksize
  underrun-eq =
      ap (λ (n : ℕ). block_underrun n chunksize) (omega arith)
      ∙ block_underrun-mod 19 (offset + size) (omega arith) (omega arith)

  abbrev pub first_chunk : ℕ
  first_chunk = offset / chunksize

  abbrev pub last_chunk : ℕ
  last_chunk = (offset + size - 1) / chunksize

  abbrev pub missing_left : Bool → ℕ
  missing_left b = if b then offset % chunksize else 0

  abbrev pub missing_right : Bool → ℕ
  missing_right b =
      if b && not (eqb ((offset + size) % chunksize) 0)
      then chunksize - (offset + size) % chunksize
      else 0

  -- A chunk of the interval is full but for what lies before the offset and behind the end.
  pub piece_size-eq :
      (c : ℕ)
      → first_chunk ≤ c
      → c ≤ last_chunk
      → piece_size offset size c
          + missing_left (eqb c first_chunk)
          + missing_right (eqb c last_chunk)
        ≡ chunksize
  unfolding piece_size
  piece_size-eq c lo hi = ground arith

  module _ (f : ℕ → Bool) where
    pub sum-served :
        (c n : ℕ)
        → first_chunk ≤ c
        → c + n ≤ last_chunk + 1
        → sum (map (piece_size offset size) (served f c n))
            + missing_left (contains first_chunk (served f c n))
            + missing_right (contains last_chunk (served f c n))
          ≡ length (served f c n) * chunksize
    unfolding served contains
    sum-served c zero lo hi = ground arith
    sum-served c (suc n) lo hi = ground (
      arith,
      sum-served (c + 1) n (omega arith) (omega arith),
      piece_size-eq c lo (omega arith),
      contains-served f first_chunk (c + 1) n,
      contains-served f last_chunk (c + 1) n,
    )
