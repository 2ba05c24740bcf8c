-- ===== src/Data/Truncate/Chunks.antt =====
-- What truncate_abt of src/daemon/ops/data.cpp leaves of the chunks of a file.
use gekko_fs.Base.{
  ℕ, ◌+◌, ◌/◌, ◌%◌, ◌^◌, ◌<◌, ◌≡◌, ◌≢◌, refl, ap, ◌∙◌, Bool, true, false, not, ◌&&◌, arith, eqb,
  leb, ltb, if◌then◌else◌, [], ◌∷◌, Option, none, some, Bool-cases, inl, inr,
}
use gekko_fs.Base.Eq.{Bytes, nat_eq}
use gekko_fs.Base.Dict.{lookup, assign, lookup-assign}
use gekko_fs.Common.Arithmetic.{block_index, block_overrun}
use gekko_fs.Common.Arithmetic.Blocks.{block_index-div, block_overrun-mod}
use gekko_fs.Data.{chunksize}
use gekko_fs.Data.Serve.{enoent}
use gekko_fs.Data.Truncate.{
  Chunks, resized, truncate_found, truncate_chunk_file, trim_chunk_space, trim_from, then_trim,
  truncate_abt,
}

abbrev pub cut_content : ℕ → Option Bytes → Option Bytes
cut_content n none = none
cut_content n (some content) = some (resized n content)

module _ (unlink_ok : ℕ → Bool) (all_ok : (c : ℕ) → unlink_ok c ≡ true) where
  trim-flag : (from : ℕ) (chunks : Chunks) → (trim_chunk_space unlink_ok from chunks).0 ≡ false
  unfolding trim_chunk_space
  trim-flag from [] = refl
  trim-flag from ((c, content) ∷ rest) = ground (arith, all_ok c, trim-flag from rest)

  lookup-trim :
      (from d : ℕ) (chunks : Chunks)
      → lookup d (trim_chunk_space unlink_ok from chunks).1
        ≡ (if leb from d then none else lookup d chunks)
  unfolding trim_chunk_space lookup
  lookup-trim from d [] = ground arith
  lookup-trim from d ((c, content) ∷ rest) = elim (Bool-cases (leb from c)) [
    | inl behind ↦ rw (behind, all_ok c) (ground (arith, lookup-trim from d rest, behind))
    | inr before ↦ rw before (ground (arith, lookup-trim from d rest, before))
  ]

  -- The chunks of a file that is cut to `size`: those before it stay, its own chunk is cut, and the
  -- others are gone.
  abbrev pub IsCut : ℕ → Chunks → Chunks → Type 0
  IsCut size before after =
      (d : ℕ)
      → lookup d after ≡ (
          if ltb d (size / chunksize)
          then lookup d before
          else if eqb d (size / chunksize) && not (eqb (size % chunksize) 0)
          then cut_content (size % chunksize) (lookup d before)
          else none)

  trim_from-eq :
      (from : ℕ) (chunks : Chunks)
      → trim_from unlink_ok from chunks ≡ (0, some (trim_chunk_space unlink_ok from chunks).1)
  trim_from-eq from chunks = rw (trim-flag from chunks) refl

  start-eq : (size : ℕ) → size < 2 ^ 64 → block_index size chunksize ≡ size / chunksize
  start-eq size word = block_index-div 19 size (omega arith) word

  pad-eq : (size : ℕ) → size < 2 ^ 64 → block_overrun size chunksize ≡ size % chunksize
  pad-eq size word = block_overrun-mod 19 size (omega arith) word

  inside-eq :
      (trouble : ℕ → ℕ) (size : ℕ) (chunks : Chunks) (found : Option Bytes)
      → size < 2 ^ 64
      → eqb (size % chunksize) 0 ≡ false
      → lookup (size / chunksize) chunks ≡ found
      → truncate_abt unlink_ok trouble size (some chunks)
        ≡ then_trim unlink_ok
            (size / chunksize + 1)
            chunks
            (truncate_found trouble (size / chunksize) (size % chunksize) chunks found)
  unfolding truncate_abt truncate_chunk_file
  inside-eq trouble size chunks found word inside e =
      rw (start-eq size word, pad-eq size word, inside) refl
      ∙ ap
          (λ (o : Option Bytes).
            then_trim unlink_ok (size / chunksize + 1) chunks
              (truncate_found trouble (size / chunksize) (size % chunksize) chunks o))
          e

  -- A daemon that holds the chunk of the new end, or whose new end is at the start of a chunk,
  -- keeps the chunks before it, cuts its own chunk and removes the others, with no error, for a new
  -- size of 64 bits and if the chunk file of the new end can be cut and every chunk file can be
  -- removed.
  pub truncate_abt-cuts :
      (trouble : ℕ → ℕ) (size : ℕ) (chunks : Chunks) (content : Bytes)
      → size < 2 ^ 64
      → trouble (size / chunksize) ≡ 0
      → (size % chunksize ≢ 0 → lookup (size / chunksize) chunks ≡ some content)
      → (after : Chunks) × (truncate_abt unlink_ok trouble size (some chunks) ≡ (0, some after))
        × IsCut size chunks after
  unfolding truncate_abt truncate_chunk_file
  truncate_abt-cuts trouble size chunks content word cuts own =
      elim (Bool-cases (eqb (size % chunksize) 0)) [
        | inl whole ↦ (
          (trim_chunk_space unlink_ok (size / chunksize) chunks).1,
          rw (start-eq size word, pad-eq size word, whole) (trim_from-eq (size / chunksize) chunks),
          λ d. ground (arith, lookup-trim (size / chunksize) d chunks, whole),
        )
        | inr inside ↦
            let cut : Chunks =
              assign (size / chunksize) (resized (size % chunksize) content) chunks in
            let held : lookup (size / chunksize) chunks ≡ some content = own (ground arith) in
            (
              (trim_chunk_space unlink_ok (size / chunksize + 1) cut).1,
              inside-eq trouble size chunks (some content) word inside held
                  ∙ rw cuts refl
                  ∙ trim_from-eq (size / chunksize + 1) cut,
              λ d. ground (
                arith,
                lookup-trim (size / chunksize + 1) d cut,
                lookup-assign (size / chunksize) d (resized (size % chunksize) content) chunks,
                ap (λ (c : ℕ). lookup c chunks) {x = d} {y = size / chunksize},
                held,
                inside,
              ),
            )
      ]

  -- A daemon that has no chunk file of the new end, which is inside a chunk, reports ENOENT and
  -- keeps all of its chunk files, also those behind the new end, for a new size of 64 bits.
  pub truncate_abt-missing :
      (trouble : ℕ → ℕ) (size : ℕ) (chunks : Chunks)
      → size < 2 ^ 64
      → size % chunksize ≢ 0
      → lookup (size / chunksize) chunks ≡ none
      → truncate_abt unlink_ok trouble size (some chunks) ≡ (enoent, some chunks)
  truncate_abt-missing trouble size chunks word inside missing =
      inside-eq trouble size chunks none word (ground (arith, inside)) missing
