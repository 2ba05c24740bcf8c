-- ===== src/Data/Truncate/Contacts.antt =====
-- The daemons that forward_truncate of src/client/rpc/forward_data.cpp contacts.
use gekko_fs.Base.{
  ℕ, zero, suc, ◌+◌, ◌-◌, ◌/◌, ◌%◌, ◌^◌, ◌≤◌, ◌<◌, ◌≡◌, refl, sym, ap, ap₂, ◌∙◌, true, false, some,
  arith, eqb, List, [], ◌∷◌, Bool-cases, inl, inr, subst, eqb_iff,
}
use gekko_fs.Base.Words.{sub64, u32_mod}
use gekko_fs.Common.Arithmetic.{block_index}
use gekko_fs.Common.Arithmetic.Blocks.{block_index-div}
use gekko_fs.Data.{chunksize}
use gekko_fs.Data.Write.{contains}
use gekko_fs.Data.Truncate.{insert_copies, insert_chunks, hosts_between, truncate_hosts}

module _ (locate : ℕ → ℕ → ℕ) where
  keeps-insert_copies :
      (h chunk_id copy n : ℕ) (hosts : List ℕ)
      → contains h hosts ≡ true
      → contains h (insert_copies locate chunk_id copy n hosts) ≡ true
  unfolding insert_copies contains
  keeps-insert_copies h chunk_id copy zero hosts k = k
  keeps-insert_copies h chunk_id copy (suc n) hosts k =
      keeps-insert_copies h chunk_id (copy + 1) n (locate chunk_id copy ∷ hosts) (ground (arith, k))

  finds-insert_copies :
      (chunk_id copy n c : ℕ) (hosts : List ℕ)
      → copy ≤ c
      → c < copy + n
      → contains (locate chunk_id c) (insert_copies locate chunk_id copy n hosts) ≡ true
  unfolding insert_copies contains
  finds-insert_copies chunk_id copy zero c hosts lo hi = absurd (omega arith)
  finds-insert_copies chunk_id copy (suc n) c hosts lo hi = elim (Bool-cases (eqb copy c)) [
    | inl here ↦
        keeps-insert_copies (locate chunk_id c) chunk_id (copy + 1) n (locate chunk_id copy ∷ hosts)
          (ground (arith, ap (locate chunk_id) {x = copy} {y = c}))
    | inr later ↦
        finds-insert_copies chunk_id (copy + 1) n c (locate chunk_id copy ∷ hosts) (ground arith)
          (omega arith)
  ]

  keeps-insert_chunks :
      (num_copies h chunk_id n : ℕ) (hosts : List ℕ)
      → contains h hosts ≡ true
      → contains h (insert_chunks locate num_copies chunk_id n hosts) ≡ true
  unfolding insert_chunks
  keeps-insert_chunks num_copies h chunk_id zero hosts k = k
  keeps-insert_chunks num_copies h chunk_id (suc n) hosts k =
      keeps-insert_chunks num_copies h (chunk_id + 1) n _
        (keeps-insert_copies h chunk_id 0 (num_copies + 1) hosts k)

  finds-insert_chunks :
      (num_copies chunk_id n d copy : ℕ) (hosts : List ℕ)
      → chunk_id ≤ d
      → d < chunk_id + n
      → copy ≤ num_copies
      → contains (locate d copy) (insert_chunks locate num_copies chunk_id n hosts) ≡ true
  unfolding insert_chunks
  finds-insert_chunks num_copies chunk_id zero d copy hosts lo hi few = absurd (omega arith)
  finds-insert_chunks num_copies chunk_id (suc n) d copy hosts lo hi few =
      elim (Bool-cases (eqb chunk_id d)) [
        | inl here ↦ keeps-insert_chunks num_copies (locate d copy) (chunk_id + 1) n _ (
            subst
              (λ (c : ℕ).
                contains (locate d copy) (insert_copies locate c 0 (num_copies + 1) hosts) ≡ true)
              (sym ((eqb_iff chunk_id d).0 here))
              (finds-insert_copies d 0 (num_copies + 1) copy hosts (omega arith) (omega arith)))
        | inr later ↦
            finds-insert_chunks num_copies (chunk_id + 1) n d copy _ (ground arith) (omega arith)
              few
      ]

  range-eq :
      (current_size new_size num_copies : ℕ)
      → new_size < current_size
      → current_size < 2 ^ 51
      → (current_size - new_size - 1) / chunksize < 2 ^ 32 - 1
      → truncate_hosts locate current_size new_size num_copies
        ≡ some (
            insert_chunks locate num_copies
              (new_size / chunksize)
              ((current_size - new_size - 1) / chunksize + 1 - new_size / chunksize)
              [])
  unfolding truncate_hosts
  range-eq current_size new_size num_copies lt fits ends =
      let not_last : eqb ((current_size - new_size - 1) / chunksize) (2 ^ 32 - 1) ≡ false =
        ground arith in
      ap₂ (hosts_between locate num_copies) first last ∙ rw not_last refl
    where
      first : block_index new_size chunksize % u32_mod ≡ new_size / chunksize
      first = omega (arith, block_index-div 19 new_size (omega arith) (omega arith))

      last :
          block_index (sub64 (sub64 current_size new_size) 1) chunksize % u32_mod
          ≡ (current_size - new_size - 1) / chunksize
      last =
          ap (λ (n : ℕ). block_index n chunksize % u32_mod)
            {x = sub64 (sub64 current_size new_size) 1} {y = current_size - new_size - 1}
            (omega arith)
          ∙ omega
              (arith, block_index-div 19 (current_size - new_size - 1) (omega arith) (omega arith))

  -- A truncation of a file below 2 PiB contacts every host of a copy of a chunk from that of the
  -- new size on, up to the chunk of the last byte of a file that is as long as the removed part, if
  -- that is before the chunk 2^32 - 1.
  pub truncate_hosts-reached :
      (current_size new_size num_copies d copy : ℕ)
      → new_size < current_size
      → current_size < 2 ^ 51
      → (current_size - new_size - 1) / chunksize < 2 ^ 32 - 1
      → new_size / chunksize ≤ d
      → d ≤ (current_size - new_size - 1) / chunksize
      → copy ≤ num_copies
      → (hosts : List ℕ) × (truncate_hosts locate current_size new_size num_copies ≡ some hosts)
        × (contains (locate d copy) hosts ≡ true)
  truncate_hosts-reached current_size new_size num_copies d copy lt fits ends lo hi few = (
    _,
    range-eq current_size new_size num_copies lt fits ends,
    finds-insert_chunks num_copies (new_size / chunksize)
        ((current_size - new_size - 1) / chunksize + 1 - new_size / chunksize) d copy [] lo
        (omega arith) few,
  )

  -- A truncation contacts no host at all if the removed part, counted from 0, ends in an earlier
  -- chunk than that of the new size, for files below 2 PiB.
  pub truncate_hosts-none :
      (current_size new_size num_copies : ℕ)
      → new_size < current_size
      → current_size < 2 ^ 51
      → (current_size - new_size - 1) / chunksize < new_size / chunksize
      → truncate_hosts locate current_size new_size num_copies ≡ some []
  unfolding insert_chunks
  truncate_hosts-none current_size new_size num_copies lt fits short =
      range-eq current_size new_size num_copies lt fits (omega arith)
      ∙ ap (λ (n : ℕ). some (insert_chunks locate num_copies (new_size / chunksize) n []))
          {x = (current_size - new_size - 1) / chunksize + 1 - new_size / chunksize} {y = 0}
          (omega arith)
