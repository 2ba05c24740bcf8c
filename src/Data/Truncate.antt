-- ===== src/Data/Truncate.antt =====
-- Cutting a file: forward_truncate of src/client/rpc/forward_data.cpp chooses the daemons, and
-- truncate_abt of src/daemon/ops/data.cpp cuts the chunks of one daemon by the functions of
-- src/daemon/backend/data/chunk_storage.cpp. The chunk files of one path are a map from chunk ids to
-- contents; `none` is a directory that does not exist. `unlink_ok` tells whether a chunk file can be
-- removed, and `trouble` is the errno of cutting it.
pub mod Contacts
pub mod Chunks
use gekko_fs.Base.{
  ℕ, zero, suc, ◌+◌, ◌-◌, ◌*◌, ◌%◌, Bool, true, false, not, ◌&&◌, ◌||◌, eqb, leb, ltb,
  if◌then◌else◌, List, [], ◌∷◌, ◌++◌, Option, none, some, ◌⊎◌, inl, inr, length, take, replicate,
}
use gekko_fs.Base.Eq.{Bytes, nat_eq}
use gekko_fs.Base.Dict.{Dict, lookup, assign}
use gekko_fs.Base.Words.{sub64, u32_mod}
use gekko_fs.Common.Arithmetic.{block_index, block_overrun}
use gekko_fs.Data.{chunksize}
use gekko_fs.Data.Write.{eio, contains}
use gekko_fs.Data.Serve.{enoent}

-- The set of hosts, as the list of those that were inserted.
module _ (locate : ℕ → ℕ → ℕ) where
  unfoldable pub insert_copies : ℕ → ℕ → ℕ → List ℕ → List ℕ
  insert_copies chunk_id copy zero hosts = hosts
  insert_copies chunk_id copy (suc n) hosts =
      insert_copies chunk_id (copy + 1) n (locate chunk_id copy ∷ hosts)

  unfoldable pub insert_chunks : ℕ → ℕ → ℕ → List ℕ → List ℕ
  insert_chunks num_copies chunk_id zero hosts = hosts
  insert_chunks num_copies chunk_id (suc n) hosts =
      insert_chunks num_copies (chunk_id + 1) n (insert_copies chunk_id 0 (num_copies + 1) hosts)

  -- for(unsigned int chunk_id = chunk_start; chunk_id <= chunk_end; ++chunk_id): the loop does not
  -- end if the last chunk id is the largest unsigned int.
  abbrev pub hosts_between : ℕ → ℕ → ℕ → Option (List ℕ)
  hosts_between num_copies chunk_start chunk_end =
      if eqb chunk_end (u32_mod - 1)
      then none
      else some (insert_chunks num_copies chunk_start (chunk_end + 1 - chunk_start) [])

  -- The chunk ids are unsigned ints; `none` is a loop that does not end.
  unfoldable pub truncate_hosts : ℕ → ℕ → ℕ → Option (List ℕ)
  truncate_hosts current_size new_size num_copies =
      let chunk_start = block_index new_size chunksize % u32_mod in
      let chunk_end = block_index (sub64 (sub64 current_size new_size) 1) chunksize % u32_mod in
      hosts_between num_copies chunk_start chunk_end

-- What comes of a truncate request, and the result of forward_truncate: EIO on any error.
pub data TruncateOutcome : Type 0 where
  not_sent lost : TruncateOutcome
  replied : ℕ → TruncateOutcome

unfoldable pub truncate_result : List TruncateOutcome → ℕ
truncate_result [] = 0
truncate_result (replied zero ∷ rest) = truncate_result rest
truncate_result (_ ∷ rest) = eio

-- The chunk files of one path.
abbrev pub Chunks : Type 0
Chunks = Dict ℕ Bytes

-- truncate(2): the content is cut, or filled up with zeros.
unfoldable pub resized : ℕ → Bytes → Bytes
resized n content = take n content ++ replicate (n - length content) 0

abbrev pub truncate_found : (ℕ → ℕ) → ℕ → ℕ → Chunks → Option Bytes → ℕ ⊎ Chunks
truncate_found trouble chunk_id n chunks none = inl enoent
truncate_found trouble chunk_id n chunks (some content) =
    if eqb (trouble chunk_id) 0
    then inr (assign chunk_id (resized n content) chunks)
    else inl (trouble chunk_id)

-- ChunkStorage::truncate_chunk_file: the errno that it throws, or the chunks. `trouble` is the errno
-- of truncate(2) on a chunk file that exists, 0 if it succeeds; a file that does not exist gives
-- ENOENT.
unfoldable pub truncate_chunk_file : (ℕ → ℕ) → ℕ → ℕ → Chunks → ℕ ⊎ Chunks
truncate_chunk_file trouble chunk_id n chunks =
    truncate_found trouble chunk_id n chunks (lookup chunk_id chunks)

module _ (unlink_ok : ℕ → Bool) where
  -- ChunkStorage::trim_chunk_space: the error flag and the chunks that are left.
  unfoldable pub trim_chunk_space : ℕ → Chunks → Bool × Chunks
  trim_chunk_space chunk_start [] = (false, [])
  trim_chunk_space chunk_start ((chunk_id, content) ∷ rest) =
      let (err_flag, left) = trim_chunk_space chunk_start rest in
      if leb chunk_start chunk_id
      then (if unlink_ok chunk_id then (err_flag, left) else (true, (chunk_id, content) ∷ left))
      else (err_flag, (chunk_id, content) ∷ left)

  abbrev pub trim_from : ℕ → Chunks → ℕ × Option Chunks
  trim_from chunk_start chunks = (
    (if (trim_chunk_space chunk_start chunks).0 then eio else 0),
    some (trim_chunk_space chunk_start chunks).1,
  )

  -- A step that fails ends the tasklet before the chunks behind are removed.
  abbrev pub then_trim : ℕ → Chunks → ℕ ⊎ Chunks → ℕ × Option Chunks
  then_trim chunk_start before (inl err) = (err, some before)
  then_trim chunk_start before (inr chunks) = trim_from chunk_start chunks

  -- ChunkTruncateOperation::truncate_abt: the error code, and the chunks that are left.
  unfoldable pub truncate_abt : (ℕ → ℕ) → ℕ → Option Chunks → ℕ × Option Chunks
  truncate_abt trouble size none =
      ((if eqb (block_overrun size chunksize) 0 then eio else enoent), none)
  truncate_abt trouble size (some chunks) =
      let chunk_id_start = block_index size chunksize in
      let left_pad = block_overrun size chunksize in
      if eqb left_pad 0
      then trim_from chunk_id_start chunks
      else then_trim (chunk_id_start + 1) chunks
          (truncate_chunk_file trouble chunk_id_start left_pad chunks)
