-- ===== src/Daemon/ChunkFiles/Contents.antt =====
-- What a chunk file holds after write_chunk, and what read_chunk and rpc_srv_remove_data make of it:
-- src/daemon/backend/data/chunk_storage.cpp.
use gekko_fs.Base.{
  ℕ, zero, suc, ◌+◌, ◌-◌, ◌≤◌, ◌<◌, ◌≡◌, refl, ap, ◌∙◌, ◌⊎◌, inl, inr, arith, List, [], ◌∷◌, length,
  take, drop, Option, some, if◌then◌else◌, Bool-cases,
}
use gekko_fs.Base.Eq.{Bytes, bytes_beq_iff, bytes_eq, nat_eq, beq_refl, ◌==◌}
use gekko_fs.Base.Dict.{lookup, assign, lookup-assign}
use gekko_fs.Data.{chunksize}
use gekko_fs.Daemon.ChunkFiles.{
  chunk_dir, Storage, chunks_or_none, content_or_none, over, write_at, CallOutcome, moved, again,
  failed, done, Calls, eexist, content_of, put_content, pwrite_loop, init_chunk_space, write_file,
  write_chunk, read_content, read_chunk,
}
use gekko_fs.Data.Truncate.{Chunks}
use gekko_fs.Daemon.ChunkFiles.Loops.{
  Completes, Reads, write_all, pwrite_loop-pwrite, pread_loop-take,
}

length-over : (buf content : Bytes) → length buf ≤ length (over buf content)
unfolding over
length-over [] content = omega arith
length-over (b ∷ buf) [] = omega (arith, length-over buf [])
length-over (b ∷ buf) (c ∷ content) = omega (arith, length-over buf content)

length-write_at :
    (offset : ℕ) (buf content : Bytes) → offset + length buf ≤ length (write_at offset buf content)
unfolding write_at
length-write_at zero buf content = omega (arith, length-over buf content)
length-write_at (suc offset) buf [] = omega (arith, length-write_at offset buf [])
length-write_at (suc offset) buf (c ∷ content) = omega (arith, length-write_at offset buf content)

take-over : (buf content : Bytes) → take (length buf) (over buf content) ≡ buf
unfolding over
take-over [] content = refl
take-over (b ∷ buf) [] = ap (◌∷◌ b) (take-over buf [])
take-over (b ∷ buf) (c ∷ content) = ap (◌∷◌ b) (take-over buf content)

take-write_at :
    (offset : ℕ) (buf content : Bytes)
    → take (length buf) (drop offset (write_at offset buf content)) ≡ buf
unfolding write_at
take-write_at zero buf content = take-over buf content
take-write_at (suc offset) buf [] = take-write_at offset buf []
take-write_at (suc offset) buf (c ∷ content) = take-write_at offset buf content

-- A read of bytes that are all there may be cut short as a write may be.
Completes-Reads :
    (outcomes : List CallOutcome) (size there : ℕ)
    → size ≤ there
    → Completes outcomes size
    → Reads outcomes size there
Completes-Reads [] size there h c = c
Completes-Reads (moved n ∷ outcomes) size there h (inl e) = inl (e, omega arith)
Completes-Reads (moved n ∷ outcomes) size there h (inr (pos, lt, c)) =
    inr
      (inr (pos, lt, omega arith, Completes-Reads outcomes (size - n) (there - n) (omega arith) c))
Completes-Reads (again ∷ outcomes) size there h c = Completes-Reads outcomes size there h c
Completes-Reads (failed e ∷ outcomes) size there h c = c

-- The storage after a directory is made if it is not there.
abbrev made : Bytes → Storage → Storage
made dir storage = assign dir (chunks_or_none (lookup dir storage)) storage

content_of-made :
    (dir dir' : Bytes) (chunk_id : ℕ) (storage : Storage)
    → content_of dir' chunk_id (made dir storage) ≡ content_of dir' chunk_id storage
content_of-made dir dir' chunk_id storage =
    ap (λ (o : Option Chunks). lookup chunk_id (chunks_or_none o))
      (lookup-assign dir dir' (chunks_or_none (lookup dir storage)) storage)
    ∙ elim (Bool-cases (dir == dir')) [
      | inl e ↦ rw ((bytes_beq_iff dir dir').0 e) (ground arith)
      | inr e ↦ rw e refl
    ]

content_of-put_content :
    (dir dir' : Bytes) (chunk_id chunk_id' : ℕ) (storage : Storage) (content : Bytes)
    → content_of dir' chunk_id' (put_content dir chunk_id storage content) ≡ (
        if dir == dir'
        then (if chunk_id == chunk_id' then some content else content_of dir' chunk_id' storage)
        else content_of dir' chunk_id' storage)
content_of-put_content dir dir' chunk_id chunk_id' storage content =
    ap (λ (o : Option Chunks). lookup chunk_id' (chunks_or_none o))
      (lookup-assign dir dir' (assign chunk_id content (chunks_or_none (lookup dir storage)))
        storage)
    ∙ elim (Bool-cases (dir == dir')) [
      | inl e ↦ rw ((bytes_beq_iff dir dir').0 e) (
          rw (beq_refl dir')
            (lookup-assign chunk_id chunk_id' content (chunks_or_none (lookup dir' storage))))
      | inr e ↦ rw e refl
    ]

-- The calls of an operation that moves `size` bytes in the end.
pub record Succeeds (calls : Calls) (size : ℕ) : Type 0 where
  pub dir_made : calls.mkdir_error ≡ 0 ⊎ calls.mkdir_error ≡ eexist
  pub opened : calls.open_error ≡ 0
  pub completed : Completes calls.outcomes size

-- The content of a chunk after bytes are written to it, and of all others.
abbrev pub after_write : Bytes → ℕ → Bytes → ℕ → Storage → Bytes → ℕ → Option Bytes
after_write dir chunk_id buf offset storage dir' chunk_id' =
    if dir == dir'
    then (if chunk_id == chunk_id'
        then some (write_at offset buf (content_or_none (content_of dir chunk_id storage)))
        else content_of dir' chunk_id' storage)
    else content_of dir' chunk_id' storage

module _ (calls : Calls) (path : Bytes) (chunk_id : ℕ) (buf : Bytes) (offset : ℕ)
    (storage : Storage) (dir : Bytes) (at : chunk_dir path ≡ some dir) (some_bytes : 0 < length buf)
    (fits : offset + length buf ≤ chunksize) (ok : Succeeds calls (length buf)) where
  -- A write writes all bytes to the chunk of the directory, and nothing else.
  pub write_chunk-content :
      (storage' : Storage) × (write_chunk calls path chunk_id buf offset storage
        ≡ some (done (length buf, storage')))
      × ((dir' : Bytes) (chunk_id' : ℕ)
          → content_of dir' chunk_id' storage'
            ≡ after_write dir chunk_id buf offset storage dir' chunk_id')
  unfolding write_chunk init_chunk_space write_file
  write_chunk-content = (
    put_content dir chunk_id (made dir storage) (write_at offset buf old),
    rw at (ground (arith, ok.dir_made, ok.opened, run)),
    λ dir' chunk_id'.
        content_of-put_content dir dir' chunk_id chunk_id' (made dir storage) _
        ∙ rw (content_of-made dir dir' chunk_id' storage, content_of-made dir dir chunk_id storage)
            refl,
  )
    where
      old : Bytes
      old = content_or_none (content_of dir chunk_id (made dir storage))

      run : pwrite_loop calls.outcomes offset buf old ≡ some (done (write_at offset buf old))
      run =
          pwrite_loop-pwrite calls.outcomes offset buf old ok.completed
          ∙ ap (λ (c : Bytes). some (done c)) (write_all offset buf old some_bytes)

  -- A write to a chunk file of a path that has a chunk directory writes all of its bytes, and a
  -- later read of the same bytes, under any path with the same chunk directory, returns them, if
  -- the bytes are not none, lie in the chunk, and no system call fails, however often the calls are
  -- interrupted or move only a part.
  pub write_chunk-read :
      (storage' : Storage) × (write_chunk calls path chunk_id buf offset storage
        ≡ some (done (length buf, storage')))
      × ((path' : Bytes) (calls' : Calls)
          → chunk_dir path' ≡ some dir
          → Succeeds calls' (length buf)
          → read_chunk calls' path' chunk_id (length buf) offset storage' ≡ some (done buf))
  unfolding read_chunk read_content
  write_chunk-read =
      let (storage', run, holds) = write_chunk-content in
      (
        storage',
        run,
        λ path' calls' same ok'.
            let content = write_at offset buf (content_or_none (content_of dir chunk_id storage)) in
            let there : content_of dir chunk_id storage' ≡ some content =
              holds dir chunk_id ∙ rw (beq_refl dir, beq_refl chunk_id) refl in
            let read =
              pread_loop-take calls'.outcomes offset (length buf) content (
                Completes-Reads calls'.outcomes (length buf) (length content - offset)
                  (omega (
                    arith,
                    length-write_at offset buf (content_or_none (content_of dir chunk_id storage)),
                  ))
                  ok'.completed)
              ∙ ap (λ (bs : Bytes). some (done bs))
                  (take-write_at offset buf (content_or_none (content_of dir chunk_id storage))) in
            rw same (ground (arith, there, ok'.opened, read)),
      )
