-- ===== src/Daemon/ChunkFiles.antt =====
-- The chunk files of a daemon: src/daemon/backend/data/chunk_storage.cpp, with rpc_srv_remove_data of
-- src/daemon/handler/srv_metadata.cpp. The directories of chunk files are a map from their names,
-- and each is a map from chunk ids to contents. What the system calls return is an argument; `none`
-- is a failed assertion, or a loop that is not at its end when the list of outcomes is. The limbo
-- mode, which stores nothing, is off.
pub mod Loops
pub mod Contents
pub mod Names
use gekko_fs.Base.{
  ℕ, zero, suc, ◌+◌, ◌-◌, Bool, ◌||◌, eqb, leb, if◌then◌else◌, List, [], ◌∷◌, ◌++◌, length, take,
  drop, Option, none, some,
}
use gekko_fs.Base.Eq.{Bytes, bytes_eq, nat_eq}
use gekko_fs.Base.Dict.{Dict, lookup, assign, erase}
use gekko_fs.Common.Paths.{separator, is_absolute, is_relative}
use gekko_fs.Data.{chunksize}
use gekko_fs.Data.Serve.{enoent}
use gekko_fs.Data.Truncate.{Chunks}

abbrev pub replace_separator : ℕ → ℕ
replace_separator c = if eqb c separator then b':' else c

unfoldable pub replaced : Bytes → Bytes
replaced [] = []
replaced (c ∷ cs) = replace_separator c ∷ replaced cs

unfoldable pub get_chunks_dir : Bytes → Option Bytes
get_chunks_dir file_path =
    if is_absolute file_path then some (replaced (drop 1 file_path)) else none

-- ChunkStorage::absolute, less the path of the root; the name of a chunk file begins with that of its
-- directory and a separator, so the assertion holds for both or for none.
unfoldable pub absolute : Option Bytes → Option Bytes
absolute none = none
absolute (some internal_path) = if is_relative internal_path then some internal_path else none

-- The directory of the chunk files of a path; `none` is a failed assertion, and so is the result of
-- each operation then.
abbrev pub chunk_dir : Bytes → Option Bytes
chunk_dir file_path = absolute (get_chunks_dir file_path)

abbrev pub in_dir {ℓ} : {A : Type ℓ} → Option Bytes → (Bytes → Option A) → Option A
in_dir none f = none
in_dir (some dir) f = f dir

-- The directories, by their names.
abbrev pub Storage : Type 0
Storage = Dict Bytes Chunks

abbrev pub chunks_or_none : Option Chunks → Chunks
chunks_or_none none = []
chunks_or_none (some chunks) = chunks

abbrev pub content_or_none : Option Bytes → Bytes
content_or_none none = []
content_or_none (some content) = content

-- New bytes over the start of a content, and from a position on.
unfoldable pub over : Bytes → Bytes → Bytes
over [] content = content
over (b ∷ bs) [] = b ∷ over bs []
over (b ∷ bs) (c ∷ cs) = b ∷ over bs cs

unfoldable pub write_at : ℕ → Bytes → Bytes → Bytes
write_at zero new content = over new content
write_at (suc offset) new [] = 0 ∷ write_at offset new []
write_at (suc offset) new (c ∷ cs) = c ∷ write_at offset new cs

-- What pwrite and pread return: a number of bytes, EINTR and the like, or an error.
pub data CallOutcome : Type 0 where
  moved : ℕ → CallOutcome
  again : CallOutcome
  failed : ℕ → CallOutcome

-- How a loop ends.
pub data Ended (A : Type 0) : Type 0 where
  done : A → Ended A
  threw : ℕ → A → Ended A

-- pwrite of no byte changes nothing.
abbrev pub pwrite : ℕ → ℕ → Bytes → Bytes → Bytes
pwrite zero offset buf content = content
pwrite (suc n) offset buf content = write_at offset (take (suc n) buf) content

-- The loop of write_chunk: `buf` holds what is left to write.
unfoldable pub pwrite_loop : List CallOutcome → ℕ → Bytes → Bytes → Option (Ended Bytes)
pwrite_loop [] offset buf content = none
pwrite_loop (moved n ∷ rest) offset buf content =
    let content' = pwrite n offset buf content in
    let more = pwrite_loop rest (offset + n) (drop n buf) content' in
    if eqb n (length buf) then some (done content') else more
pwrite_loop (again ∷ rest) offset buf content =
    let more = pwrite_loop rest offset buf content in
    if eqb (length buf) 0 then some (done content) else more
pwrite_loop (failed e ∷ rest) offset buf content = some (threw e content)

abbrev pub eexist : ℕ
eexist = 17

-- What the system calls of one chunk operation return: the errors of mkdir and open, 0 if none, and
-- the outcomes of the loop. An open for reading also fails if there is no file.
pub record Calls : Type 0 where
  pub mkdir_error : ℕ
  pub open_error : ℕ
  pub outcomes : List CallOutcome

unfoldable pub init_chunk_space : ℕ → Bytes → Storage → Option (Ended Storage)
init_chunk_space error file_path storage = in_dir (chunk_dir file_path) (λ dir. some (
    if eqb error 0 || eqb error eexist
    then done (assign dir (chunks_or_none (lookup dir storage)) storage)
    else threw error storage))

abbrev pub content_of : Bytes → ℕ → Storage → Option Bytes
content_of dir chunk_id storage = lookup chunk_id (chunks_or_none (lookup dir storage))

abbrev pub put_content : Bytes → ℕ → Storage → Bytes → Storage
put_content dir chunk_id storage content =
    assign dir (assign chunk_id content (chunks_or_none (lookup dir storage))) storage

-- The size that was written, and the storage, when the loop has ended.
abbrev pub written : Bytes → ℕ → ℕ → Storage → Option (Ended Bytes) → Option (Ended (ℕ × Storage))
written dir chunk_id size storage none = none
written dir chunk_id size storage (some (done content)) =
    some (done (size, put_content dir chunk_id storage content))
written dir chunk_id size storage (some (threw e content)) =
    some (threw e (0, put_content dir chunk_id storage content))

-- What follows init_chunk_space: a file that is not there is made.
unfoldable pub write_file :
    Calls → Bytes → ℕ → Bytes → ℕ → Option (Ended Storage) → Option (Ended (ℕ × Storage))
write_file calls dir chunk_id buf offset none = none
write_file calls dir chunk_id buf offset (some (threw e storage)) = some (threw e (0, storage))
write_file calls dir chunk_id buf offset (some (done storage)) =
    if eqb calls.open_error 0
    then written dir chunk_id (length buf) storage
        (pwrite_loop calls.outcomes offset buf (content_or_none (content_of dir chunk_id storage)))
    else some (threw calls.open_error (0, storage))

-- ChunkStorage::write_chunk: the size that was written.
unfoldable pub write_chunk : Calls → Bytes → ℕ → Bytes → ℕ → Storage → Option (Ended (ℕ × Storage))
write_chunk calls file_path chunk_id buf offset storage =
    if leb (offset + length buf) chunksize
    then in_dir (chunk_dir file_path) (λ dir.
      write_file calls dir chunk_id buf offset
        (init_chunk_space calls.mkdir_error file_path storage))
    else none

abbrev pub after_more : Bytes → Option (Ended Bytes) → Option (Ended Bytes)
after_more bytes none = none
after_more bytes (some (done more)) = some (done (bytes ++ more))
after_more bytes (some (threw e more)) = some (threw e (bytes ++ more))

-- The loop of read_chunk with `size` bytes left: what is read is what the content holds there.
unfoldable pub pread_loop : List CallOutcome → ℕ → ℕ → Bytes → Option (Ended Bytes)
pread_loop [] offset size content = none
pread_loop (moved zero ∷ rest) offset size content = some (done [])
pread_loop (moved (suc n) ∷ rest) offset size content =
    let bytes = take (suc n) (drop offset content) in
    let more = pread_loop rest (offset + suc n) (size - suc n) content in
    if eqb (suc n) size then some (done bytes) else after_more bytes more
pread_loop (again ∷ rest) offset size content =
    let more = pread_loop rest offset size content in if eqb size 0 then some (done []) else more
pread_loop (failed e ∷ rest) offset size content = some (threw e [])

unfoldable pub read_content : Calls → ℕ → ℕ → Option Bytes → Option (Ended Bytes)
read_content calls offset size none = some (threw enoent [])
read_content calls offset size (some content) =
    if eqb calls.open_error 0
    then pread_loop calls.outcomes offset size content
    else some (threw calls.open_error [])

-- ChunkStorage::read_chunk: the bytes that were read.
unfoldable pub read_chunk : Calls → Bytes → ℕ → ℕ → ℕ → Storage → Option (Ended Bytes)
read_chunk calls file_path chunk_id size offset storage =
    if leb (offset + size) chunksize
    then in_dir (chunk_dir file_path)
        (λ dir. read_content calls offset size (content_of dir chunk_id storage))
    else none

-- ChunkStorage::destroy_chunk_space: `error` is that of remove_all, 0 if none, and `left` the
-- chunks that are left if it fails. The result is the error that is thrown, 0 if none.
unfoldable pub destroy_chunk_space : ℕ → Chunks → Bytes → Storage → Option (ℕ × Storage)
destroy_chunk_space error left file_path storage = in_dir (chunk_dir file_path) (λ dir. some (
    if eqb error 0
    then (0, erase dir storage)
    else if eqb error enoent
    then (0, assign dir left storage)
    else (error, assign dir left storage)))

-- The error in the reply to a request for the removal of a file's chunks.
unfoldable pub rpc_srv_remove_data : ℕ → Chunks → Bytes → Storage → Option (ℕ × Storage)
rpc_srv_remove_data error left path storage = destroy_chunk_space error left path storage
