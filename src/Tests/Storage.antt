-- ===== src/Tests/Storage.antt =====
-- Tests of the chunk files, src/daemon/backend/data/chunk_storage.cpp, and the theorems at concrete
-- inputs.
use gekko_fs.Base.{◌≡◌, refl, arith, [], ◌∷◌, none, some, inl, inr}
use gekko_fs.Base.Eq.{Bytes, bytes_beq}
use gekko_fs.Base.Dict.{assign, lookup, erase}
use gekko_fs.Base.Text.{codes}
use gekko_fs.Data.Serve.{enoent}
use gekko_fs.Common.Paths.{is_absolute, is_relative}
use gekko_fs.Daemon.ChunkFiles.{
  Storage, moved, again, failed, done, threw, Calls, over, write_at, pwrite_loop, pread_loop,
  replaced, get_chunks_dir, absolute, chunk_dir, init_chunk_space, write_file, write_chunk,
  read_chunk, rpc_srv_remove_data, pwrite,
}
use gekko_fs.Daemon.ChunkFiles.Loops.{pwrite_loop-pwrite}
use gekko_fs.Daemon.ChunkFiles.Contents.{Succeeds, write_chunk-read}
use gekko_fs.Daemon.ChunkFiles.Names.{remove_data-colon}

-- Two bytes, an interrupted call, and the last one.
abbrev short_calls : Calls
short_calls = record { mkdir_error = 17; open_error = 0; outcomes = moved 2 ∷ again ∷ moved 1 ∷ [] }

abbrev full_disk : Calls
full_disk = record { mkdir_error = 0; open_error = 0; outcomes = moved 2 ∷ failed 28 ∷ [] }

abbrev no_room : Calls
no_room = record { mkdir_error = 28; open_error = 0; outcomes = [] }

-- A hole before the offset is filled with zeros.
hole : write_at 2 (7 ∷ 8 ∷ []) [] ≡ 0 ∷ 0 ∷ 7 ∷ 8 ∷ []
unfolding write_at over
hole = refl

dir_name : chunk_dir (codes "/foo/bar") ≡ some (codes "foo:bar")
unfolding get_chunks_dir absolute is_absolute is_relative replaced
dir_name = refl

-- Only the paths below the root have a directory.
no_dir : (chunk_dir (codes "xa") ≡ none) × (chunk_dir [] ≡ none) × (chunk_dir (codes "/") ≡ none)
unfolding get_chunks_dir absolute is_absolute is_relative replaced
no_dir = (refl, refl, refl)

-- What was written before an error stays.
disk_full :
    write_chunk full_disk (codes "/a") 0 (1 ∷ 2 ∷ 3 ∷ []) 0 []
    ≡ some (threw 28 (0, (codes "a", (0, 1 ∷ 2 ∷ []) ∷ []) ∷ []))
unfolding write_chunk init_chunk_space write_file pwrite_loop get_chunks_dir absolute is_absolute
    is_relative replaced write_at over assign lookup erase bytes_beq
disk_full = refl

mkdir_fails : write_chunk no_room (codes "/a") 0 (1 ∷ []) 0 [] ≡ some (threw 28 (0, []))
unfolding write_chunk init_chunk_space write_file get_chunks_dir absolute is_absolute is_relative
    replaced
mkdir_fails = refl

-- A read stops at the end of the file.
short_read : pread_loop (moved 2 ∷ moved 0 ∷ []) 1 9 (4 ∷ 5 ∷ 6 ∷ []) ≡ some (done (5 ∷ 6 ∷ []))
unfolding pread_loop
short_read = refl

pwrite_loop-pwrite_example :
    pwrite_loop (moved 2 ∷ again ∷ moved 1 ∷ []) 1 (7 ∷ 8 ∷ 9 ∷ []) (4 ∷ [])
    ≡ some (done (pwrite 3 1 (7 ∷ 8 ∷ 9 ∷ []) (4 ∷ [])))
pwrite_loop-pwrite_example =
    pwrite_loop-pwrite (moved 2 ∷ again ∷ moved 1 ∷ []) 1 (7 ∷ 8 ∷ 9 ∷ []) (4 ∷ [])
      (inr (omega arith, omega arith, inl (omega arith)))

short_calls-Succeeds : Succeeds short_calls 3
short_calls-Succeeds = record {
  dir_made = inr refl;
  opened = refl;
  completed = inr (omega arith, omega arith, inl (omega arith));
}

dir_a : chunk_dir (codes "/a") ≡ some (codes "a")
unfolding get_chunks_dir absolute is_absolute is_relative replaced
dir_a = refl

write_chunk-read_example :
    (storage' : Storage) × (write_chunk short_calls (codes "/a") 4 (7 ∷ 8 ∷ 9 ∷ []) 1 []
      ≡ some (done (3, storage')))
    × ((path' : Bytes) (calls' : Calls)
        → chunk_dir path' ≡ some (codes "a")
        → Succeeds calls' 3
        → read_chunk calls' path' 4 3 1 storage' ≡ some (done (7 ∷ 8 ∷ 9 ∷ [])))
write_chunk-read_example =
    write_chunk-read short_calls (codes "/a") 4 (7 ∷ 8 ∷ 9 ∷ []) 1 [] (codes "a") dir_a
      (omega arith) (omega arith) short_calls-Succeeds

remove_data-colon_example :
    (storage' : Storage) × (rpc_srv_remove_data 0 []
        (codes "/a:b")
        ((codes "a:b", (0, 1 ∷ []) ∷ []) ∷ [])
      ≡ some (0, storage'))
    × (read_chunk short_calls (codes "/a/b") 0 1 0 storage' ≡ some (threw enoent []))
remove_data-colon_example =
    remove_data-colon (codes "a") (codes "b") [] ((codes "a:b", (0, 1 ∷ []) ∷ []) ∷ []) short_calls
      0 1 0 (omega arith)
