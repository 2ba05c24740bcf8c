-- ===== src/Daemon/ChunkFiles/Names.antt =====
-- The names of chunk directories, get_chunks_dir in src/daemon/backend/data/chunk_storage.cpp, and what
-- they mean for rpc_srv_remove_data of src/daemon/handler/srv_metadata.cpp.
use gekko_fs.Base.{ℕ, ◌+◌, ◌≤◌, ◌≡◌, refl, ap, ◌∙◌, arith, [], ◌∷◌, ◌++◌, some, none, if◌then◌else◌}
use gekko_fs.Base.Eq.{Bytes, nat_eq, bytes_eq, beq_refl, ◌==◌}
use gekko_fs.Base.Dict.{erase, lookup-erase, lookup-nil}
use gekko_fs.Common.Paths.{separator, is_absolute, is_relative}
use gekko_fs.Data.{chunksize}
use gekko_fs.Data.Serve.{enoent}
use gekko_fs.Data.Truncate.{Chunks}
use gekko_fs.Daemon.ChunkFiles.{
  replace_separator, replaced, get_chunks_dir, absolute, chunk_dir, Storage, threw, Calls,
  content_of, read_content, read_chunk, destroy_chunk_space, rpc_srv_remove_data,
}

abbrev colon : ℕ
colon = b':'

-- The name of a directory does not begin with a separator.
chunk_dir-relative :
    (c : ℕ) (cs : Bytes) → chunk_dir (separator ∷ c ∷ cs) ≡ some (replaced (c ∷ cs))
unfolding get_chunks_dir absolute is_absolute is_relative replaced
chunk_dir-relative c cs = ground arith

chunk_dir-some :
    (s : Bytes) (x : ℕ) (t : Bytes)
    → chunk_dir (separator ∷ s ++ x ∷ t) ≡ some (replaced (s ++ x ∷ t))
chunk_dir-some [] x t = chunk_dir-relative x t
chunk_dir-some (c ∷ s) x t = chunk_dir-relative c (s ++ x ∷ t)

replaced-colon : (s t : Bytes) → replaced (s ++ colon ∷ t) ≡ replaced (s ++ separator ∷ t)
unfolding replaced
replaced-colon [] t = refl
replaced-colon (c ∷ s) t = ap (◌∷◌ (replace_separator c)) (replaced-colon s t)

content_of-erase :
    (dir dir' : Bytes) (chunk_id : ℕ) (storage : Storage)
    → content_of dir' chunk_id (erase dir storage)
      ≡ (if dir == dir' then none else content_of dir' chunk_id storage)
content_of-erase dir dir' chunk_id storage =
    ground (arith, lookup-erase dir dir' storage, lookup-nil {V = Bytes} chunk_id)

-- A removal erases the directory of the path, and a read of a path with the same directory then
-- finds no file.
pub remove_data-read :
    (path path' dir : Bytes) (left : Chunks) (storage : Storage) (calls : Calls)
    (chunk_id size offset : ℕ)
    → chunk_dir path ≡ some dir
    → chunk_dir path' ≡ some dir
    → offset + size ≤ chunksize
    → (rpc_srv_remove_data 0 left path storage ≡ some (0, erase dir storage))
      × (read_chunk calls path' chunk_id size offset (erase dir storage) ≡ some (threw enoent []))
unfolding rpc_srv_remove_data destroy_chunk_space read_chunk read_content
remove_data-read path path' dir left storage calls chunk_id size offset at at' fits =
    (rw at refl, rw (at', content_of-erase dir dir chunk_id storage, beq_refl dir) (ground arith))

-- A removal of the data of a path with a colon in place of a separator of another path is answered
-- with no error, and a read of any chunk under the other path then finds no file, if the bytes that
-- are read lie in a chunk and the removal does not fail.
pub remove_data-colon :
    (s t : Bytes) (left : Chunks) (storage : Storage) (calls : Calls) (chunk_id size offset : ℕ)
    → offset + size ≤ chunksize
    → (storage' : Storage) × (rpc_srv_remove_data 0 left (separator ∷ s ++ colon ∷ t) storage
        ≡ some (0, storage'))
      × (read_chunk calls (separator ∷ s ++ separator ∷ t) chunk_id size offset storage'
          ≡ some (threw enoent []))
remove_data-colon s t left storage calls chunk_id size offset fits =
    let (removed, gone) =
      remove_data-read (separator ∷ s ++ colon ∷ t) (separator ∷ s ++ separator ∷ t)
        (replaced (s ++ colon ∷ t)) left storage calls chunk_id size offset
        (chunk_dir-some s colon t) (chunk_dir-some s separator t ∙ rw (replaced-colon s t) refl)
        fits in
    (erase (replaced (s ++ colon ∷ t)) storage, removed, gone)
