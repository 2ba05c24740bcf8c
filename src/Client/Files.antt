-- ===== src/Client/Files.antt =====
-- Writing to open files: OpenFile of src/client/open_file_map.cpp, and gkfs_write and gkfs_pwrite of
-- src/client/gkfs_functions.cpp, with what the children for seeks and vectors share. The requests to the daemons are an interface, `Remote`; the open
-- files are shared through their pointers, so a descriptor made by dup moves the same position. A
-- function returns its result beside the new state, in which errno is a field. Only one thread runs.
pub mod Seek
pub mod Writes
pub mod Results
pub mod Vectors
use gekko_fs.Base.{
  ℕ, zero, suc, ◌+◌, ◌-◌, ◌%◌, ◌^◌, bit_and, Bool, true, false, not, ◌&&◌, eqb, ltb, leb,
  if◌then◌else◌, List, [], ◌∷◌, length, Option, none, some,
}
use gekko_fs.Base.Eq.{Bytes, bytes_eq, nat_eq}
use gekko_fs.Base.Integers.{ℤ, pos, negsuc, to_signed, to_unsigned}
use gekko_fs.Base.Words.{add64, u32_mod}
use gekko_fs.Data.Write.{eio}
use gekko_fs.Client.FileMap.{FileMap, get}
use gekko_fs.Client.Directory.{FileType, regular, directory}
use gekko_fs.Client.Cache.{WriteSizeCache, record_size, flush}

abbrev pub is_set : ℕ → ℕ → Bool
is_set flags flag = not (eqb (bit_and flags flag) 0)

-- The path, the flags and the position of an open file.
pub record OpenFile : Type 0 where
  pub file_type : FileType
  pub path : Bytes
  pub creat : Bool
  pub append : Bool
  pub trunc : Bool
  pub rdonly : Bool
  pub wronly : Bool
  pub rdwr : Bool
  pub position : ℕ

-- The constructor, with the flags of Linux: O_CREAT, O_APPEND, O_TRUNC, O_RDONLY, O_WRONLY, O_RDWR.
unfoldable pub open_file : Bytes → ℕ → FileType → OpenFile
open_file path flags file_type = record {
  file_type = file_type;
  path = path;
  creat = is_set flags 64;
  append = is_set flags 1024;
  trunc = is_set flags 512;
  rdonly = is_set flags 0;
  wronly = is_set flags 1;
  rdwr = is_set flags 2;
  position = 0;
}

-- The requests of src/client/rpc: each answers with an error, 0 if none, and a signed number.
pub record Remote : Type 1 where
  pub State : Type 0
  pub forward_update_metadentry_size : Bytes → ℕ → ℤ → Bool → ℕ → State → State × (ℕ × ℤ)
  pub forward_update_metadentry_size_proxy : Bytes → ℕ → ℤ → Bool → State → State × (ℕ × ℤ)
  pub forward_get_metadentry_size : Bytes → ℕ → State → ℕ × ℤ
  pub forward_get_metadentry_size_proxy : Bytes → State → ℕ × ℤ
  pub forward_write : Bytes → Bytes → ℤ → ℕ → State → State × (ℕ × ℤ)
  pub forward_write_proxy : Bytes → Bytes → ℤ → State → State × (ℕ × ℤ)

-- The settings of the client and of config.hpp.
pub record ClientSettings : Type 0 where
  pub replicas : ℕ
  pub use_proxy : Bool
  pub fwd_update_size : Bool
  pub fwd_get_size : Bool
  pub fwd_io : Bool
  pub fwd_io_count_threshold : ℕ
  pub use_write_size_cache : Bool
  pub flush_threshold : ℕ

pub record Client (State : Type 0) : Type 0 where
  pub file_map : FileMap ℕ
  pub files : ℕ → OpenFile
  pub write_size_cache : WriteSizeCache
  pub remote : State
  pub errno : ℕ

abbrev pub eisdir : ℕ
eisdir = 21

-- Additions of off64_t and of a signed and an unsigned number, and the conversion to int.
abbrev pub add_off : ℤ → ℤ → ℤ
add_off a b = to_signed (add64 (to_unsigned a) (to_unsigned b))

abbrev pub to_int : ℤ → ℤ
to_int a =
    let low = to_unsigned a % u32_mod in
    if ltb low (2 ^ 31) then pos low else negsuc (u32_mod - 1 - low)

abbrev pub is_minus_one : ℤ → Bool
is_minus_one (pos n) = false
is_minus_one (negsuc n) = eqb n 0

module _ (r : Remote) (g : ClientSettings) where
  open r use {
    State, forward_update_metadentry_size, forward_update_metadentry_size_proxy,
    forward_get_metadentry_size, forward_get_metadentry_size_proxy, forward_write,
    forward_write_proxy,
  }

  -- The result -1, with errno.
  abbrev pub fail : ℕ → Client State → Client State × ℤ
  fail e c = (record c { errno = e }, negsuc 0)

  abbrev pub set_pos : ℕ → ℕ → Client State → Client State
  set_pos ptr position c = record c {
    files = λ p. if eqb p ptr then record (c.files p) { position = position } else c.files p;
  }

  unfoldable pub update_file_size : Bytes → ℕ → ℤ → Bool → State → State × (ℕ × ℤ)
  update_file_size path count offset is_append s =
      if g.fwd_update_size && g.use_proxy
      then forward_update_metadentry_size_proxy path count offset is_append s
      else forward_update_metadentry_size path count offset is_append g.replicas s

  abbrev pub with_remote : Client State → State × (ℕ × ℤ) → Client State × (ℕ × ℤ)
  with_remote c (s, a) = (record c { remote = s }, a)

  abbrev pub flushed : Bytes → Client State → Option ℕ → Client State × (ℕ × ℤ)
  flushed path c none = (c, (0, pos 0))
  flushed path c (some size) = with_remote c (update_file_size path size (pos 0) false c.remote)

  -- WriteSizeCache::flush.
  unfoldable pub flush_size : Bytes → Bool → Client State → Client State × (ℕ × ℤ)
  flush_size path evict c =
      flushed path (record c { write_size_cache = (flush path evict c.write_size_cache).0 })
        (flush path evict c.write_size_cache).1

  abbrev pub at_offset : ℤ → Client State × (ℕ × ℤ) → Client State × (ℕ × ℤ)
  at_offset offset (c, (err, n)) = (c, (err, offset))

  -- The size is recorded, and flushed when it was recorded more often than the threshold.
  unfoldable pub cache_size : Bytes → ℕ → ℤ → Client State → Client State × (ℕ × ℤ)
  cache_size path count offset c =
      let (sizes, (cnt, size)) =
        record_size path (add64 (to_unsigned offset) count) c.write_size_cache in
      let c' = record c { write_size_cache = sizes } in
      if ltb g.flush_threshold cnt
      then at_offset offset (flush_size path false c')
      else (c', (0, offset))

  abbrev pub reserved : Bool → ℤ → Client State × (ℕ × ℤ) → Client State × (ℕ × ℤ)
  reserved is_append offset (c, (err, n)) =
      if not (eqb err 0)
      then (c, (err, offset))
      else if is_append
      then (c, ((if is_minus_one n then eio else 0), n))
      else (c, (0, offset))

  -- The part of gkfs_do_write before the data: the error, and the offset of the data.
  unfoldable pub write_metadata : OpenFile → ℕ → ℤ → Client State → Client State × (ℕ × ℤ)
  write_metadata file count offset c =
      if g.use_write_size_cache && not file.append
      then cache_size file.path count offset c
      else reserved file.append offset
          (with_remote c (update_file_size file.path count offset file.append c.remote))

  abbrev pub first_write : Bytes → Bytes → ℤ → State → State × (ℕ × ℤ)
  first_write path buf offset s =
      if g.fwd_io && g.use_proxy && ltb g.fwd_io_count_threshold (length buf)
      then forward_write_proxy path buf offset s
      else forward_write path buf offset 0 s

  -- The second write counts only if the first one fails and it does not.
  abbrev pub better : ℕ × ℤ → State × (ℕ × ℤ) → State × (ℕ × ℤ)
  better (err, n) (s, (err', n')) =
      if not (eqb err 0) && eqb err' 0 then (s, (err', n')) else (s, (err, n))

  abbrev pub to_replicas : Bytes → Bytes → ℤ → State × (ℕ × ℤ) → State × (ℕ × ℤ)
  to_replicas path buf offset (s, a) =
      if ltb 0 g.replicas then better a (forward_write path buf offset g.replicas s) else (s, a)

  unfoldable pub write_bytes : Bytes → Bytes → ℤ → State → State × (ℕ × ℤ)
  write_bytes path buf offset s = to_replicas path buf offset (first_write path buf offset s)

  -- The error, the position if it is to be moved, and the written size, an int.
  abbrev pub finish_write : ℕ → ℤ → Bool → Client State × (ℕ × ℤ) → Client State × ℤ
  finish_write ptr offset update_pos (c, (err, n)) =
      if not (eqb err 0)
      then fail err c
      else if update_pos
      then (set_pos ptr (to_unsigned (add_off offset (to_int n))) c, to_int n)
      else (c, to_int n)

  abbrev pub write_data : ℕ → Bytes → Bytes → Bool → Client State × (ℕ × ℤ) → Client State × ℤ
  write_data ptr path buf update_pos (c, (err, offset)) =
      if not (eqb err 0)
      then fail err c
      else finish_write ptr offset update_pos (with_remote c (write_bytes path buf offset c.remote))

  abbrev pub write_as : FileType → ℕ → Bytes → ℤ → Bool → Client State → Client State × ℤ
  write_as directory ptr buf offset update_pos c = fail eisdir c
  write_as regular ptr buf offset update_pos c =
      write_data ptr (c.files ptr).path buf update_pos
        (write_metadata (c.files ptr) (length buf) offset c)

  unfoldable pub gkfs_do_write : ℕ → Bytes → ℤ → Bool → Client State → Client State × ℤ
  gkfs_do_write ptr buf offset update_pos c =
      write_as (c.files ptr).file_type ptr buf offset update_pos c

  -- A descriptor that is not open writes 0 bytes.
  abbrev pub if_open : Client State → Option ℕ → (ℕ → Client State × ℤ) → Client State × ℤ
  if_open c none f = (c, pos 0)
  if_open c (some ptr) f = f ptr

  unfoldable pub gkfs_pwrite : ℕ → Bytes → ℤ → Client State → Client State × ℤ
  gkfs_pwrite fd buf offset c =
      if_open c (get c.file_map fd) (λ ptr. gkfs_do_write ptr buf offset false c)

  unfoldable pub gkfs_write : ℕ → Bytes → Client State → Client State × ℤ
  gkfs_write fd buf c =
      if_open c (get c.file_map fd)
        (λ ptr. gkfs_do_write ptr buf (to_signed (c.files ptr).position) true c)

  abbrev pub synced : Client State × (ℕ × ℤ) → Client State × ℤ
  synced (c, (err, n)) = if not (eqb err 0) then fail err c else (record c { errno = 0 }, pos 0)

  abbrev pub sync_file : Option ℕ → Client State → Client State × ℤ
  sync_file none c = synced (c, (0, pos 0))
  sync_file (some ptr) c =
      synced
        (if g.use_write_size_cache then flush_size (c.files ptr).path true c else (c, (0, pos 0)))

  unfoldable pub gkfs_fsync : ℕ → Client State → Client State × ℤ
  gkfs_fsync fd c = sync_file (get c.file_map fd) c
