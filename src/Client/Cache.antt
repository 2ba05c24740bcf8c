-- ===== src/Client/Cache.antt =====
-- The caches of a client: src/client/cache.cpp. Mutexes are left out: each operation is one step.
-- The hash of a string, whose low 32 bits are a directory's id, is a parameter.
pub mod Sizes
pub mod Dentries
use gekko_fs.Base.{ℕ, ◌+◌, ◌%◌, Bool, true, false, eqb, ltb, if◌then◌else◌, [], Option, none, some}
use gekko_fs.Base.Eq.{Bytes, bytes_eq, nat_eq}
use gekko_fs.Base.Dict.{Dict, lookup, assign, insert, erase}
use gekko_fs.Base.Integers.{ℤ, pos}
use gekko_fs.Base.Words.{u32_mod}
use gekko_fs.Client.Directory.{FileType}

pub record CacheEntry : Type 0 where
  pub file_type : FileType
  pub size : ℕ
  pub ctime : ℤ

pub record DentryCache : Type 0 where
  pub entries : Dict ℕ (Dict Bytes CacheEntry)
  pub entry_dir_id : Dict Bytes ℕ

-- operator[] on the entries: a new directory is empty.
abbrev pub names_or_none : Option (Dict Bytes CacheEntry) → Dict Bytes CacheEntry
names_or_none none = []
names_or_none (some names) = names

abbrev pub names_of : ℕ → DentryCache → Dict Bytes CacheEntry
names_of dir_id c = names_or_none (lookup dir_id c.entries)

module _ (str_hash : Bytes → ℕ) where
  unfoldable pub gen_dir_id : Bytes → ℕ
  gen_dir_id dir_path = str_hash dir_path % u32_mod

  abbrev pub id_or_new : Bytes → DentryCache → Option ℕ → DentryCache × ℕ
  id_or_new dir_path c (some dir_id) = (c, dir_id)
  id_or_new dir_path c none = (
    record c { entry_dir_id = insert dir_path (gen_dir_id dir_path) c.entry_dir_id },
    gen_dir_id dir_path,
  )

  unfoldable pub get_dir_id : Bytes → DentryCache → DentryCache × ℕ
  get_dir_id dir_path c = id_or_new dir_path c (lookup dir_path c.entry_dir_id)

  unfoldable pub insert_entry : Bytes → Bytes → CacheEntry → DentryCache → DentryCache
  insert_entry parent_dir name value c =
      let (c', dir_id) = get_dir_id parent_dir c in
      record c' { entries = assign dir_id (insert name value (names_of dir_id c')) c'.entries }

  -- A directory that is not there is made, without entries.
  unfoldable pub get_entry : Bytes → Bytes → DentryCache → DentryCache × Option CacheEntry
  get_entry parent_dir name c =
      let (c', dir_id) = get_dir_id parent_dir c in
      (
        record c' { entries = assign dir_id (names_of dir_id c') c'.entries },
        lookup name (names_of dir_id c'),
      )

abbrev pub without : Bytes → DentryCache → Option ℕ → DentryCache
without dir_path c none = c
without dir_path c (some dir_id) = record c {
  entries = erase dir_id c.entries;
  entry_dir_id = erase dir_path c.entry_dir_id;
}

unfoldable pub clear_dir : Bytes → DentryCache → DentryCache
clear_dir dir_path c = without dir_path c (lookup dir_path c.entry_dir_id)

unfoldable pub clear : DentryCache → DentryCache
clear c = record c { entries = []; entry_dir_id = [] }

-- A path's number of updates since the last flush, and its size.
abbrev pub WriteSizeCache : Type 0
WriteSizeCache = Dict Bytes (ℕ × ℕ)

abbrev pub bumped : ℕ → Option (ℕ × ℕ) → ℕ × ℕ
bumped size none = (1, size)
bumped size (some (cnt, old)) = (cnt + 1, if ltb old size then size else old)

unfoldable pub record_size : Bytes → ℕ → WriteSizeCache → WriteSizeCache × (ℕ × ℕ)
record_size path size c = (assign path (bumped size (lookup path c)) c, bumped size (lookup path c))

abbrev pub reset_entry : Bytes → Bool → WriteSizeCache → Option (ℕ × ℕ) → WriteSizeCache × (ℕ × ℕ)
reset_entry path evict c none = (c, (0, 0))
reset_entry path evict c (some (cnt, size)) =
    (if evict then erase path c else assign path (0, size) c, (cnt, size))

unfoldable pub reset : Bytes → Bool → WriteSizeCache → WriteSizeCache × (ℕ × ℕ)
reset path evict c = reset_entry path evict c (lookup path c)

-- The arguments of update_file_size, if it is called.
abbrev pub to_flush : WriteSizeCache × (ℕ × ℕ) → WriteSizeCache × Option ℕ
to_flush (c, (cnt, size)) = (c, if eqb cnt 0 then none else some size)

-- The size that flush sends to the metadata server with offset 0 and no append, if any. The
-- argument evict is not used.
unfoldable pub flush : Bytes → Bool → WriteSizeCache → WriteSizeCache × Option ℕ
flush path evict c = to_flush (reset path false c)
