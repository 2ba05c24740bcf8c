-- ===== src/Tests/Requests.antt =====
-- The theorems on the metadata handlers at concrete inputs, on a database in memory.
use gekko_fs.Base.{◌≡◌, refl, Bool, true, false, arith, if◌then◌else◌, List, [], ◌∷◌, none, some}
use gekko_fs.Base.Eq.{Bytes, ◌==◌, bytes_beq, bytes_eq, nat_eq}
use gekko_fs.Base.Dict.{lookup, erase}
use gekko_fs.Base.Text.{codes}
use gekko_fs.Base.Integers.{pos, negsuc}
use gekko_fs.Common.Metadata.{Metadata, Config, serialize}
use gekko_fs.Common.Metadata.RoundTrip.{IsInRange, parse-serialize}
use gekko_fs.Client.Directory.{FileType, forward_get_dirents}
use gekko_fs.Client.Directory.Entries.{ask, forward_get_dirents-entries}
use gekko_fs.Common.Paths.{is_absolute, has_trailing_slash}
use gekko_fs.Data.Write.{ebusy}
use gekko_fs.Daemon.Store.{found, starts_with}
use gekko_fs.Daemon.Store.Merges.{InRange, text_of}
use gekko_fs.Daemon.Store.Backend.{Store, get_dirents, dirents_loop, has_separator}
use gekko_fs.Daemon.Handlers.{rpc_srv_create, rpc_srv_stat, rpc_srv_update_metadentry_size}
use gekko_fs.Daemon.Handlers.Spec.{
  Files, store, Request, create_in, stat_in, size_in, grow_in, cut_in, remove_in, Surroundings,
  resized,
}
use gekko_fs.Daemon.Handlers.Holds.{Holds}
use gekko_fs.Daemon.Handlers.Appends.{update_size-append}
use gekko_fs.Daemon.Handlers.Missing.{update_size-missing}
use gekko_fs.Daemon.Handlers.Dirents.{
  is_name, joined, entry_kind, tot_names_size, get_dirents-entries,
}
use gekko_fs.Tests.MemoryDb.{memory, memory-Accepts, or_missing, scan_table}

-- The default build, and one that keeps the time of modification.
abbrev with_mtime : Config
with_mtime = record {
  use_atime = false;
  use_mtime = true;
  use_ctime = false;
  use_link_cnt = false;
  use_blocks = true;
  has_symlinks = true;
  has_rename = true;
}

abbrev surroundings : Surroundings
surroundings = record {
  settings = record {
    atime_state = false;
    mtime_state = true;
    ctime_state = false;
    create_exist_check = true;
  };
  now = pos 1700000000;
  merge_id = 7;
  destroy = λ path. 0;
}

abbrev empty_store : Store (memory with_mtime)
empty_store = record { db = record { table = []; last = [] }; append_offset_reserve = [] }

abbrev no_files : Files
no_files path = none

abbrev file : Bytes
file = codes "/a"

-- A file is created twice, grows, is read, is cut and removed, and is asked for again.
abbrev session : List Request
session =
    create_in file 0x81a4
    ∷ create_in file 0x81a4
    ∷ grow_in file 100 50
    ∷ stat_in file
    ∷ cut_in file 20
    ∷ size_in file
    ∷ remove_in file false
    ∷ stat_in file
    ∷ []

-- A file with a record, in a database in memory.
abbrev file_md : Metadata
file_md = record {
  mode = 0x81a4;
  link_count = 0;
  size = 100;
  blocks = pos 0;
  atime = pos 0;
  mtime = pos 5;
  ctime = pos 0;
  target_path = [];
  rename_path = [];
}

abbrev one_file : Files
one_file = store file (some file_md) no_files

abbrev file_store : Store (memory with_mtime)
file_store = record {
  db = record { table = (file, found (serialize with_mtime file_md)) ∷ []; last = [] };
  append_offset_reserve = [];
}

file_md-IsInRange : IsInRange file_md
file_md-IsInRange = (
  omega arith,
  omega arith,
  omega arith,
  omega arith,
  omega arith,
  omega arith,
  omega arith,
  tt,
  tt,
  tt,
)

value_by :
    (b : Bool)
    → or_missing (if b then some (found (serialize with_mtime file_md)) else none)
      ≡ text_of with_mtime (if b then some file_md else none)
value_by true = refl
value_by false = refl

range_by : (b : Bool) → InRange (if b then some file_md else none)
range_by true = file_md-IsInRange
range_by false = tt

one_file-Holds : Holds (memory with_mtime) file_store one_file
unfolding lookup
one_file-Holds = record { value = λ k. value_by (file == k); range = λ k. range_by (file == k) }

update_size-append_example :
    (s' : Store (memory with_mtime)) × (rpc_srv_update_metadentry_size
        (memory with_mtime)
        7
        (pos 0)
        file
        30
        0
        true
        file_store
      ≡ ((0, pos 100), s'))
    × Holds (memory with_mtime) s' (store file (some (resized with_mtime 130 file_md)) one_file)
unfolding bytes_beq
update_size-append_example =
    update_size-append (memory with_mtime) (memory-Accepts with_mtime) file_store one_file file
      file_md 30 0 7 (pos 0) one_file-Holds refl (omega arith) (omega arith)

update_size-missing_example :
    (s' : Store (memory with_mtime)) × (rpc_srv_update_metadentry_size
        (memory with_mtime)
        7
        (pos 0)
        file
        30
        0
        false
        empty_store
      ≡ ((0, negsuc 0), s'))
    × ((rpc_srv_stat (memory with_mtime) file s').0 ≡ (ebusy, []))
    × (s'' : Store (memory with_mtime)) × (rpc_srv_create
          (memory with_mtime)
          surroundings.settings
          (pos 0)
          file
          0x81a4
          s'
        ≡ some (negsuc 0, s''))
unfolding lookup
update_size-missing_example =
    update_size-missing (memory with_mtime) (memory-Accepts with_mtime) surroundings.settings 7 30 0
      0x81a4 (pos 0) empty_store file refl refl refl

get_dirents-entries_example :
    (es : List (Bytes × Bool)) × (get_dirents (memory with_mtime) (codes "/") file_store ≡ some es)
    × ((name : Bytes)
        → lookup name es ≡ (
            if is_name name
            then entry_kind with_mtime (one_file (joined (codes "/") name))
            else none))
unfolding is_absolute
get_dirents-entries_example =
    get_dirents-entries (memory with_mtime) file_store one_file (codes "/") one_file-Holds refl

listed_file :
    get_dirents (memory with_mtime) (codes "/") file_store ≡ some ((codes "a", false) ∷ [])
unfolding get_dirents dirents_loop scan_table erase starts_with is_absolute has_trailing_slash
    has_separator
listed_file = rw (parse-serialize with_mtime file_md file_md-IsInRange) refl

-- Two daemons, one with the file and one with none.
abbrev list_one : Store (memory with_mtime) → List (Bytes × Bool)
list_one s = elim s.db.table [ [] ↦ [] | e ∷ es ↦ (codes "a", false) ∷ [] ]

listed_none : get_dirents (memory with_mtime) (codes "/") empty_store ≡ some []
unfolding get_dirents dirents_loop scan_table is_absolute has_trailing_slash
listed_none = refl

forward_get_dirents-entries_example :
    forward_get_dirents
      (ask (memory with_mtime) (codes "/") list_one)
      (file_store ∷ empty_store ∷ [])
    ≡ some (0, (codes "a", FileType.regular) ∷ [])
unfolding tot_names_size
forward_get_dirents-entries_example =
    forward_get_dirents-entries (memory with_mtime) (codes "/") list_one
      (file_store ∷ empty_store ∷ [])
      ((listed_file, ((refl, tt), tt), omega arith), ((listed_none, tt, omega arith), tt))
