-- ===== src/Daemon/Store/Backend.antt =====
-- The operations of src/daemon/backend/metadata/rocksdb_backend.cpp and of db.cpp beside it, over the
-- interface of RocksDB. The first-level entries of a directory are the keys of a scan that hold no
-- further separator.
use gekko_fs.Base.{
  ℕ, ◌/◌, ◌%◌, ◌^◌, Bool, true, false, not, ◌&&◌, ◌||◌, eqb, if◌then◌else◌, List, [], ◌∷◌, ◌++◌,
  Option, none, some, length, drop,
}
use gekko_fs.Base.Eq.{Bytes, nat_eq}
use gekko_fs.Base.Dict.{Dict, lookup, erase}
use gekko_fs.Base.Words.{add64}
use gekko_fs.Base.Integers.{ℤ, pos, negsuc, to_signed}
use gekko_fs.Common.Metadata.{Metadata, Config, parse}
use gekko_fs.Common.Paths.{separator, is_absolute, has_trailing_slash}
use gekko_fs.Daemon.Merge.{increase_size, decrease_size, create, update_time, serialize_operand}
use gekko_fs.Daemon.Results.{
  not_found, exists, db_exception, exception, Result, ok, err, M, ◌>>=◌, ◌>>◌, return, throw,
}
use gekko_fs.Daemon.Store.{Lookup, missing, unreadable, found, RocksDb}

-- S_IFMT and the file types.
abbrev pub file_type : ℕ → ℕ
file_type mode = mode / 2 ^ 12 % 2 ^ 4

abbrev pub is_dir : ℕ → Bool
is_dir mode = eqb (file_type mode) 4

abbrev pub is_reg : ℕ → Bool
is_reg mode = eqb (file_type mode) 8

abbrev pub is_negative_one : ℤ → Bool
is_negative_one (pos n) = false
is_negative_one (negsuc n) = eqb n 0

-- append_offset_reserve_get_and_erase of metadata_module.cpp; `none` is out_of_range.
unfoldable pub append_offset_reserve_get_and_erase : ℕ → Dict ℕ ℕ → Option (ℕ × Dict ℕ ℕ)
append_offset_reserve_get_and_erase merge_id reserve = elim (lookup merge_id reserve) [
  | none ↦ none
  | some out ↦ some (out, erase merge_id reserve)
]

unfoldable pub has_separator : Bytes → Bool
has_separator [] = false
has_separator (c ∷ cs) = eqb c separator || has_separator cs

-- The state of a daemon's metadata: the database, and the offsets that appends have reserved.
pub record Store {c : Config} (rdb : RocksDb c) : Type 0 where
  pub db : rdb.Db
  pub append_offset_reserve : Dict ℕ ℕ

module _ {c : Config} (rdb : RocksDb c) where
  abbrev pub status_of : Lookup → Result Bytes
  status_of missing = err not_found
  status_of unreadable = err exception
  status_of (found v) = ok v

  -- What a Get does besides: the operator may run.
  abbrev pub after_get : Bytes → Store rdb → Store rdb
  after_get key s = record s {
    append_offset_reserve = rdb.reserved key s.db s.append_offset_reserve;
  }

  unfoldable pub get_impl : Bytes → M (Store rdb) Bytes
  get_impl key s = (status_of (rdb.get_value key s.db), after_get key s)

  abbrev pub written : Store rdb → Option rdb.Db → Result (Unit {0}) × Store rdb
  written s none = (err db_exception, s)
  written s (some db') = (ok tt, record s { db = db' })

  unfoldable pub merge_impl : Bytes → Bytes → M (Store rdb) (Unit {0})
  merge_impl key operand s = written s (rdb.merge key operand s.db)

  unfoldable pub put_impl : Bytes → Bytes → M (Store rdb) (Unit {0})
  put_impl key val = merge_impl key (serialize_operand (create val))

  abbrev pub existence : Lookup → Result Bool
  existence missing = ok false
  existence unreadable = err exception
  existence (found v) = ok true

  unfoldable pub exists_impl : Bytes → M (Store rdb) Bool
  exists_impl key s = (existence (rdb.get_value key s.db), after_get key s)

  abbrev pub put_unless : Bytes → Bytes → Bool → M (Store rdb) (Unit {0})
  put_unless key val true = throw exists
  put_unless key val false = put_impl key val

  unfoldable pub put_no_exist_impl : Bytes → Bytes → M (Store rdb) (Unit {0})
  put_no_exist_impl key val = exists_impl key >>= put_unless key val

  unfoldable pub remove_impl : Bytes → M (Store rdb) (Unit {0})
  remove_impl key s = written s (rdb.delete key s.db)

  unfoldable pub update_impl : Bytes → Bytes → Bytes → M (Store rdb) (Unit {0})
  update_impl old_key new_key val s = written s (rdb.delete_put old_key new_key val s.db)

  -- mtime, when the configuration keeps it.
  unfoldable pub touch : Bytes → ℤ → M (Store rdb) (Unit {0})
  touch key now =
      if c.use_mtime then merge_impl key (serialize_operand (update_time now)) else return tt

  abbrev pub erased : Store rdb → Option (ℕ × Dict ℕ ℕ) → Result ℤ × Store rdb
  erased s none = (ok (negsuc 0), s)
  erased s (some (out, reserve)) =
      (ok (to_signed out), record s { append_offset_reserve = reserve })

  unfoldable pub take_reserved : ℕ → M (Store rdb) ℤ
  take_reserved merge_id s =
      erased s (append_offset_reserve_get_and_erase merge_id s.append_offset_reserve)

  -- Returns the offset where an append starts, and -1 otherwise or if none was reserved.
  unfoldable pub increase_size_impl : ℕ → ℤ → Bytes → ℕ → ℕ → Bool → M (Store rdb) ℤ
  increase_size_impl merge_id now key io_size offset true = do
    merge_impl key (serialize_operand (increase_size io_size merge_id true))
    get_impl key
    take_reserved merge_id
  increase_size_impl merge_id now key io_size offset false = do
    merge_impl key (serialize_operand (increase_size (add64 offset io_size) 0 false))
    touch key now
    return (negsuc 0)

  unfoldable pub decrease_size_impl : ℤ → Bytes → ℕ → M (Store rdb) (Unit {0})
  decrease_size_impl now key size = do
    merge_impl key (serialize_operand (decrease_size size))
    touch key now

  -- Whether an entry of the scan is shown: a first-level one that was not renamed away.
  abbrev pub is_first_level : Bytes → Bytes → Bool
  is_first_level root_path key =
      not (eqb (length key) (length root_path)) && not (has_separator (drop (length root_path) key))

  abbrev pub is_renamed : Metadata → Bool
  is_renamed md = c.has_rename && is_negative_one md.blocks

  -- A record that cannot be read ends the loop.
  unfoldable pub dirents_loop : Bytes → Dict Bytes Bytes → Option (List (Bytes × Metadata))
  dirents_loop root_path [] = some []
  dirents_loop root_path ((key, value) ∷ rest) =
      let entries = dirents_loop root_path rest in
      if is_first_level root_path key
      then (elim (parse c value) [
        | none ↦ none
        | some md ↦ if is_renamed md then entries else (elim entries [
          | none ↦ none
          | some es ↦ some ((drop (length root_path) key, md) ∷ es)
        ])
      ])
      else entries

  abbrev pub with_slash : Bytes → Bytes
  with_slash dir =
      if not (has_trailing_slash dir) && not (eqb (length dir) 1)
      then dir ++ separator ∷ []
      else dir

  abbrev pub kinds : List (Bytes × Metadata) → List (Bytes × Bool)
  kinds [] = []
  kinds ((name, md) ∷ es) = (name, is_dir md.mode) ∷ kinds es

  -- MetadataDB::get_dirents, with the loop of the backend.
  unfoldable pub get_dirents : Bytes → Store rdb → Option (List (Bytes × Bool))
  get_dirents dir s =
      if is_absolute dir
      then (elim (dirents_loop (with_slash dir) (rdb.scan (with_slash dir) s.db)) [
        | none ↦ none
        | some es ↦ some (kinds es)
      ])
      else none

  abbrev pub extended : List (Bytes × Metadata) → List (Bytes × Bool × ℕ × ℤ)
  extended [] = []
  extended ((name, md) ∷ es) = (name, is_dir md.mode, md.size, md.ctime) ∷ extended es

  unfoldable pub get_dirents_extended : Bytes → Store rdb → Option (List (Bytes × Bool × ℕ × ℤ))
  get_dirents_extended dir s =
      if is_absolute dir
      then (elim (dirents_loop (with_slash dir) (rdb.scan (with_slash dir) s.db)) [
        | none ↦ none
        | some es ↦ some (extended es)
      ])
      else none
