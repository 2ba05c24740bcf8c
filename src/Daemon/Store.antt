-- ===== src/Daemon/Store.antt =====
-- The metadata store of a daemon: src/daemon/backend/metadata/rocksdb_backend.cpp behind db.cpp, and
-- the functions of src/daemon/ops/metadentry.cpp. RocksDB is the interface `RocksDb`: what it
-- documents of Get, Merge, Delete, a write batch and a scan by prefix, with the operator of
-- Daemon/Merge.antt; Get is taken to fail only if the operator does. A write whose status is not ok
-- gives `none`. The clock and the random merge id are arguments.
pub mod Merges
pub mod Listing
pub mod Backend
pub mod Files
use gekko_fs.Base.{
  ℕ, ◌%◌, ◌^◌, ◌+◌, ◌≡◌, Bool, true, false, not, ◌&&◌, ◌||◌, eqb, if◌then◌else◌, List, [], ◌∷◌,
  ◌++◌, Option, none, some, length, drop, All,
}
use gekko_fs.Base.Eq.{Bytes, ◌==◌, bytes_eq, nat_eq}
use gekko_fs.Base.Dict.{Dict, lookup, erase}
use gekko_fs.Base.Words.{add64}
use gekko_fs.Base.Integers.{ℤ, pos, negsuc, to_signed}
use gekko_fs.Common.Metadata.{Metadata, Config, serialize, parse}
use gekko_fs.Common.Paths.{separator, is_absolute, has_trailing_slash}
use gekko_fs.Daemon.Merge.{
  MergeOperand, increase_size, decrease_size, create, update_time, serialize_operand, full_merge,
}
use gekko_fs.Daemon.Results.{
  Failure, not_found, exists, db_exception, out_of_range, exception, Result, ok, err, M, then_run,
  ◌>>=◌, ◌>>◌, return, throw,
}

-- What Get finds: the status, and the value.
pub data Lookup : Type 0 where
  missing unreadable : Lookup
  found : Bytes → Lookup

abbrev pub merged : Option (Bytes × Dict ℕ ℕ) → Lookup
merged none = unreadable
merged (some (v, reserve)) = found v

-- The value with one more operand.
unfoldable pub after_merge : Config → Bytes → Lookup → Lookup
after_merge c op missing = merged (full_merge c none (op ∷ []) [])
after_merge c op unreadable = unreadable
after_merge c op (found v) = merged (full_merge c (some v) (op ∷ []) [])

abbrev pub reserve_of : Dict ℕ ℕ → Option (Bytes × Dict ℕ ℕ) → Dict ℕ ℕ
reserve_of reserve none = reserve
reserve_of reserve (some (v, reserve')) = reserve'

-- The offsets that the operator reserves when it merges one more operand.
unfoldable pub reserve_after : Config → Bytes → Dict ℕ ℕ → Lookup → Dict ℕ ℕ
reserve_after c op reserve missing = reserve_of reserve (full_merge c none (op ∷ []) reserve)
reserve_after c op reserve unreadable = reserve
reserve_after c op reserve (found v) = reserve_of reserve (full_merge c (some v) (op ∷ []) reserve)

abbrev pub value_of : Lookup → Option Bytes
value_of (found v) = some v
value_of _ = none

unfoldable pub starts_with : Bytes → Bytes → Bool
starts_with [] key = true
starts_with (p ∷ ps) [] = false
starts_with (p ∷ ps) (k ∷ ks) = eqb p k && starts_with ps ks

pub record RocksDb (c : Config) : Type 1 where
  pub Db : Type 0
  pub get_value : Bytes → Db → Lookup
  -- The reserved offsets after a Get, which runs the operator.
  pub reserved : Bytes → Db → Dict ℕ ℕ → Dict ℕ ℕ
  pub merge : Bytes → Bytes → Db → Option Db
  pub delete : Bytes → Db → Option Db
  -- A batch: Delete of the first key, then Put of the second one.
  pub delete_put : Bytes → Bytes → Bytes → Db → Option Db
  -- The entries whose key starts with a prefix.
  pub scan : Bytes → Db → Dict Bytes Bytes
  pub get-merge :
      (k j op : Bytes) (db db' : Db)
      → merge k op db ≡ some db'
      → get_value j db' ≡ (if k == j then after_merge c op (get_value k db) else get_value j db)
  pub get-delete :
      (k j : Bytes) (db db' : Db)
      → delete k db ≡ some db'
      → get_value j db' ≡ (if k == j then missing else get_value j db)
  pub get-delete_put :
      (old new v j : Bytes) (db db' : Db)
      → delete_put old new v db ≡ some db'
      → get_value j db'
        ≡ (if new == j then found v else if old == j then missing else get_value j db)
  -- An operand that reserves an offset is merged by the next Get at the latest.
  pub reserved-merge :
      (k : Bytes) (size merge_id : ℕ) (db db' : Db) (reserve : Dict ℕ ℕ)
      → merge k (serialize_operand (increase_size size merge_id true)) db ≡ some db'
      → lookup merge_id (reserved k db' reserve)
        ≡ lookup merge_id (
            reserve_after c
              (serialize_operand (increase_size size merge_id true))
              reserve
              (get_value k db))
  pub scan-IsFound :
      (prefix : Bytes) (db : Db)
      → All
          (λ (entry : Bytes × Bytes).
            (starts_with prefix entry.0 ≡ true) × (get_value entry.0 db ≡ found entry.1))
          (scan prefix db)
  pub lookup-scan :
      (prefix k : Bytes) (db : Db)
      → lookup k (scan prefix db)
        ≡ (if starts_with prefix k then value_of (get_value k db) else none)
