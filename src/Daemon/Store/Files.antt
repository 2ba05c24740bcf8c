-- ===== src/Daemon/Store/Files.antt =====
-- The functions of src/daemon/ops/metadentry.cpp over the metadata store, and the constructor of a
-- new record in src/common/metadata.cpp. The times that the daemon's settings keep are set at the
-- creation of a file.
use gekko_fs.Base.{ℕ, Bool, ◌||◌, if◌then◌else◌, [], Option, none, some}
use gekko_fs.Base.Eq.{Bytes}
use gekko_fs.Base.Integers.{ℤ, pos}
use gekko_fs.Common.Metadata.{Metadata, Config, serialize, parse}
use gekko_fs.Daemon.Results.{not_found, exception, Result, ok, err, M, ◌>>=◌, return, throw}
use gekko_fs.Daemon.Store.{RocksDb}
use gekko_fs.Daemon.Store.Backend.{
  Store, get_impl, put_impl, put_no_exist_impl, remove_impl, update_impl, increase_size_impl,
  is_dir, is_reg,
}

-- Metadata(mode): only files and directories; the configured times are those of the clock.
unfoldable pub new_metadata : Config → ℤ → ℕ → Option Metadata
new_metadata c now mode =
    if is_dir mode || is_reg mode
    then some (record {
      mode = mode;
      link_count = 0;
      size = 0;
      blocks = pos 0;
      atime = if c.use_atime then now else pos 0;
      mtime = if c.use_mtime then now else pos 0;
      ctime = if c.use_ctime then now else pos 0;
      target_path = [];
      rename_path = [];
    })
    else none

-- The settings of the daemon that keep times, and gkfs::config::metadata::create_exist_check.
pub record Settings : Type 0 where
  pub atime_state : Bool
  pub mtime_state : Bool
  pub ctime_state : Bool
  pub create_exist_check : Bool

unfoldable pub with_times : Settings → ℤ → Metadata → Metadata
with_times g now md = record md {
  atime = if g.atime_state then now else md.atime;
  mtime = if g.mtime_state then now else md.mtime;
  ctime = if g.ctime_state then now else md.ctime;
}

module _ {c : Config} (rdb : RocksDb c) where
  abbrev pub lift : {A : Type 0} → Option A → M (Store rdb) A
  lift none = throw exception
  lift (some a) = return a

  unfoldable pub get_str : Bytes → M (Store rdb) Bytes
  get_str path = get_impl rdb path

  unfoldable pub get : Bytes → M (Store rdb) Metadata
  get path = get_str path >>= λ s. lift (parse c s)

  unfoldable pub get_size : Bytes → M (Store rdb) ℕ
  get_size path = get path >>= λ md. return md.size

  unfoldable pub create_file : Settings → ℤ → Bytes → Metadata → M (Store rdb) (Unit {0})
  create_file g now path md =
      if g.create_exist_check
      then put_no_exist_impl rdb path (serialize c (with_times g now md))
      else put_impl rdb path (serialize c (with_times g now md))

  unfoldable pub update : Bytes → Metadata → M (Store rdb) (Unit {0})
  update path md = update_impl rdb path path (serialize c md)

  unfoldable pub update_size : ℕ → ℤ → Bytes → ℕ → ℕ → Bool → M (Store rdb) ℤ
  update_size merge_id now path io_size offset append =
      increase_size_impl rdb merge_id now path io_size offset append

  abbrev pub ignore_not_found : Result (Unit {0}) × Store rdb → Result (Unit {0}) × Store rdb
  ignore_not_found (err not_found, s) = (ok tt, s)
  ignore_not_found (err e, s) = (err e, s)
  ignore_not_found (ok u, s) = (ok u, s)

  -- That there is no entry is no error.
  unfoldable pub remove_file : Bytes → M (Store rdb) (Unit {0})
  remove_file path s = ignore_not_found (remove_impl rdb path s)
