-- ===== src/Daemon/Handlers.antt =====
-- The metadata handlers of src/daemon/handler/srv_metadata.cpp, from the input of a request to its
-- reply: every exception of the store becomes an error code. Failures of Margo are left out, and so
-- are the statistics. `destroy` stands for the removal of the chunk files of a path: the error that
-- the file system gives, 0 if none.
pub mod Spec
pub mod Serves
pub mod Holds
pub mod Reads
pub mod Sizes
pub mod Entries
pub mod Missing
pub mod Appends
pub mod Dirents
use gekko_fs.Base.{
  ℕ, ◌+◌, Bool, true, false, not, ◌&&◌, eqb, if◌then◌else◌, List, [], ◌∷◌, Option, none, some,
}
use gekko_fs.Base.Eq.{Bytes}
use gekko_fs.Base.Integers.{ℤ, pos, negsuc}
use gekko_fs.Common.Metadata.{Metadata, Config}
use gekko_fs.Data.Write.{eio, ebusy}
use gekko_fs.Data.Serve.{enoent}
use gekko_fs.Daemon.Results.{
  Failure, not_found, exists, db_exception, out_of_range, exception, Result, ok, err, M, then_run,
  ◌>>=◌, ◌>>◌, return, throw, finish, handle,
}
use gekko_fs.Daemon.Store.{RocksDb}
use gekko_fs.Daemon.Store.Backend.{Store, decrease_size_impl, is_dir, is_reg}
use gekko_fs.Daemon.Store.Files.{
  Settings, new_metadata, get_str, get, get_size, create_file, update, update_size, remove_file,
}

abbrev pub eexist : ℕ
eexist = 17

abbrev pub enotdir : ℕ
enotdir = 20

abbrev pub eisdir : ℕ
eisdir = 21

abbrev pub create_failed : Failure → ℤ
create_failed exists = pos eexist
create_failed _ = negsuc 0

-- The error code of a handler that reads an entry.
abbrev pub read_failed : Failure → ℕ
read_failed not_found = enoent
read_failed _ = ebusy

-- What a request for the removal of metadata replies.
pub record Removed : Type 0 where
  pub code : ℕ
  pub mode : ℕ
  pub size : ℕ

abbrev pub refused : ℕ → Removed
refused code = record { code = code; mode = 0; size = 0 }

abbrev pub remove_failed : Failure → Removed
remove_failed not_found = refused enoent
remove_failed db_exception = refused eio
remove_failed _ = refused ebusy

-- The members that a request for an update of metadata sets.
pub record UpdateIn : Type 0 where
  pub blocks : Option ℤ
  pub nlink : Option ℕ
  pub size : Option ℕ
  pub atime : Option ℤ
  pub mtime : Option ℤ
  pub ctime : Option ℤ

abbrev pub or_keep : {A : Type 0} → Option A → A → A
or_keep none a = a
or_keep (some b) a = b

unfoldable pub updated : UpdateIn → Metadata → Metadata
updated u md = record md {
  blocks = or_keep u.blocks md.blocks;
  link_count = or_keep u.nlink md.link_count;
  size = or_keep u.size md.size;
  atime = or_keep u.atime md.atime;
  mtime = or_keep u.mtime md.mtime;
  ctime = or_keep u.ctime md.ctime;
}

module _ {c : Config} (rdb : RocksDb c) where
  abbrev pub create_checked :
      Settings → ℤ → Bytes → Option Metadata → Store rdb → Option (ℤ × Store rdb)
  create_checked g now path none s = none
  create_checked g now path (some md) s =
      some (handle (λ _. pos 0) create_failed (create_file rdb g now path md) s)

  -- The assertion on the mode is outside of the try block: `none` is the abort of the daemon.
  unfoldable pub rpc_srv_create : Settings → ℤ → Bytes → ℕ → Store rdb → Option (ℤ × Store rdb)
  rpc_srv_create g now path mode s = create_checked g now path (new_metadata c now mode) s

  unfoldable pub rpc_srv_stat : Bytes → Store rdb → (ℕ × Bytes) × Store rdb
  rpc_srv_stat path = handle (λ val. (0, val)) (λ e. (read_failed e, [])) (get_str rdb path)

  unfoldable pub rpc_srv_decr_size : ℤ → Bytes → ℕ → Store rdb → ℕ × Store rdb
  rpc_srv_decr_size now path length =
      handle (λ _. 0) (λ _. eio) (decrease_size_impl rdb now path length)

  -- The record is removed before the data; the reply has its mode and its size.
  abbrev pub remove_entry : (Bytes → ℕ) → Bytes → Metadata → M (Store rdb) Removed
  remove_entry destroy path md =
      remove_file rdb path
      >> return (record {
        code = if is_reg md.mode && not (eqb md.size 0) then destroy path else 0;
        mode = md.mode;
        size = if is_dir md.mode then 0 else md.size;
      })

  unfoldable pub remove_checked : (Bytes → ℕ) → Bytes → Bool → Metadata → M (Store rdb) Removed
  remove_checked destroy path rm_dir md =
      if is_dir md.mode && not rm_dir
      then return (refused eisdir)
      else if not (is_dir md.mode) && rm_dir
      then return (refused enotdir)
      else remove_entry destroy path md

  unfoldable pub rpc_srv_remove_metadata :
      (Bytes → ℕ) → Bytes → Bool → Store rdb → Removed × Store rdb
  rpc_srv_remove_metadata destroy path rm_dir =
      handle (λ r. r) remove_failed (get rdb path >>= remove_checked destroy path rm_dir)

  unfoldable pub rpc_srv_update_metadentry : Bytes → UpdateIn → Store rdb → ℕ × Store rdb
  rpc_srv_update_metadentry path u =
      handle (λ _. 0) (λ _. 1) (get rdb path >>= λ md. update rdb path (updated u md))

  unfoldable pub rpc_srv_update_metadentry_size :
      ℕ → ℤ → Bytes → ℕ → ℕ → Bool → Store rdb → (ℕ × ℤ) × Store rdb
  rpc_srv_update_metadentry_size merge_id now path size offset append =
      handle (λ ret_offset. (0, ret_offset)) (λ e. (read_failed e, pos 0))
        (update_size rdb merge_id now path size offset append)

  unfoldable pub rpc_srv_get_metadentry_size : Bytes → Store rdb → (ℕ × ℕ) × Store rdb
  rpc_srv_get_metadentry_size path =
      handle (λ ret_size. (0, ret_size)) (λ e. (read_failed e, 0)) (get_size rdb path)
