-- ===== src/Daemon/Handlers/Missing.antt =====
-- A write to a path that has no entry: rpc_srv_update_metadentry_size of
-- src/daemon/handler/srv_metadata.cpp, and what the handlers reply for the path afterwards.
use gekko_fs.Base.{
  ℕ, ◌≡◌, ◌≢◌, ◌||◌, refl, ap, ◌∙◌, Bool, true, false, if◌then◌else◌, [], Option, none, some,
}
use gekko_fs.Base.Eq.{Bytes, bytes_eq, beq_refl}
use gekko_fs.Base.Words.{add64}
use gekko_fs.Base.Integers.{ℤ, pos, negsuc}
use gekko_fs.Common.Metadata.{Metadata, Config, serialize}
use gekko_fs.Data.Write.{ebusy}
use gekko_fs.Daemon.Merge.{
  increase_size, update_time, serialize_operand, full_merge, merge_start, get_id,
}
use gekko_fs.Daemon.Results.{ok, then_run, return, finish}
use gekko_fs.Daemon.Store.{Lookup, missing, unreadable, RocksDb, after_merge}
use gekko_fs.Daemon.Store.Backend.{
  Store, get_impl, merge_impl, put_impl, exists_impl, put_unless, put_no_exist_impl, touch, written,
  after_get, increase_size_impl, existence, status_of, is_dir, is_reg,
}
use gekko_fs.Daemon.Store.Files.{
  Settings, new_metadata, with_times, get_str, create_file, update_size,
}
use gekko_fs.Daemon.Handlers.{
  create_checked, create_failed, read_failed, rpc_srv_create, rpc_srv_stat,
  rpc_srv_update_metadentry_size,
}
use gekko_fs.Daemon.Handlers.Entries.{new_metadata-some}
use gekko_fs.Daemon.Handlers.Holds.{Accepts}
use gekko_fs.Daemon.Handlers.Sizes.{two_steps}

-- The operator throws: a merge has to begin with a creation.
increase_size-missing :
    (c : Config) (n : ℕ)
    → after_merge c (serialize_operand (increase_size n 0 false)) missing ≡ unreadable
unfolding after_merge full_merge merge_start serialize_operand get_id
increase_size-missing c n = refl

module _ {c : Config} (rdb : RocksDb c) (accepts : Accepts rdb) where
  -- A merge leaves at its key what the operator makes of it.
  merge-value :
      (s : Store rdb) (k op : Bytes)
      → (s' : Store rdb) × (merge_impl rdb k op s ≡ (ok tt, s'))
        × (rdb.get_value k s'.db ≡ after_merge c op (rdb.get_value k s.db))
  unfolding merge_impl
  merge-value s k op =
      let (db', e) = accepts.merges k op s.db in
      (
        record s { db = db' },
        ap (written rdb s) e,
        rdb.get-merge k k op s.db db' e ∙ rw (beq_refl k) refl,
      )

  -- A key that cannot be read stays so.
  touched-unreadable :
      (b : Bool) (s : Store rdb) (k op : Bytes)
      → rdb.get_value k s.db ≡ unreadable
      → (s' : Store rdb) × ((if b then merge_impl rdb k op else return tt) s ≡ (ok tt, s'))
        × (rdb.get_value k s'.db ≡ unreadable)
  unfolding after_merge
  touched-unreadable false s k op h = (s, refl, h)
  touched-unreadable true s k op h =
      let (s', e, v) = merge-value s k op in (s', e, v ∙ ap (after_merge c op) h)

  touch-unreadable :
      (s : Store rdb) (k : Bytes) (now : ℤ)
      → rdb.get_value k s.db ≡ unreadable
      → (s' : Store rdb) × (touch rdb k now s ≡ (ok tt, s')) × (rdb.get_value k s'.db ≡ unreadable)
  unfolding touch
  touch-unreadable s k now h =
      touched-unreadable c.use_mtime s k (serialize_operand (update_time now)) h

  stat-unreadable :
      (s : Store rdb) (k : Bytes)
      → rdb.get_value k s.db ≡ unreadable
      → (rpc_srv_stat rdb k s).0 ≡ (ebusy, [])
  unfolding rpc_srv_stat get_str get_impl
  stat-unreadable s k h =
      ap
        (λ (v : Lookup).
          (finish (λ (x : Bytes). (0, x)) (λ e. (read_failed e, []))
            (status_of rdb v, after_get rdb k s)).0)
        h

  create-unreadable :
      (g : Settings) (now : ℤ) (mode : ℕ) (s : Store rdb) (k : Bytes)
      → g.create_exist_check ≡ true
      → rdb.get_value k s.db ≡ unreadable
      → (is_dir mode || is_reg mode) ≡ true
      → rpc_srv_create rdb g now k mode s ≡ some (negsuc 0, after_get rdb k s)
  unfolding rpc_srv_create create_file put_no_exist_impl exists_impl
  create-unreadable g now mode s k checked h valid =
      for_record (new_metadata c now mode) (new_metadata-some c now mode valid)
    where
      for_record :
          (m : Option Metadata)
          → m ≢ none
          → create_checked rdb g now k m s ≡ some (negsuc 0, after_get rdb k s)
      for_record none is_some = absurd (is_some refl)
      for_record (some md) is_some =
          let text : Bytes = serialize c (with_times g now md) in
          ap
            (λ (b : Bool). some (
              finish (λ _. pos 0) create_failed
                ((if b then put_no_exist_impl rdb k text else put_impl rdb k text) s)))
            checked
          ∙ ap
              (λ (v : Lookup). some (
                finish (λ _. pos 0) create_failed
                  (then_run (existence rdb v, after_get rdb k s) (put_unless rdb k text))))
              h

  -- A write that does not append to a path with no entry is answered with no error, and from then
  -- on a stat of the path replies EBUSY and a creation of it replies -1, if the database accepts
  -- every write, paths are checked for an entry at a creation, and the new mode is that of a
  -- directory or a regular file.
  pub update_size-missing :
      (g : Settings) (merge_id size offset mode : ℕ) (now : ℤ) (s : Store rdb) (k : Bytes)
      → g.create_exist_check ≡ true
      → rdb.get_value k s.db ≡ missing
      → (is_dir mode || is_reg mode) ≡ true
      → (s' : Store rdb) × (rpc_srv_update_metadentry_size rdb merge_id now k size offset false s
          ≡ ((0, negsuc 0), s'))
        × ((rpc_srv_stat rdb k s').0 ≡ (ebusy, []))
        × (s'' : Store rdb) × (rpc_srv_create rdb g now k mode s' ≡ some (negsuc 0, s''))
  unfolding rpc_srv_update_metadentry_size update_size increase_size_impl
  update_size-missing g merge_id size offset mode now s k checked gone valid =
      let op : Bytes = serialize_operand (increase_size (add64 offset size) 0 false) in
      let (s₁, e₁, v₁) = merge-value s k op in
      let (s₂, e₂, v₂) =
        touch-unreadable s₁ k now
          (v₁ ∙ ap (after_merge c op) gone ∙ increase_size-missing c (add64 offset size)) in
      (
        s₂,
        two_steps (λ ret_offset. (0, ret_offset)) (λ f. (read_failed f, pos 0))
            (merge_impl rdb k op) (touch rdb k now) e₁ e₂ (negsuc 0),
        stat-unreadable s₂ k v₂,
        after_get rdb k s₂,
        create-unreadable g now mode s₂ k checked v₂ valid,
      )
