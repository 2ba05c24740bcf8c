-- ===== src/Daemon/Handlers/Holds.antt =====
-- A metadata store that holds the records of a map, and its writes; the code is
-- src/daemon/backend/metadata/rocksdb_backend.cpp.
use gekko_fs.Base.{◌≡◌, refl, ap, ◌∙◌, if◌then◌else◌, Option, none, some, Bool-cases, inl, inr}
use gekko_fs.Base.Eq.{Bytes, ◌==◌, bytes_eq}
use gekko_fs.Common.Metadata.{Metadata, Config}
use gekko_fs.Daemon.Results.{ok}
use gekko_fs.Daemon.Store.{Lookup, missing, RocksDb, after_merge}
use gekko_fs.Daemon.Store.Merges.{InRange, text_of}
use gekko_fs.Daemon.Store.Backend.{Store, merge_impl, written, remove_impl}
use gekko_fs.Daemon.Handlers.Spec.{Files, store}

-- That a write to the database is accepted.
pub record Accepts {c : Config} (rdb : RocksDb c) : Type 0 where
  pub merges : (k op : Bytes) (db : rdb.Db) → (db' : rdb.Db) × (rdb.merge k op db ≡ some db')
  pub deletes : (k : Bytes) (db : rdb.Db) → (db' : rdb.Db) × (rdb.delete k db ≡ some db')

-- A store holds the records of a map, each in its text form.
pub record Holds {c : Config} (rdb : RocksDb c) (s : Store rdb) (files : Files) : Type 0 where
  pub value : (k : Bytes) → rdb.get_value k s.db ≡ text_of c (files k)
  pub range : (k : Bytes) → InRange (files k)

module _ {c : Config} (rdb : RocksDb c) (accepts : Accepts rdb) where
  -- A write of one entry.
  store-value :
      (files : Files) (k : Bytes) (entry : Option Metadata) (found_now : Lookup)
      (before after : Bytes → Lookup)
      → ((j : Bytes) → before j ≡ text_of c (files j))
      → found_now ≡ text_of c entry
      → ((j : Bytes) → after j ≡ (if k == j then found_now else before j))
      → (j : Bytes) → after j ≡ text_of c (store k entry files j)
  store-value files k entry found_now before after held now law j =
      law j ∙ elim (Bool-cases (k == j)) [ inl here ↦ rw here now | inr other ↦ rw other (held j) ]

  store-range :
      (files : Files) (k : Bytes) (entry : Option Metadata)
      → ((j : Bytes) → InRange (files j))
      → InRange entry
      → (j : Bytes) → InRange (store k entry files j)
  store-range files k entry range new j = elim (Bool-cases (k == j)) [
    | inl here ↦ rw here new
    | inr other ↦ rw other (range j)
  ]

  pub merged-Holds :
      (s : Store rdb) (files : Files) (k op : Bytes) (entry : Option Metadata) (db' : rdb.Db)
      → rdb.merge k op s.db ≡ some db'
      → Holds rdb s files
      → after_merge c op (text_of c (files k)) ≡ text_of c entry
      → InRange entry
      → Holds rdb (record s { db = db' }) (store k entry files)
  merged-Holds s files k op entry db' e holds now range = record {
    value =
        store-value files k entry (after_merge c op (rdb.get_value k s.db))
          (λ j. rdb.get_value j s.db) (λ j. rdb.get_value j db') holds.value
          (ap (after_merge c op) (holds.value k) ∙ now) (λ j. rdb.get-merge k j op s.db db' e);
    range = store-range files k entry holds.range range;
  }

  pub merge-Holds :
      (s : Store rdb) (files : Files) (k op : Bytes) (entry : Option Metadata)
      → Holds rdb s files
      → after_merge c op (text_of c (files k)) ≡ text_of c entry
      → InRange entry
      → (s' : Store rdb) × (merge_impl rdb k op s ≡ (ok tt, s'))
        × Holds rdb s' (store k entry files)
  unfolding merge_impl
  merge-Holds s files k op entry holds now range =
      let (db', e) = accepts.merges k op s.db in
      (
        record s { db = db' },
        ap (written rdb s) e,
        merged-Holds s files k op entry db' e holds now range,
      )

  pub remove-Holds :
      (s : Store rdb) (files : Files) (k : Bytes)
      → Holds rdb s files
      → (s' : Store rdb) × (remove_impl rdb k s ≡ (ok tt, s')) × Holds rdb s' (store k none files)
  unfolding remove_impl
  remove-Holds s files k holds =
      let (db', e) = accepts.deletes k s.db in
      (
        record s { db = db' },
        ap (written rdb s) e,
        record {
          value =
              store-value files k none missing (λ j. rdb.get_value j s.db)
                (λ j. rdb.get_value j db') holds.value refl (λ j. rdb.get-delete k j s.db db' e);
          range = store-range files k none holds.range tt;
        },
      )
