-- ===== src/Daemon/Handlers/Appends.antt =====
-- An append: rpc_srv_update_metadentry_size of src/daemon/handler/srv_metadata.cpp with the offset
-- that the merge operator reserves.
use gekko_fs.Base.{
  ℕ, ◌+◌, ◌^◌, ◌<◌, ◌≡◌, refl, ap, ◌∙◌, true, arith, lt→ltb, [], ◌∷◌, Option, none, some, subst,
}
use gekko_fs.Base.Eq.{Bytes, bytes_eq, nat_eq, beq_refl}
use gekko_fs.Base.Dict.{Dict, lookup, erase, assign, lookup-assign}
use gekko_fs.Base.Words.{add64}
use gekko_fs.Base.Integers.{ℤ, pos}
use gekko_fs.Common.Metadata.{Metadata, Config, serialize}
use gekko_fs.Common.Metadata.RoundTrip.{IsInRange}
use gekko_fs.Daemon.Merge.{
  increase_size, serialize_operand, merge_operand, full_merge, append_offset_reserve_put,
}
use gekko_fs.Daemon.Merge.Operands.{fold_operands, full_merge-fold}
use gekko_fs.Daemon.Results.{Result, ok, then_run, ◌>>=◌, finish}
use gekko_fs.Daemon.Store.{Lookup, found, RocksDb, after_merge, reserve_after, merged, reserve_of}
use gekko_fs.Daemon.Store.Merges.{InRange, text_of}
use gekko_fs.Daemon.Store.Backend.{
  Store, get_impl, merge_impl, written, after_get, erased, take_reserved,
  append_offset_reserve_get_and_erase, increase_size_impl, status_of,
}
use gekko_fs.Daemon.Store.Files.{update_size}
use gekko_fs.Daemon.Handlers.{read_failed, rpc_srv_update_metadentry_size}
use gekko_fs.Daemon.Handlers.Spec.{Files, store, resized}
use gekko_fs.Daemon.Handlers.Holds.{Accepts, Holds, merged-Holds}
use gekko_fs.Daemon.Handlers.Sizes.{resized-IsInRange, store_self}

module _ (c : Config) (md : Metadata) (range : IsInRange md) (size merge_id : ℕ)
    (small : merge_id < 2 ^ 16) (fits : md.size + size < 2 ^ 63) where
  abbrev append_op : Bytes
  append_op = serialize_operand (increase_size size merge_id true)

  append-full :
      (reserve : Dict ℕ ℕ)
      → full_merge c (some (serialize c md)) (append_op ∷ []) reserve
        ≡ some (serialize c (resized c (md.size + size) md), assign merge_id md.size reserve)
  unfolding fold_operands merge_operand append_offset_reserve_put
  append-full reserve =
      (full_merge-fold c md (increase_size size merge_id true ∷ []) reserve range
        ((omega (arith, fits), small), tt)).0
      ∙ ap (λ (n : ℕ). some (serialize c (resized c n md), assign merge_id md.size reserve))
          {x = add64 md.size size} {y = md.size + size} (omega (arith, fits))

  after_merge-append :
      after_merge c append_op (found (serialize c md))
      ≡ found (serialize c (resized c (md.size + size) md))
  unfolding after_merge
  after_merge-append = ap merged (append-full [])

  reserve_after-append :
      (reserve : Dict ℕ ℕ)
      → lookup merge_id (reserve_after c append_op reserve (found (serialize c md))) ≡ some md.size
  unfolding reserve_after
  reserve_after-append reserve =
      ap (λ (o : Option (Bytes × Dict ℕ ℕ)). lookup merge_id (reserve_of reserve o))
        (append-full reserve)
      ∙ lookup-assign merge_id merge_id md.size reserve
      ∙ rw (beq_refl merge_id) refl

module _ {c : Config} (rdb : RocksDb c) (accepts : Accepts rdb) where
  abbrev append_reply : Result ℤ × Store rdb → (ℕ × ℤ) × Store rdb
  append_reply = finish (λ ret_offset. (0, ret_offset)) (λ e. (read_failed e, pos 0))

  module _ (s : Store rdb) (files : Files) (k : Bytes) (md : Metadata) (size merge_id : ℕ)
      (holds : Holds rdb s files) (here : files k ≡ some md) (small : merge_id < 2 ^ 16)
      (fits : md.size + size < 2 ^ 63) (db' : rdb.Db)
      (merged_now : rdb.merge k (serialize_operand (increase_size size merge_id true)) s.db
        ≡ some db') where
    range_here : IsInRange md
    range_here = subst InRange here (holds.range k)

    abbrev after_append : Store rdb
    after_append = record s { db = db' }

    append-Holds : Holds rdb after_append (store k (some (resized c (md.size + size) md)) files)
    append-Holds =
        merged-Holds rdb accepts s files k (serialize_operand (increase_size size merge_id true))
          (some (resized c (md.size + size) md)) db' merged_now holds
          (ap
              (λ (o : Option Metadata).
                after_merge c (serialize_operand (increase_size size merge_id true)) (text_of c o))
              here
            ∙ after_merge-append c md range_here size merge_id small fits)
          (resized-IsInRange c (md.size + size) md fits range_here)

    reserved_here : lookup merge_id (rdb.reserved k db' s.append_offset_reserve) ≡ some md.size
    reserved_here =
        rdb.reserved-merge k size merge_id s.db db' s.append_offset_reserve merged_now
        ∙ ap
            (λ (v : Lookup). lookup merge_id (
              reserve_after c (serialize_operand (increase_size size merge_id true))
                s.append_offset_reserve v))
            (holds.value k ∙ ap (text_of c) here)
        ∙ reserve_after-append c md range_here size merge_id small fits s.append_offset_reserve

    abbrev left_over : Store rdb
    left_over = record after_append {
      append_offset_reserve = erase merge_id (rdb.reserved k db' s.append_offset_reserve);
    }

    take_reserved-append :
        take_reserved rdb merge_id (after_get rdb k after_append) ≡ (ok (pos md.size), left_over)
    unfolding take_reserved append_offset_reserve_get_and_erase
    take_reserved-append =
        ap
          (λ (o : Option ℕ). erased rdb (after_get rdb k after_append) (elim o [
            | none ↦ none
            | some out ↦ some (out, erase merge_id (rdb.reserved k db' s.append_offset_reserve))
          ]))
          reserved_here
        ∙ ap (λ (z : ℤ). (ok z, left_over))
            (rw (lt→ltb md.size (2 ^ 63) (omega (arith, fits))) refl)

    reading_append :
        (get_impl rdb k >>= λ _. take_reserved rdb merge_id) after_append
        ≡ (ok (pos md.size), left_over)
    unfolding get_impl
    reading_append =
        ap
          (λ (v : Lookup).
            then_run (status_of rdb v, after_get rdb k after_append)
              (λ _. take_reserved rdb merge_id))
          (append-Holds.value k
            ∙ ap (text_of c) (store_self k (some (resized c (md.size + size) md)) files))
        ∙ take_reserved-append

  -- An append to a file replies the old size of the file as its offset and makes the file longer by
  -- what is written, and nothing else changes, if the store holds the records of a map with the
  -- file, the database accepts every write, the merge id has 16 bits and the new size is below
  -- 2^63.
  pub update_size-append :
      (s : Store rdb) (files : Files) (k : Bytes) (md : Metadata) (size offset merge_id : ℕ)
      (now : ℤ)
      → Holds rdb s files
      → files k ≡ some md
      → merge_id < 2 ^ 16
      → md.size + size < 2 ^ 63
      → (s' : Store rdb) × (rpc_srv_update_metadentry_size rdb merge_id now k size offset true s
          ≡ ((0, pos md.size), s'))
        × Holds rdb s' (store k (some (resized c (md.size + size) md)) files)
  unfolding rpc_srv_update_metadentry_size update_size increase_size_impl merge_impl
  update_size-append s files k md size offset merge_id now holds here small fits =
      let op : Bytes = serialize_operand (increase_size size merge_id true) in
      let (db', e) = accepts.merges k op s.db in
      let held = append-Holds s files k md size merge_id holds here small fits db' e in
      (
        left_over s files k md size merge_id holds here small fits db' e,
        ap
              (λ (o : Option rdb.Db). append_reply (
                then_run (written rdb s o)
                  (λ _. get_impl rdb k >>= λ _. take_reserved rdb merge_id)))
              e
            ∙ ap append_reply
                (reading_append s files k md size merge_id holds here small fits db' e),
        record { value = held.value; range = held.range },
      )
