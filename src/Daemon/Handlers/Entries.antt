-- ===== src/Daemon/Handlers/Entries.antt =====
-- The metadata handlers that create and remove an entry, against their promise. The handlers are in
-- src/daemon/handler/srv_metadata.cpp.
use gekko_fs.Base.{
  ℕ, ◌^◌, ◌<◌, ◌≡◌, ◌≢◌, refl, ap, ◌∙◌, Bool, true, false, not, ◌&&◌, ◌||◌, eqb, arith,
  if◌then◌else◌, [], Option, none, some, subst,
}
use gekko_fs.Base.Eq.{Bytes, bytes_eq}
use gekko_fs.Base.Integers.{ℤ, pos, IsInt64}
use gekko_fs.Common.Metadata.{Metadata, Config, serialize}
use gekko_fs.Common.Metadata.RoundTrip.{kept, IsInRange}
use gekko_fs.Daemon.Merge.{create, serialize_operand}
use gekko_fs.Daemon.Results.{Result, ok, then_run, ◌>>◌, return, finish}
use gekko_fs.Daemon.Store.{Lookup, RocksDb, after_merge}
use gekko_fs.Daemon.Store.Merges.{InRange, text_of, kept-IsInRange, after_merge-create}
use gekko_fs.Daemon.Store.Backend.{
  Store, put_impl, exists_impl, put_unless, put_no_exist_impl, after_get, is_dir, is_reg, existence,
}
use gekko_fs.Daemon.Store.Files.{
  new_metadata, with_times, create_file, remove_file, ignore_not_found,
}
use gekko_fs.Daemon.Handlers.{
  Removed, refused, eisdir, enotdir, create_failed, remove_failed, remove_checked, create_checked,
  rpc_srv_create, rpc_srv_remove_metadata,
}
use gekko_fs.Daemon.Handlers.Spec.{
  Files, store, change, Surroundings, take_away, put_new, Reply, created, reply_by, answered_if,
}
use gekko_fs.Daemon.Handlers.Holds.{Accepts, Holds, merge-Holds, remove-Holds}
use gekko_fs.Daemon.Handlers.Reads.{get-found}

pub new_metadata-some :
    (c : Config) (now : ℤ) (mode : ℕ)
    → (is_dir mode || is_reg mode) ≡ true
    → new_metadata c now mode ≢ none
unfolding new_metadata
new_metadata-some c now mode valid = rw valid (λ eq. cc)

module _ {c : Config} (rdb : RocksDb c) (accepts : Accepts rdb) where
  module _ (e : Surroundings) (s : Store rdb) (files : Files) (k : Bytes)
      (holds : Holds rdb s files) where
    -- A Get leaves the records as they are.
    pub after_get-Holds : Holds rdb (after_get rdb k s) files
    after_get-Holds = record { value = holds.value; range = holds.range }

    abbrev taken : Bool → Bool → Removed → Removed × Files
    taken a b reply =
        if a
        then (refused eisdir, files)
        else if b
        then (refused enotdir, files)
        else (reply, store k none files)

    removing-Holds :
        (a b : Bool) (reply : Removed)
        → (s' : Store rdb) × (finish
              (λ r. r)
              remove_failed
              ((if a
                  then return (refused eisdir)
                  else if b
                  then return (refused enotdir)
                  else (remove_file rdb k >> return reply))
                (after_get rdb k s))
            ≡ ((taken a b reply).0, s'))
          × Holds rdb s' (taken a b reply).1
    unfolding remove_file
    removing-Holds true b reply = (after_get rdb k s, refl, after_get-Holds)
    removing-Holds false true reply = (after_get rdb k s, refl, after_get-Holds)
    removing-Holds false false reply =
        let (s', eq, holds') =
          remove-Holds rdb accepts (after_get rdb k s) files k after_get-Holds in
        (
          s',
          ap
              (λ (r : Result (Unit {0}) × Store rdb).
                finish (λ (x : Removed). x) remove_failed
                  (then_run (ignore_not_found rdb r) (λ _. return reply)))
              eq,
          holds',
        )

    removed_by : (rm_dir : Bool) → Result Metadata × Store rdb → Removed × Store rdb
    removed_by rm_dir r =
        finish (λ x. x) remove_failed (then_run r (remove_checked rdb e.destroy k rm_dir))

    pub remove_entry-Holds :
        (rm_dir : Bool) (o : Option Metadata)
        → files k ≡ o
        → (s' : Store rdb) × (rpc_srv_remove_metadata rdb e.destroy k rm_dir s
            ≡ ((take_away e k rm_dir o files).0, s'))
          × Holds rdb s' (take_away e k rm_dir o files).1
    unfolding rpc_srv_remove_metadata removed_by remove_checked
    remove_entry-Holds rm_dir none here = (
      after_get rdb k s,
      ap (removed_by rm_dir) (get-found rdb s k none (holds.value k ∙ ap (text_of c) here) tt),
      after_get-Holds,
    )
    remove_entry-Holds rm_dir (some md) here =
        let dir : Bool = is_dir md.mode in
        let (s', eq, holds') = removing-Holds (dir && not rm_dir) (not dir && rm_dir) (record {
          code = if is_reg md.mode && not (eqb md.size 0) then e.destroy k else 0;
          mode = md.mode;
          size = if dir then 0 else md.size;
        }) in
        (
          s',
          ap (removed_by rm_dir) (
                get-found rdb s k (some md) (holds.value k ∙ ap (text_of c) here)
                  (subst InRange here (holds.range k)))
              ∙ eq,
          holds',
        )

    module _ (mode : ℕ) (fits : mode < 2 ^ 32) (int64 : IsInt64 e.now) where
      time-IsInt64 : (b : Bool) (z : ℤ) → IsInt64 z → IsInt64 (if b then e.now else z)
      time-IsInt64 true z h = int64
      time-IsInt64 false z h = h

      new-IsInRange :
          (b : Bool) (md : Metadata)
          → (if b
              then some (record {
                mode = mode;
                link_count = 0;
                size = 0;
                blocks = pos 0;
                atime = if c.use_atime then e.now else pos 0;
                mtime = if c.use_mtime then e.now else pos 0;
                ctime = if c.use_ctime then e.now else pos 0;
                target_path = [];
                rename_path = [];
              })
              else none)
            ≡ some md
          → IsInRange (with_times e.settings e.now md)
      unfolding with_times
      new-IsInRange true md eq =
          subst (λ (o : Option Metadata). InRange (change (with_times e.settings e.now) o)) eq
            (
              fits,
              omega arith,
              time-IsInt64 e.settings.atime_state _
                  (time-IsInt64 c.use_atime (pos 0) (omega arith)),
              time-IsInt64 e.settings.mtime_state _
                  (time-IsInt64 c.use_mtime (pos 0) (omega arith)),
              time-IsInt64 e.settings.ctime_state _
                  (time-IsInt64 c.use_ctime (pos 0) (omega arith)),
              omega arith,
              omega arith,
              tt,
              tt,
              tt,
            )
      new-IsInRange false md eq = cc

      created_by : Result Metadata × Store rdb → ℤ × Store rdb
      created_by r =
          finish (λ _. pos 0) create_failed (then_run r (create_file rdb e.settings e.now k))

      -- The creation of a record when a path is checked for an entry, from what is found there.
      abbrev after_found : Metadata → Lookup → Reply × Store rdb
      after_found md v = reply_by created (
          finish (λ _. pos 0) create_failed
            (then_run (existence rdb v, after_get rdb k s)
              (put_unless rdb k (serialize c (with_times e.settings e.now md)))))

      created_by-found :
          (md : Metadata) (o : Option Metadata)
          → files k ≡ o
          → e.settings.create_exist_check ≡ true
          → reply_by created (created_by (ok md, s)) ≡ after_found md (text_of c o)
      unfolding created_by create_file put_no_exist_impl exists_impl
      created_by-found md o here checked =
          let text : Bytes = serialize c (with_times e.settings e.now md) in
          ap
            (λ (b : Bool). reply_by created (
              finish (λ _. pos 0) create_failed
                ((if b then put_no_exist_impl rdb k text else put_impl rdb k text) s)))
            checked
          ∙ ap (after_found md) (holds.value k ∙ ap (text_of c) here)

      made-Holds :
          (md : Metadata) (o : Option Metadata)
          → files k ≡ o
          → IsInRange (with_times e.settings e.now md)
          → e.settings.create_exist_check ≡ true
          → (s' : Store rdb) × (reply_by created (created_by (ok md, s))
              ≡ ((put_new c e k (some md) o files).0, s'))
            × Holds rdb s' (put_new c e k (some md) o files).1
      unfolding put_impl
      made-Holds md (some old) here range checked =
          (after_get rdb k s, created_by-found md (some old) here checked, after_get-Holds)
      made-Holds md none here range checked =
          let md' : Metadata = with_times e.settings e.now md in
          let op : Bytes = serialize_operand (create (serialize c md')) in
          let (s', eq, holds') =
            merge-Holds rdb accepts (after_get rdb k s) files k op (some (kept c md'))
              after_get-Holds
              (ap (λ (o : Option Metadata). after_merge c op (text_of c o)) here
                ∙ after_merge-create c md' range)
              (kept-IsInRange c md' range) in
          (
            s',
            created_by-found md none here checked
                ∙ ap
                    (λ (r : Result (Unit {0}) × Store rdb).
                      reply_by created (finish (λ _. pos 0) create_failed r))
                    eq,
            holds',
          )

      created-Holds :
          (m : Option Metadata)
          → m ≢ none
          → ((md : Metadata) → m ≡ some md → IsInRange (with_times e.settings e.now md))
          → e.settings.create_exist_check ≡ true
          → (s' : Store rdb) × (answered_if created (create_checked rdb e.settings e.now k m s)
              ≡ some ((put_new c e k m (files k) files).0, s'))
            × Holds rdb s' (put_new c e k m (files k) files).1
      unfolding created_by
      created-Holds none valid ranges checked = absurd (valid refl)
      created-Holds (some md) valid ranges checked =
          let (s', eq, holds') = made-Holds md (files k) refl (ranges md refl) checked in
          (s', ap (λ (r : Reply × Store rdb). some r) eq, holds')

      pub create-Holds :
          (is_dir mode || is_reg mode) ≡ true
          → e.settings.create_exist_check ≡ true
          → (s' : Store rdb) × (answered_if created (rpc_srv_create rdb e.settings e.now k mode s)
              ≡ some ((put_new c e k (new_metadata c e.now mode) (files k) files).0, s'))
            × Holds rdb s' (put_new c e k (new_metadata c e.now mode) (files k) files).1
      unfolding rpc_srv_create new_metadata
      create-Holds valid checked =
          created-Holds (new_metadata c e.now mode) (new_metadata-some c e.now mode valid)
            (new-IsInRange (is_dir mode || is_reg mode)) checked
