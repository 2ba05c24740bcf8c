-- ===== src/Daemon/Handlers/Spec.antt =====
-- What the metadata handlers promise: a map from paths to records, and the reply and the new map for
-- each request. The handlers themselves are in Daemon/Handlers.antt.
use gekko_fs.Base.{
  ℕ, ◌+◌, ◌^◌, ◌<◌, ◌≡◌, max, Bool, true, false, not, ◌&&◌, ◌||◌, eqb, if◌then◌else◌, [], Option,
  none, some,
}
use gekko_fs.Base.Eq.{Bytes, ◌==◌, bytes_eq}
use gekko_fs.Base.Integers.{ℤ, pos, negsuc}
use gekko_fs.Common.Metadata.{Metadata, Config, serialize}
use gekko_fs.Common.Metadata.RoundTrip.{kept}
use gekko_fs.Data.Serve.{enoent}
use gekko_fs.Daemon.Store.{RocksDb}
use gekko_fs.Daemon.Store.Backend.{Store, is_dir, is_reg}
use gekko_fs.Daemon.Store.Files.{Settings, new_metadata, with_times}
use gekko_fs.Daemon.Handlers.{
  Removed, refused, eexist, eisdir, enotdir, rpc_srv_create, rpc_srv_stat, rpc_srv_decr_size,
  rpc_srv_remove_metadata, rpc_srv_update_metadentry_size, rpc_srv_get_metadentry_size,
}

abbrev pub Files : Type 0
Files = Bytes → Option Metadata

abbrev pub store : Bytes → Option Metadata → Files → Files
store path entry files other = if path == other then entry else files other

pub data Request : Type 0 where
  create_in : (path : Bytes) (mode : ℕ) → Request
  stat_in : (path : Bytes) → Request
  size_in : (path : Bytes) → Request
  grow_in : (path : Bytes) (size offset : ℕ) → Request
  cut_in : (path : Bytes) (length : ℕ) → Request
  remove_in : (path : Bytes) (rm_dir : Bool) → Request

pub data Reply : Type 0 where
  created : ℤ → Reply
  stated : ℕ × Bytes → Reply
  sized : ℕ × ℕ → Reply
  grown : ℕ × ℤ → Reply
  shortened : ℕ → Reply
  removed : Removed → Reply

-- The surroundings of a request: the settings, the clock, the id of an append, and the removal of
-- chunk files.
pub record Surroundings : Type 0 where
  pub settings : Settings
  pub now : ℤ
  pub merge_id : ℕ
  pub destroy : Bytes → ℕ

abbrev pub reply_by {ℓ} : {A : Type 0} {S : Type ℓ} → (A → Reply) → A × S → Reply × S
reply_by f (a, s) = (f a, s)

abbrev pub answered {ℓ} : {A : Type 0} {S : Type ℓ} → (A → Reply) → A × S → Option (Reply × S)
answered f r = some (reply_by f r)

abbrev pub answered_if {ℓ} :
    {A : Type 0} {S : Type ℓ} → (A → Reply) → Option (A × S) → Option (Reply × S)
answered_if f none = none
answered_if f (some r) = answered f r

-- The handler of each request; `none` is an abort of the daemon.
unfoldable pub serve :
    {c : Config} (rdb : RocksDb c) → Surroundings → Request → Store rdb → Option (Reply × Store rdb)
serve rdb e (create_in path mode) s =
    answered_if created (rpc_srv_create rdb e.settings e.now path mode s)
serve rdb e (stat_in path) s = answered stated (rpc_srv_stat rdb path s)
serve rdb e (size_in path) s = answered sized (rpc_srv_get_metadentry_size rdb path s)
serve rdb e (grow_in path size offset) s =
    answered grown (rpc_srv_update_metadentry_size rdb e.merge_id e.now path size offset false s)
serve rdb e (cut_in path length) s = answered shortened (rpc_srv_decr_size rdb e.now path length s)
serve rdb e (remove_in path rm_dir) s =
    answered removed (rpc_srv_remove_metadata rdb e.destroy path rm_dir s)

-- A record with another size, and with another time of modification if that is kept.
abbrev pub resized : Config → ℕ → Metadata → Metadata
resized c n md = record (kept c md) { size = n }

abbrev pub touched : Config → ℤ → Metadata → Metadata
touched c now md = if c.use_mtime then record (kept c md) { mtime = now } else md

abbrev pub put_new :
    Config → Surroundings → Bytes → Option Metadata → Option Metadata → Files → Reply × Files
put_new c e path none entry files = (created (negsuc 0), files)
put_new c e path (some md) (some old) files = (created (pos eexist), files)
put_new c e path (some md) none files =
    (created (pos 0), store path (some (kept c (with_times e.settings e.now md))) files)

abbrev pub stat_of : Config → Option Metadata → ℕ × Bytes
stat_of c none = (enoent, [])
stat_of c (some md) = (0, serialize c md)

abbrev pub size_of : Option Metadata → ℕ × ℕ
size_of none = (enoent, 0)
size_of (some md) = (0, md.size)

abbrev pub change : (Metadata → Metadata) → Option Metadata → Option Metadata
change f none = none
change f (some md) = some (f md)

abbrev pub take_away : Surroundings → Bytes → Bool → Option Metadata → Files → Removed × Files
take_away e path rm_dir none files = (refused enoent, files)
take_away e path rm_dir (some md) files =
    if is_dir md.mode && not rm_dir
    then (refused eisdir, files)
    else if not (is_dir md.mode) && rm_dir
    then (refused enotdir, files)
    else (
      record {
        code = if is_reg md.mode && not (eqb md.size 0) then e.destroy path else 0;
        mode = md.mode;
        size = if is_dir md.mode then 0 else md.size;
      },
      store path none files,
    )

-- The promise for the requests that suit. Growing keeps the greatest end of a write; a new file keeps its configured members.
abbrev pub promise : Config → Surroundings → Request → Files → Reply × Files
promise c e (create_in path mode) files =
    put_new c e path (new_metadata c e.now mode) (files path) files
promise c e (stat_in path) files = (stated (stat_of c (files path)), files)
promise c e (size_in path) files = (sized (size_of (files path)), files)
promise c e (grow_in path size offset) files = (
  grown (0, negsuc 0),
  store path
      (change (λ md. touched c e.now (resized c (max (offset + size) md.size) md)) (files path))
      files,
)
promise c e (cut_in path length) files = (
  shortened 0,
  store path (change (λ md. touched c e.now (resized c length md)) (files path)) files,
)
promise c e (remove_in path rm_dir) files =
    reply_by removed (take_away e path rm_dir (files path) files)

abbrev pub Is : (Metadata → Type 0) → Option Metadata → Type 0
Is P none = ⊥
Is P (some md) = P md

-- A new mode has 32 bits, and is that of a directory or a regular file; a file that grows or is cut exists, and it is cut to less than its size.
abbrev pub Suits : Request → Files → Type 0
Suits (create_in path mode) files = (mode < 2 ^ 32) × ((is_dir mode || is_reg mode) ≡ true)
Suits (stat_in path) files = Unit
Suits (size_in path) files = Unit
Suits (grow_in path size offset) files = Is (λ md. Unit) (files path) × (offset + size < 2 ^ 63)
Suits (cut_in path length) files = Is (λ md. length < md.size) (files path)
Suits (remove_in path rm_dir) files = Unit
