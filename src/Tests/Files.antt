-- ===== src/Tests/Files.antt =====
-- Tests of the client's open files and caches, src/client/gkfs_functions.cpp and src/client/cache.cpp,
-- and the theorems at concrete inputs, with daemons that hold one file and accept every write.
use gekko_fs.Base.{
  ℕ, ◌+◌, ◌-◌, ◌%◌, ◌^◌, ◌≡◌, ◌≢◌, ◌≤◌, ◌<◌, refl, arith, Bool, true, false, if◌then◌else◌, List,
  [], ◌∷◌, some, none, max, length, replicate, length-replicate, eqb,
}
use gekko_fs.Base.Eq.{Bytes, bytes_beq}
use gekko_fs.Base.Text.{codes}
use gekko_fs.Base.Dict.{lookup, assign, erase, insert}
use gekko_fs.Base.Integers.{ℤ, pos, negsuc, to_unsigned}
use gekko_fs.Client.FileMap.{get}
use gekko_fs.Client.Directory.{regular}
use gekko_fs.Client.Cache.{
  CacheEntry, DentryCache, gen_dir_id, get_dir_id, insert_entry, get_entry, clear_dir, record_size,
  reset, flush,
}
use gekko_fs.Client.Cache.Sizes.{
  SizeOp, since_flush, largest, recorded, flushed, apply_op, after_ops, flush-largest,
}
use gekko_fs.Client.Cache.Dentries.{new, found, after_insert, after_clear, insert-clear_dir}
use gekko_fs.Client.Files.{
  gkfs_fsync, flush_size, open_file, Remote, ClientSettings, Client, set_pos, gkfs_write,
  gkfs_do_write, write_metadata, update_file_size, write_bytes,
}
use gekko_fs.Client.Files.Writes.{Accepts}
use gekko_fs.Client.Files.Seek.{
  seek_cur, seek_end, gkfs_lseek, gkfs_lseek-target, gkfs_lseek-wraps, moved_to,
}
use gekko_fs.Client.Files.Results.{base_of, gkfs_write-position, gkfs_write-large}
use gekko_fs.Client.Files.Vectors.{gkfs_writev, gkfs_writev-position}

-- The state is the size of the file.
abbrev update_reply : ℕ → ℤ → Bool → ℕ → ℕ × (ℕ × ℤ)
update_reply count offset is_append s =
    if is_append then (s + count, (0, pos s)) else (max s (to_unsigned offset + count), (0, pos 0))

abbrev one_file : Remote
one_file = record {
  State = ℕ;
  forward_update_metadentry_size =
      λ path count offset is_append replicas s. update_reply count offset is_append s;
  forward_update_metadentry_size_proxy =
      λ path count offset is_append s. update_reply count offset is_append s;
  forward_get_metadentry_size = λ path copy s. (0, pos s);
  forward_get_metadentry_size_proxy = λ path s. (0, pos s);
  forward_write = λ path buf offset replicas s. (s, (0, pos (length buf)));
  forward_write_proxy = λ path buf offset s. (s, (0, pos (length buf)));
}

one_file-Accepts : Accepts one_file
one_file-Accepts = record {
  end_of_file = λ path s. s;
  size_updated = λ path count offset replicas s. refl;
  size_updated_proxy = λ path count offset s. refl;
  reserves = λ path count offset replicas s. refl;
  reserves_proxy = λ path count offset s. refl;
  writes = λ path buf offset replicas s some_bytes. refl;
  writes_proxy = λ path buf offset s some_bytes. refl;
}

abbrev direct : ClientSettings
direct = record {
  replicas = 0;
  use_proxy = false;
  fwd_update_size = false;
  fwd_get_size = false;
  fwd_io = false;
  fwd_io_count_threshold = 0;
  use_write_size_cache = false;
  flush_threshold = 0;
}

-- One file is open, with the given flags, and holds 100 bytes.
abbrev opened : ℕ → Client ℕ
opened flags = record {
  file_map = record { files = (10000, 0) ∷ []; fd_idx = 10001; fd_validation_needed = false };
  files = λ p. open_file (codes "/a") flags regular;
  write_size_cache = [];
  remote = 100;
  errno = 0;
}

read_only : (open_file (codes "/a") 0 regular).rdonly ≡ false
unfolding open_file
read_only = refl

append_write : (gkfs_write one_file direct 10000 (1 ∷ 2 ∷ []) (opened 1025)).1 ≡ pos 2
unfolding gkfs_write gkfs_do_write get lookup open_file write_metadata update_file_size write_bytes
append_write = refl

is_open : (flags : ℕ) → get (opened flags).file_map 10000 ≡ some 0
unfolding get lookup
is_open flags = refl

is_file : (flags : ℕ) → (open_file (codes "/a") flags regular).file_type ≡ regular
unfolding open_file
is_file flags = refl

at_start : (flags : ℕ) → (open_file (codes "/a") flags regular).position < 2 ^ 63
unfolding open_file
at_start flags = omega arith

in_range : 100 + 2 < 2 ^ 63
in_range = omega arith

gkfs_lseek-target_example :
    gkfs_lseek one_file direct 0 (pos 5) seek_end (opened 0)
    ≡ moved_to one_file direct 0 (opened 0) (pos (100 + 5))
gkfs_lseek-target_example =
    gkfs_lseek-target one_file direct 0 (pos 5) seek_end 100 (opened 0) refl (omega arith)
      (omega arith) (omega arith) (λ e. cc) (λ e q. cc)

position_zero : (flags : ℕ) → ((opened flags).files 0).position ≡ 0
unfolding open_file
position_zero flags = refl

before : ((opened 0).files 0).position ≤ 4
before = omega (arith, position_zero 0)

gkfs_lseek-wraps_example : gkfs_lseek one_file direct 0 (negsuc 4) seek_cur (opened 0) ≡ (
  set_pos one_file direct 0 (2 ^ 64 + ((opened 0).files 0).position - 5) (opened 0),
  negsuc (4 - ((opened 0).files 0).position),
)
gkfs_lseek-wraps_example = gkfs_lseek-wraps one_file direct 0 4 (opened 0) (omega arith) before

append_base : base_of one_file direct one_file-Accepts 0 (opened 1025) + 2 < 2 ^ 63
unfolding open_file one_file-Accepts
append_base = omega arith

gkfs_write-position_example :
    ((gkfs_write one_file direct 10000 (1 ∷ 2 ∷ []) (opened 1025)).1 ≡ pos 2)
    × (((gkfs_write one_file direct 10000 (1 ∷ 2 ∷ []) (opened 1025)).0.files 0).position
        ≡ base_of one_file direct one_file-Accepts 0 (opened 1025) + 2)
    × ((ptr' : ℕ)
        → ptr' ≢ 0
        → (gkfs_write one_file direct 10000 (1 ∷ 2 ∷ []) (opened 1025)).0.files ptr'
          ≡ (opened 1025).files ptr')
    × ((gkfs_write one_file direct 10000 (1 ∷ 2 ∷ []) (opened 1025)).0.errno ≡ 0)
gkfs_write-position_example =
    gkfs_write-position one_file direct one_file-Accepts 10000 0 (1 ∷ 2 ∷ []) (opened 1025)
      (is_open 1025) (is_file 1025) (at_start 1025) (omega arith) (omega arith) append_base

zeros : ℕ → Bytes
zeros n = replicate n 0

length-zeros : (n : ℕ) → length (zeros n) ≡ n
unfolding zeros
length-zeros n = length-replicate n 0

-- 2 GiB.
abbrev two_gib : Bytes
two_gib = zeros (2 ^ 31)

large : 2 ^ 31 ≤ length two_gib
large = omega (arith, length-zeros (2 ^ 31))

below : length two_gib < 2 ^ 32
below = omega (arith, length-zeros (2 ^ 31))

direct_base : base_of one_file direct one_file-Accepts 0 (opened 1) < 2 ^ 63
unfolding open_file
direct_base = omega arith

gkfs_write-large_example :
    ((gkfs_write one_file direct 10000 two_gib (opened 1)).1 ≡ negsuc (2 ^ 32 - 1 - length two_gib))
    × (((gkfs_write one_file direct 10000 two_gib (opened 1)).0.files 0).position
        ≡ (base_of one_file direct one_file-Accepts 0 (opened 1)
            + (2 ^ 64 - (2 ^ 32 - length two_gib)))
          % 2 ^ 64)
    × ((gkfs_write one_file direct 10000 two_gib (opened 1)).0.errno ≡ 0)
gkfs_write-large_example =
    gkfs_write-large one_file direct one_file-Accepts 10000 0 two_gib (opened 1) (is_open 1)
      (is_file 1) (at_start 1) large below direct_base

vector_fits : ((opened 1025).files 0).position + 3 < 2 ^ 63
vector_fits = omega (arith, position_zero 1025)

gkfs_writev-position_example :
    ((gkfs_writev one_file direct 10000 ((1 ∷ []) ∷ [] ∷ (2 ∷ 3 ∷ []) ∷ []) (opened 1025)).1
      ≡ pos 3)
    × (((gkfs_writev one_file direct 10000
            ((1 ∷ []) ∷ [] ∷ (2 ∷ 3 ∷ []) ∷ [])
            (opened 1025)).0.files
          0).position
        ≡ ((opened 1025).files 0).position + 3)
    × ((gkfs_writev one_file direct 10000 ((1 ∷ []) ∷ [] ∷ (2 ∷ 3 ∷ []) ∷ []) (opened 1025)).0.errno
        ≡ 0)
gkfs_writev-position_example =
    gkfs_writev-position one_file direct one_file-Accepts 10000 0
      ((1 ∷ []) ∷ [] ∷ (2 ∷ 3 ∷ []) ∷ []) (opened 1025) (is_open 1025) (is_file 1025) (omega arith)
      vector_fits

-- A file that had 100 bytes when it was flushed and evicted, and then got a write of 10.
abbrev rewritten : List SizeOp
rewritten = recorded (codes "/a") 10 ∷ flushed (codes "/a") true ∷ recorded (codes "/a") 100 ∷ []

stale_size : (flush (codes "/a") true (after_ops rewritten)).1 ≡ some 100
unfolding flush reset after_ops apply_op record_size assign erase lookup bytes_beq
stale_size = refl

flush-largest_example : (flush (codes "/a") true (after_ops rewritten)).1 ≡ (
    if eqb (since_flush (codes "/a") rewritten) 0
    then none
    else some (largest (codes "/a") rewritten))
flush-largest_example = flush-largest (codes "/a") true rewritten

abbrev no_entries : DentryCache
no_entries = record { entries = []; entry_dir_id = [] }

abbrev an_entry : CacheEntry
an_entry = record { file_type = regular; size = 3; ctime = pos 0 }

insert-clear_dir_example :
    (found length
        (insert_entry length (codes "/d") (codes "x") an_entry no_entries)
        (codes "/e")
        (codes "x")
      ≡ after_insert length no_entries (codes "/d") (codes "x") an_entry (codes "/e") (codes "x"))
    × (found length (clear_dir (codes "/d") no_entries) (codes "/e") (codes "x")
        ≡ after_clear length no_entries (codes "/d") (codes "/e") (codes "x"))
insert-clear_dir_example =
    insert-clear_dir length (codes "/d") (codes "x") an_entry (codes "/e") (codes "x")
      (new no_entries refl)

-- Here the hash is the length, so both directories have the same id.
shared_id :
    found length
      (insert_entry length (codes "/d") (codes "x") an_entry no_entries)
      (codes "/e")
      (codes "x")
    ≡ some an_entry
unfolding get_entry insert_entry get_dir_id gen_dir_id assign insert erase lookup bytes_beq
shared_id = refl

-- A sync with the size cache sends the recorded size to the metadata server.
abbrev caching : ClientSettings
caching = record direct { use_write_size_cache = true; flush_threshold = 9 }

abbrev written_late : Client ℕ
written_late = record (opened 1) { write_size_cache = (codes "/a", (1, 120)) ∷ [] }

fsync_sends : (gkfs_fsync one_file caching 10000 written_late).0.remote ≡ 120
unfolding gkfs_fsync get lookup flush_size flush reset update_file_size assign erase bytes_beq
    open_file
fsync_sends = refl
