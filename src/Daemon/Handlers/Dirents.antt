-- ===== src/Daemon/Handlers/Dirents.antt =====
-- rpc_srv_get_dirents of src/daemon/handler/srv_metadata.cpp: the entries of a directory in one
-- daemon's store, written to a buffer for the client. Names are C strings, with no null character.
-- `push_ok` stands for the bulk transfer; the other calls of Margo are taken to succeed.
use gekko_fs.Base.{
  ℕ, zero, suc, ◌+◌, ◌*◌, ◌≡◌, refl, sym, ap, ◌∙◌, Bool, true, false, not, ◌&&◌, ltb, if◌then◌else◌,
  List, [], ◌∷◌, ◌++◌, length, Option, none, some, All, All-mono, Bool-cases, inl, inr, arith, eqb,
  length-append, drop-length-append,
}
use gekko_fs.Base.Eq.{Bytes, ◌==◌, bytes_eq}
use gekko_fs.Base.Dict.{lookup, is_none}
use gekko_fs.Base.Integers.{ℤ, pos, negsuc}
use gekko_fs.Common.Metadata.{Metadata, Config}
use gekko_fs.Common.Paths.{is_absolute, has_trailing_slash}
use gekko_fs.Data.Write.{eio, ebusy}
use gekko_fs.Daemon.Store.{RocksDb, starts_with, value_of}
use gekko_fs.Daemon.Store.Merges.{text_of}
use gekko_fs.Daemon.Store.Backend.{
  Store, is_negative_one, has_separator, is_dir, kinds, with_slash, get_dirents,
}
use gekko_fs.Daemon.Store.Listing.{
  IsEntry, IsListing, is_listed, shown, target, dirents_loop-IsListing,
}
use gekko_fs.Daemon.Handlers.Spec.{Files}
use gekko_fs.Daemon.Handlers.Holds.{Holds}

abbrev pub enobufs : ℕ
enobufs = 105

-- The buffer: a flag for each entry, then the names with their ends.
abbrev pub flag : Bool → ℕ
flag true = 1
flag false = 0

unfoldable pub flags : List (Bytes × Bool) → Bytes
flags [] = []
flags ((name, dir) ∷ es) = flag dir ∷ flags es

unfoldable pub names : List (Bytes × Bool) → Bytes
names [] = []
names ((name, dir) ∷ es) = name ++ 0 ∷ names es

unfoldable pub tot_names_size : List (Bytes × Bool) → ℕ
tot_names_size [] = 0
tot_names_size ((name, dir) ∷ es) = length name + tot_names_size es

abbrev pub out_size : List (Bytes × Bool) → ℕ
out_size es = tot_names_size es + length es * 2

-- The reply: the error code, the number of entries, and what was written to the client's buffer.
pub record DirentsOut : Type 0 where
  pub code : ℕ
  pub dirents_size : ℕ
  pub buffer : Bytes

abbrev pub no_dirents : ℕ → DirentsOut
no_dirents code = record { code = code; dirents_size = 0; buffer = [] }

unfoldable pub reply_dirents : Bool → ℕ → Option (List (Bytes × Bool)) → DirentsOut
reply_dirents push_ok bulk_size none = no_dirents eio
reply_dirents push_ok bulk_size (some []) = no_dirents 0
reply_dirents push_ok bulk_size (some (e ∷ es)) =
    if ltb bulk_size (out_size (e ∷ es))
    then no_dirents enobufs
    else if push_ok
    then record {
      code = 0;
      dirents_size = length (e ∷ es);
      buffer = flags (e ∷ es) ++ names (e ∷ es);
    }
    else no_dirents ebusy

unfoldable pub rpc_srv_get_dirents :
    {c : Config} (rdb : RocksDb c) → Bool → ℕ → Bytes → Store rdb → DirentsOut
rpc_srv_get_dirents rdb push_ok bulk_size path s =
    reply_dirents push_ok bulk_size (get_dirents rdb path s)

-- Whether a record is a directory, if there is one.
abbrev pub kind : Option Metadata → Option Bool
kind none = none
kind (some md) = some (is_dir md.mode)

-- What a listing has to show, apart from the code: a name is not empty and has no separator, the path
-- of an entry has one separator between the directory and the name, and the record of a path that was
-- renamed away has the blocks -1.
abbrev no_slash : Bytes → Bool
no_slash [] = true
no_slash (c ∷ cs) = if eqb c b'/' then false else no_slash cs

unfoldable pub is_name : Bytes → Bool
is_name [] = false
is_name (c ∷ cs) = no_slash (c ∷ cs)

unfoldable pub joined : Bytes → Bytes → Bytes
joined [] name = b'/' ∷ name
joined (c ∷ []) name = if eqb c b'/' then c ∷ name else c ∷ b'/' ∷ name
joined (c ∷ d ∷ cs) name = c ∷ joined (d ∷ cs) name

abbrev was_moved : ℤ → Bool
was_moved (pos n) = false
was_moved (negsuc zero) = true
was_moved (negsuc (suc n)) = false

abbrev pub entry_kind : Config → Option Metadata → Option Bool
entry_kind c none = none
entry_kind c (some md) =
    if c.has_rename && c.use_blocks && was_moved md.blocks then none else some (is_dir md.mode)

has_separator-no_slash : (name : Bytes) → not (has_separator name) ≡ no_slash name
unfolding has_separator
has_separator-no_slash [] = refl
has_separator-no_slash (c ∷ cs) = ground (arith, has_separator-no_slash cs)

with_slash-joined :
    (c : ℕ) (cs name : Bytes)
    → (if has_trailing_slash (c ∷ cs) then c ∷ cs else c ∷ cs ++ b'/' ∷ []) ++ name
      ≡ joined (c ∷ cs) name
unfolding has_trailing_slash joined
with_slash-joined c [] name = ground arith
with_slash-joined c (d ∷ cs) name = elim (Bool-cases (has_trailing_slash (d ∷ cs))) [
  | inl ends ↦ rw ends (ap (◌∷◌ c) (rw ends at (with_slash-joined d cs name)))
  | inr open_end ↦ rw open_end (ap (◌∷◌ c) (rw open_end at (with_slash-joined d cs name)))
]

starts_with-append : (root name : Bytes) → starts_with root (root ++ name) ≡ true
unfolding starts_with
starts_with-append [] name = refl
starts_with-append (p ∷ ps) name = ground (arith, starts_with-append ps name)

module _ {c : Config} (rdb : RocksDb c) where
  lookup-kinds :
      (name : Bytes) (es : List (Bytes × Metadata))
      → lookup name (kinds rdb es) ≡ kind (lookup name es)
  unfolding lookup
  lookup-kinds name [] = refl
  lookup-kinds name ((n, md) ∷ es) = elim (Bool-cases (n == name)) [
    | inl here ↦ rw here refl
    | inr other ↦ rw other (lookup-kinds name es)
  ]

  -- What a scan finds is held.
  entries-IsEntry :
      (s : Store rdb) (files : Files) (root : Bytes)
      → Holds rdb s files
      → All (IsEntry rdb root files) (rdb.scan root s.db)
  entries-IsEntry s files root holds =
      All-mono _ _ (rdb.scan root s.db) (λ entry h. (h.0, sym h.1 ∙ holds.value entry.0))
        (rdb.scan-IsFound root s.db)

  -- A name that is listed is in the scan if it has a record.
  listed-if :
      (listed : Bool) (o : Option Metadata) (show : Option Metadata → Option Metadata)
      → show none ≡ none
      → (if listed && not (is_none (value_of (text_of c o))) then show o else none)
        ≡ (if listed then show o else none)
  listed-if true none show h = sym h
  listed-if false none show h = refl
  listed-if true (some md) show h = refl
  listed-if false (some md) show h = refl

  target-scan :
      (s : Store rdb) (files : Files) (root name : Bytes)
      → Holds rdb s files
      → target rdb root files (rdb.scan root s.db) name ≡ (
          if is_listed rdb root files name
          then shown rdb root files (files (root ++ name))
          else none)
  target-scan s files root name holds =
      ap
        (λ (o : Option Bytes).
          if is_listed rdb root files name && not (is_none o)
          then shown rdb root files (files (root ++ name))
          else none)
        (rdb.lookup-scan root (root ++ name) s.db
          ∙ rw (starts_with-append root name) (ap value_of (holds.value (root ++ name))))
      ∙ listed-if (is_listed rdb root files name) (files (root ++ name)) (shown rdb root files) refl

  is_listed-is_name :
      (root : Bytes) (files : Files) (name : Bytes) → is_listed rdb root files name ≡ is_name name
  unfolding is_name has_separator
  is_listed-is_name root files [] = ground (arith, length-append root [])
  is_listed-is_name root files (c ∷ cs) =
      rw (drop-length-append root (c ∷ cs))
        (ground (arith, length-append root (c ∷ cs), has_separator-no_slash (c ∷ cs)))

  moved-eq : (blocks : ℤ) → is_negative_one blocks ≡ was_moved blocks
  moved-eq (pos n) = refl
  moved-eq (negsuc zero) = refl
  moved-eq (negsuc (suc n)) = ground arith

  shown-entry_kind :
      (root : Bytes) (files : Files) (o : Option Metadata)
      → kind (shown rdb root files o) ≡ entry_kind c o
  shown-entry_kind root files none = refl
  shown-entry_kind root files (some md) = ground (arith, moved-eq md.blocks)

  root-joined :
      (dir name : Bytes) → is_absolute dir ≡ true → with_slash rdb dir ++ name ≡ joined dir name
  unfolding is_absolute has_trailing_slash joined
  root-joined [] name absolute = absurd (ground (arith, absolute))
  root-joined (c ∷ []) name absolute = ground (arith, absolute)
  root-joined (c ∷ d ∷ cs) name absolute = ground (arith, with_slash-joined c (d ∷ cs) name)

  kind-listed :
      (root : Bytes) (files : Files) (name path : Bytes)
      → root ++ name ≡ path
      → kind (
          if is_listed rdb root files name
          then shown rdb root files (files (root ++ name))
          else none)
        ≡ (if is_name name then entry_kind c (files path) else none)
  kind-listed root files name path at = elim (Bool-cases (is_name name)) [
    | inl named ↦
        rw (is_listed-is_name root files name, named, at) (shown-entry_kind root files (files path))
    | inr other ↦ rw (is_listed-is_name root files name, other) refl
  ]

  -- The listing of a directory shows a name exactly if it is not empty, holds no separator, and the
  -- store holds a record at the directory and the name, with one separator between them, that was
  -- not renamed away, and tells whether that is a directory, if the store holds the records of a
  -- map and the directory is an absolute path; a record was renamed away if its blocks are -1 and
  -- the configuration keeps blocks and renames.
  pub get_dirents-entries :
      (s : Store rdb) (files : Files) (dir : Bytes)
      → Holds rdb s files
      → is_absolute dir ≡ true
      → (es : List (Bytes × Bool)) × (get_dirents rdb dir s ≡ some es)
        × ((name : Bytes)
            → lookup name es
              ≡ (if is_name name then entry_kind c (files (joined dir name)) else none))
  unfolding get_dirents IsListing
  get_dirents-entries s files dir holds absolute =
      let root : Bytes = with_slash rdb dir in
      let (es, e, law) =
        dirents_loop-IsListing rdb root files (rdb.scan root s.db)
          (entries-IsEntry s files root holds) holds.range in
      (
        kinds rdb es,
        rw (absolute, e) refl,
        λ name.
            lookup-kinds name es
            ∙ ap kind (law name ∙ target-scan s files root name holds)
            ∙ kind-listed root files name (joined dir name) (root-joined dir name absolute),
      )
