-- ===== src/Client/Directory/Entries.antt =====
-- The entries that a client gets are those that the daemons list: forward_get_dirents of
-- src/client/rpc/forward_metadata.cpp with rpc_srv_get_dirents of
-- src/daemon/handler/srv_metadata.cpp.
use gekko_fs.Base.{
  ℕ, suc, ◌+◌, ◌/◌, ◌≤◌, ◌<◌, ◌≡◌, refl, sym, ap, ap₂, ◌∙◌, Bool, true, false, arith, eqb, lt→ltb,
  le→ltb_false, List, [], ◌∷◌, ◌++◌, length, take, drop, Option, some, All, take-length-append,
  drop-length-append,
}
use gekko_fs.Base.Eq.{Bytes}
use gekko_fs.Common.Metadata.{c_string, Config}
use gekko_fs.Daemon.Store.{RocksDb}
use gekko_fs.Daemon.Store.Backend.{Store, get_dirents}
use gekko_fs.Daemon.Handlers.Dirents.{
  flag, flags, names, tot_names_size, out_size, reply_dirents, rpc_srv_get_dirents,
}
use gekko_fs.Client.Directory.{
  FileType, regular, directory, Entries, file_type_of, add_entry, read_entries, unpack,
  DirentsOutcome, replied, append_entries, gather_dirents, all_sent, outcomes, dirents_buff_size,
  forward_get_dirents,
}

-- A name as a C string.
abbrev pub IsText : Bytes → Type 0
IsText = All (λ c. eqb c 0 ≡ false)

abbrev pub HasTextNames : List (Bytes × Bool) → Type 0
HasTextNames = All (λ e. IsText e.0)

abbrev pub type_of : Bool → FileType
type_of true = directory
type_of false = regular

abbrev pub typed : List (Bytes × Bool) → Entries
typed [] = []
typed ((name, dir) ∷ es) = (name, type_of dir) ∷ typed es

c_string-ends : (name rest : Bytes) → IsText name → c_string (name ++ 0 ∷ rest) ≡ name
unfolding c_string
c_string-ends [] rest h = refl
c_string-ends (c ∷ cs) rest (h, k) = rw h (ap (λ (s : Bytes). c ∷ s) (c_string-ends cs rest k))

drop-name : (name rest : Bytes) → drop (suc (length name)) (name ++ 0 ∷ rest) ≡ rest
drop-name [] rest = refl
drop-name (c ∷ cs) rest = drop-name cs rest

file_type_of-flag : (b : Bool) → file_type_of (flag b) ≡ type_of b
file_type_of-flag true = refl
file_type_of-flag false = refl

length-flags : (es : List (Bytes × Bool)) → length (flags es) ≡ length es
unfolding flags
length-flags [] = refl
length-flags ((name, dir) ∷ es) = ap suc (length-flags es)

-- Every name starts inside the buffer.
read_entries-names :
    (size : ℕ) (es : List (Bytes × Bool)) (offset : ℕ)
    → HasTextNames es
    → 0 < offset
    → offset + tot_names_size es + length es ≤ size
    → read_entries size (flags es) (names es) offset ≡ some (typed es)
unfolding read_entries flags names tot_names_size
read_entries-names size [] offset h pos fits = refl
read_entries-names size ((name, dir) ∷ es) offset (text, more) pos fits =
    rw
      (
        lt→ltb 0 offset pos,
        lt→ltb offset size (omega (arith, fits)),
        c_string-ends name (names es) text,
        drop-name name (names es),
      )
      (ap₂ (λ (t : FileType) (r : Option Entries). add_entry (name, t) r) (file_type_of-flag dir)
        (read_entries-names size es (offset + length name + 1) more (omega arith)
          (omega (arith, fits))))

unpack-flags :
    (size : ℕ) (e : Bytes × Bool) (es : List (Bytes × Bool))
    → HasTextNames (e ∷ es)
    → out_size (e ∷ es) ≤ size
    → unpack size (length (e ∷ es)) (flags (e ∷ es) ++ names (e ∷ es)) ≡ some (typed (e ∷ es))
unfolding unpack
unpack-flags size e es text fits =
    let fs : Bytes = flags (e ∷ es) in
    let ns : Bytes = names (e ∷ es) in
    ap (λ (n : ℕ). read_entries size (take n (fs ++ ns)) (drop n (fs ++ ns)) n)
      (sym (length-flags (e ∷ es)))
    ∙ ap₂ (λ (a b : Bytes). read_entries size a b (length fs)) (take-length-append fs ns)
        (drop-length-append fs ns)
    ∙ ap (read_entries size fs ns) (length-flags (e ∷ es))
    ∙ read_entries-names size (e ∷ es) (length (e ∷ es)) text (omega arith) (omega (arith, fits))

-- One host whose entries fit the buffer adds them, with no error.
gather-listed :
    (size : ℕ) (es : List (Bytes × Bool)) (rest : List DirentsOutcome)
    → HasTextNames es
    → out_size es ≤ size
    → gather_dirents size (replied (reply_dirents true size (some es)) ∷ rest) 0
      ≡ append_entries (some (typed es)) (gather_dirents size rest 0)
unfolding gather_dirents reply_dirents unpack read_entries
gather-listed size [] rest text fits = refl
gather-listed size (e ∷ es) rest text fits = rw (le→ltb_false size (out_size (e ∷ es)) fits) (
    ap (λ (o : Option Entries). append_entries o (gather_dirents size rest 0))
      (unpack-flags size e es text fits))

module _ {c : Config} (rdb : RocksDb c) (path : Bytes)
    (lists : Store rdb → List (Bytes × Bool)) where
  -- A daemon lists entries whose names are text and that fit into a buffer.
  abbrev pub Lists : ℕ → Store rdb → Type 0
  Lists size s =
      (get_dirents rdb path s ≡ some (lists s))
      × HasTextNames (lists s)
      × (out_size (lists s) ≤ size)

  abbrev pub all_entries : List (Store rdb) → Entries
  all_entries [] = []
  all_entries (s ∷ ss) = typed (lists s) ++ all_entries ss

  abbrev pub ask : ℕ → Store rdb → DirentsOutcome
  ask size s = replied (rpc_srv_get_dirents rdb true size path s)

  all_sent-ask : (size : ℕ) (hosts : List (Store rdb)) → all_sent (outcomes ask size hosts) ≡ true
  unfolding all_sent
  all_sent-ask size [] = refl
  all_sent-ask size (s ∷ ss) = all_sent-ask size ss

  gather-ask :
      (size : ℕ) (hosts : List (Store rdb))
      → All (Lists size) hosts
      → gather_dirents size (outcomes ask size hosts) 0 ≡ some (0, all_entries hosts)
  unfolding rpc_srv_get_dirents
  gather-ask size [] h = unfold gather_dirents in refl
  gather-ask size (s ∷ ss) ((e, text, fits), more) =
      ap
        (λ (o : Option (List (Bytes × Bool))).
          gather_dirents size (replied (reply_dirents true size o) ∷ outcomes ask size ss) 0)
        e
      ∙ gather-listed size (lists s) (outcomes ask size ss) text fits
      ∙ ap (append_entries (some (typed (lists s)))) (gather-ask size ss more)

  -- A client that asks all daemons for a directory gets, with no error, the entries that each of
  -- them lists, one daemon behind the other, each with its kind, if every transfer succeeds, no
  -- name holds a null character, and the entries of each daemon fit its part of the buffer.
  pub forward_get_dirents-entries :
      (hosts : List (Store rdb))
      → All (Lists (dirents_buff_size / length hosts)) hosts
      → forward_get_dirents ask hosts ≡ some (0, all_entries hosts)
  unfolding forward_get_dirents
  forward_get_dirents-entries hosts h =
      rw (all_sent-ask (dirents_buff_size / length hosts) hosts)
        (gather-ask (dirents_buff_size / length hosts) hosts h)
