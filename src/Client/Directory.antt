-- ===== src/Client/Directory.antt =====
-- forward_get_dirents of src/client/rpc/forward_metadata.cpp: the entries of a directory from all
-- daemons, with OpenDir of src/client/open_dir.cpp as a list of entries. A failed assertion is
-- `none`. Exposing the buffers is taken to succeed.
pub mod Entries
use gekko_fs.Base.{
  ℕ, zero, suc, ◌+◌, ◌/◌, Bool, true, false, ◌&&◌, eqb, ltb, if◌then◌else◌, List, [], ◌∷◌, ◌++◌,
  length, take, drop, Option, none, some,
}
use gekko_fs.Base.Eq.{Bytes}
use gekko_fs.Common.Metadata.{c_string}
use gekko_fs.Data.Write.{ebusy}
use gekko_fs.Daemon.Handlers.Dirents.{DirentsOut}

pub data FileType : Type 0 where
  regular directory : FileType

abbrev pub Entries : Type 0
Entries = List (Bytes × FileType)

-- gkfs::config::rpc::dirents_buff_size
abbrev pub dirents_buff_size : ℕ
dirents_buff_size = 8388608

abbrev pub file_type_of : ℕ → FileType
file_type_of zero = regular
file_type_of (suc b) = directory

abbrev pub add_entry : Bytes × FileType → Option Entries → Option Entries
add_entry e none = none
add_entry e (some es) = some (e ∷ es)

-- The loop over the flags, with the names behind them and the distance from the buffer's start.
unfoldable pub read_entries : ℕ → Bytes → Bytes → ℕ → Option Entries
read_entries per_host_buff_size [] names offset = some []
read_entries per_host_buff_size (b ∷ flags) names offset =
    let name = c_string names in
    let rest =
      read_entries per_host_buff_size flags (drop (suc (length name)) names)
        (offset + length name + 1) in
    if ltb 0 offset && ltb offset per_host_buff_size
    then add_entry (name, file_type_of b) rest
    else none

unfoldable pub unpack : ℕ → ℕ → Bytes → Option Entries
unpack per_host_buff_size dirents_size buffer =
    read_entries per_host_buff_size (take dirents_size buffer) (drop dirents_size buffer)
      dirents_size

-- What comes of the request to one host.
pub data DirentsOutcome : Type 0 where
  not_sent lost : DirentsOutcome
  replied : DirentsOut → DirentsOutcome

abbrev pub append_entries : Option Entries → Option (ℕ × Entries) → Option (ℕ × Entries)
append_entries none r = none
append_entries (some more) none = none
append_entries (some more) (some (err, es)) = some (err, more ++ es)

-- The second loop, when all requests were sent: the last error, and the entries of all hosts.
unfoldable pub gather_dirents : ℕ → List DirentsOutcome → ℕ → Option (ℕ × Entries)
gather_dirents size [] err = some (err, [])
gather_dirents size (not_sent ∷ rest) err = gather_dirents size rest err
gather_dirents size (lost ∷ rest) err = gather_dirents size rest ebusy
gather_dirents size (replied out ∷ rest) err =
    let more = gather_dirents size rest (if eqb out.code 0 then err else out.code) in
    if eqb out.code 0 then append_entries (unpack size out.dirents_size out.buffer) more else more

unfoldable pub all_sent : List DirentsOutcome → Bool
all_sent [] = true
all_sent (not_sent ∷ rest) = false
all_sent (_ ∷ rest) = all_sent rest

-- `send` makes of the size of a host's buffer and of a host what comes of its request. After a
-- request that cannot be sent no other is, and no reply is looked at.
module _ {H : Type 0} (send : ℕ → H → DirentsOutcome) where
  abbrev pub outcomes : ℕ → List H → List DirentsOutcome
  outcomes size [] = []
  outcomes size (h ∷ hs) = send size h ∷ outcomes size hs

  unfoldable pub forward_get_dirents : List H → Option (ℕ × Entries)
  forward_get_dirents targets =
      let size = dirents_buff_size / length targets in
      let sent = outcomes size targets in
      if all_sent sent then gather_dirents size sent 0 else some (ebusy, [])
