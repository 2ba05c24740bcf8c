-- ===== src/Client/Files/Writes.antt =====
-- gkfs_write of src/client/gkfs_functions.cpp, when the daemons accept what is written.
use gekko_fs.Base.{
  ℕ, ◌<◌, ◌≡◌, refl, sym, ap, subst, arith, Bool, true, false, not, ◌&&◌, ltb, if◌then◌else◌,
  length, Option, some, none, inl, inr, Bool-cases,
}
use gekko_fs.Base.Eq.{Bytes, bytes_eq}
use gekko_fs.Base.Integers.{ℤ, pos, to_signed, to_unsigned}
use gekko_fs.Base.Words.{add64}
use gekko_fs.Client.FileMap.{get}
use gekko_fs.Client.Directory.{FileType, regular}
use gekko_fs.Client.Cache.{record_size, flush}
use gekko_fs.Client.Files.{
  OpenFile, Remote, ClientSettings, Client, set_pos, add_off, to_int, update_file_size, with_remote,
  flushed, flush_size, cache_size, reserved, write_metadata, first_write, write_bytes, finish_write,
  write_data, write_as, gkfs_do_write, gkfs_write,
}

-- Daemons that accept every request: an update of a size answers no error, one for an append the
-- end of the file, and a write of some bytes the number of its bytes; forward_write asserts that there
-- are some.
pub record Accepts (r : Remote) : Type 0 where
  pub end_of_file : Bytes → r.State → ℕ
  pub size_updated :
      (path : Bytes) (count : ℕ) (offset : ℤ) (replicas : ℕ) (s : r.State)
      → (r.forward_update_metadentry_size path count offset false replicas s).1.0 ≡ 0
  pub size_updated_proxy :
      (path : Bytes) (count : ℕ) (offset : ℤ) (s : r.State)
      → (r.forward_update_metadentry_size_proxy path count offset false s).1.0 ≡ 0
  pub reserves :
      (path : Bytes) (count : ℕ) (offset : ℤ) (replicas : ℕ) (s : r.State)
      → (r.forward_update_metadentry_size path count offset true replicas s).1
        ≡ (0, pos (end_of_file path s))
  pub reserves_proxy :
      (path : Bytes) (count : ℕ) (offset : ℤ) (s : r.State)
      → (r.forward_update_metadentry_size_proxy path count offset true s).1
        ≡ (0, pos (end_of_file path s))
  pub writes :
      (path buf : Bytes) (offset : ℤ) (replicas : ℕ) (s : r.State)
      → 0 < length buf
      → (r.forward_write path buf offset replicas s).1 ≡ (0, pos (length buf))
  pub writes_proxy :
      (path buf : Bytes) (offset : ℤ) (s : r.State)
      → 0 < length buf
      → (r.forward_write_proxy path buf offset s).1 ≡ (0, pos (length buf))

module _ (r : Remote) (g : ClientSettings) (ok : Accepts r) where
  open r use {State}

  -- What an operation leaves as it was.
  pub record IsKept (c c' : Client State) : Type 0 where
    pub files : c'.files ≡ c.files
    pub file_map : c'.file_map ≡ c.file_map
    pub errno : c'.errno ≡ c.errno

  -- Where the data go.
  abbrev pub start_of : OpenFile → ℤ → Client State → ℤ
  start_of file offset c = if file.append then pos (ok.end_of_file file.path c.remote) else offset

  update_file_size-no :
      (path : Bytes) (count : ℕ) (offset : ℤ) (s : State)
      → (update_file_size r g path count offset false s).1.0 ≡ 0
  unfolding update_file_size
  update_file_size-no path count offset s = ground (
    arith,
    ok.size_updated path count offset g.replicas s,
    ok.size_updated_proxy path count offset s,
  )

  update_file_size-reserves :
      (path : Bytes) (count : ℕ) (offset : ℤ) (s : State)
      → (update_file_size r g path count offset true s).1 ≡ (0, pos (ok.end_of_file path s))
  unfolding update_file_size
  update_file_size-reserves path count offset s =
      elim (Bool-cases (g.fwd_update_size && g.use_proxy)) [
        | inl e ↦ rw e (ok.reserves_proxy path count offset s)
        | inr e ↦ rw e (ok.reserves path count offset g.replicas s)
      ]

  write_bytes-all :
      (path buf : Bytes) (offset : ℤ) (s : State)
      → 0 < length buf
      → (write_bytes r g path buf offset s).1 ≡ (0, pos (length buf))
  unfolding write_bytes
  write_bytes-all path buf offset s some_bytes = ground (
    arith,
    ok.writes path buf offset 0 s some_bytes,
    ok.writes_proxy path buf offset s some_bytes,
    ok.writes path buf offset g.replicas (first_write r g path buf offset s).0 some_bytes,
  )

  flushed-answer :
      (path : Bytes) (c : Client State) (size : Option ℕ)
      → ((flushed r g path c size).1.0 ≡ 0) × IsKept c (flushed r g path c size).0
  flushed-answer path c none = (refl, record { files = refl; file_map = refl; errno = refl })
  flushed-answer path c (some size) = (
    update_file_size-no path size (pos 0) c.remote,
    record { files = refl; file_map = refl; errno = refl },
  )

  cache_size-answer :
      (path : Bytes) (count : ℕ) (offset : ℤ) (c : Client State)
      → ((cache_size r g path count offset c).1 ≡ (0, offset))
        × IsKept c (cache_size r g path count offset c).0
  unfolding cache_size flush_size
  cache_size-answer path count offset c =
      let recorded = record_size path (add64 (to_unsigned offset) count) c.write_size_cache in
      let (sent, kept) =
        flushed-answer path (record c { write_size_cache = (flush path false recorded.0).0 })
          (flush path false recorded.0).1 in
      elim (Bool-cases (ltb g.flush_threshold recorded.1.0)) [
        | inl e ↦ rw e (
          ap (λ (err : ℕ). (err, offset)) sent,
          record { files = kept.files; file_map = kept.file_map; errno = kept.errno },
        )
        | inr e ↦ rw e (refl, record { files = refl; file_map = refl; errno = refl })
      ]

  reserved-no :
      (offset : ℤ) (c : Client State) (a : ℕ × ℤ)
      → a.0 ≡ 0
      → reserved r g false offset (c, a) ≡ (c, (0, offset))
  reserved-no offset c (err, n) e = ground arith

  reserved-yes :
      (offset : ℤ) (c : Client State) (a : ℕ × ℤ) (n : ℕ)
      → a ≡ (0, pos n)
      → reserved r g true offset (c, a) ≡ (c, (0, pos n))
  reserved-yes offset c a n e = rw e refl

  -- The answer of the part before the data.
  abbrev Answers : Client State → ℤ → Client State × (ℕ × ℤ) → Type 0
  Answers c start a = (a.1 ≡ (0, start)) × IsKept c a.0

  reserved-answer :
      (append : Bool) (path : Bytes) (count : ℕ) (offset : ℤ) (c : Client State)
      → Answers c (if append then pos (ok.end_of_file path c.remote) else offset) (
          reserved r g append offset
            (with_remote r g c (update_file_size r g path count offset append c.remote)))
  reserved-answer true path count offset c =
      let a : State × (ℕ × ℤ) = update_file_size r g path count offset true c.remote in
      let n : ℕ = ok.end_of_file path c.remote in
      subst (Answers c (pos n))
        (sym (
          reserved-yes offset (record c { remote = a.0 }) a.1 n
            (update_file_size-reserves path count offset c.remote)))
        (refl, record { files = refl; file_map = refl; errno = refl })
  reserved-answer false path count offset c =
      let a : State × (ℕ × ℤ) = update_file_size r g path count offset false c.remote in
      subst (Answers c offset)
        (sym (
          reserved-no offset (record c { remote = a.0 }) a.1
            (update_file_size-no path count offset c.remote)))
        (refl, record { files = refl; file_map = refl; errno = refl })

  either-answer :
      (cached append : Bool) (eof offset : ℤ) (c : Client State) (a b : Client State × (ℕ × ℤ))
      → Answers c offset a
      → Answers c (if append then eof else offset) b
      → Answers c (if append then eof else offset) (if cached && not append then a else b)
  either-answer true true eof offset c a b x y = y
  either-answer true false eof offset c a b x y = x
  either-answer false append eof offset c a b x y = y

  write_metadata-answer :
      (file : OpenFile) (count : ℕ) (offset : ℤ) (c : Client State)
      → Answers c (start_of file offset c) (write_metadata r g file count offset c)
  unfolding write_metadata
  write_metadata-answer file count offset c =
      either-answer g.use_write_size_cache file.append _ offset c _ _
        (cache_size-answer file.path count offset c)
        (reserved-answer file.append file.path count offset c)

  -- The open files after a write of `size` bytes from `start` on.
  abbrev pub after_write : ℕ → ℤ → ℕ → Bool → Client State → ℕ → OpenFile
  after_write ptr start size update_pos c =
      if update_pos
      then (set_pos r g ptr (to_unsigned (add_off start (to_int (pos size)))) c).files
      else c.files

  abbrev pub IsRegular : ℕ → Client State → Type 0
  IsRegular ptr c = (c.files ptr).file_type ≡ regular

  -- A write of `size` bytes from `start` on returns its size as an int, and changes no more than the
  -- position of its file.
  abbrev pub Wrote : ℕ → ℤ → ℕ → Bool → Client State → Client State × ℤ → Type 0
  Wrote ptr start size update_pos c out =
      (out.1 ≡ to_int (pos size))
      × (out.0.files ≡ after_write ptr start size update_pos c)
      × (out.0.file_map ≡ c.file_map)
      × (out.0.errno ≡ c.errno)

  finish_write-Wrote :
      (ptr : ℕ) (start : ℤ) (size : ℕ) (update_pos : Bool) (c c' : Client State)
      → IsKept c c'
      → Wrote ptr start size update_pos c
          (finish_write r g ptr start update_pos (c', (0, pos size)))
  finish_write-Wrote ptr start size true c c' k = (refl, rw k.files refl, k.file_map, k.errno)
  finish_write-Wrote ptr start size false c c' k = (refl, k.files, k.file_map, k.errno)

  write_data-Wrote :
      (ptr : ℕ) (path buf : Bytes) (start : ℤ) (update_pos : Bool) (c : Client State)
      (a : Client State × (ℕ × ℤ))
      → 0 < length buf
      → Answers c start a
      → Wrote ptr start (length buf) update_pos c (write_data r g ptr path buf update_pos a)
  write_data-Wrote ptr path buf start update_pos c a some_bytes (e, k) =
      let b : State × (ℕ × ℤ) = write_bytes r g path buf start a.0.remote in
      subst
        (λ (x : ℕ × ℤ).
          Wrote ptr start (length buf) update_pos c
            (write_data r g ptr path buf update_pos (a.0, x)))
        (sym e)
        (subst
          (λ (x : ℕ × ℤ).
            Wrote ptr start (length buf) update_pos c
              (finish_write r g ptr start update_pos (record a.0 { remote = b.0 }, x)))
          (sym (write_bytes-all path buf start a.0.remote some_bytes))
          (finish_write-Wrote ptr start (length buf) update_pos c (record a.0 { remote = b.0 })
            (record { files = k.files; file_map = k.file_map; errno = k.errno })))

  pub gkfs_do_write-Wrote :
      (ptr : ℕ) (buf : Bytes) (offset : ℤ) (update_pos : Bool) (c : Client State)
      → 0 < length buf
      → IsRegular ptr c
      → Wrote ptr
          (start_of (c.files ptr) offset c)
          (length buf)
          update_pos
          c
          (gkfs_do_write r g ptr buf offset update_pos c)
  unfolding gkfs_do_write
  gkfs_do_write-Wrote ptr buf offset update_pos c some_bytes reg =
      subst
        (λ (t : FileType).
          Wrote ptr (start_of (c.files ptr) offset c) (length buf) update_pos c
            (write_as r g t ptr buf offset update_pos c))
        (sym reg)
        (write_data-Wrote ptr (c.files ptr).path buf _ update_pos c _ some_bytes
          (write_metadata-answer (c.files ptr) (length buf) offset c))

  -- A write through a descriptor starts at the position of its file.
  pub gkfs_write-Wrote :
      (fd ptr : ℕ) (buf : Bytes) (c : Client State)
      → 0 < length buf
      → get c.file_map fd ≡ some ptr
      → IsRegular ptr c
      → Wrote ptr
          (start_of (c.files ptr) (to_signed (c.files ptr).position) c)
          (length buf)
          true
          c
          (gkfs_write r g fd buf c)
  unfolding gkfs_write
  gkfs_write-Wrote fd ptr buf c some_bytes at reg =
      rw at (gkfs_do_write-Wrote ptr buf (to_signed (c.files ptr).position) true c some_bytes reg)
