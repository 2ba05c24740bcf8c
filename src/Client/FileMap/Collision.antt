-- ===== src/Client/FileMap/Collision.antt =====
-- dup2 of src/client/open_file_map.cpp onto the descriptor that is handed out next.
use gekko_fs.Base.{ℕ, ◌+◌, ◌≡◌, ◌≢◌, false, none, some, arith}
use gekko_fs.Base.Eq.{nat_eq}
use gekko_fs.Base.Dict.{Dict, lookup, lookup-insert_fresh, insert}
use gekko_fs.Client.FileMap.{
  FileMap, int_max, exist, get, safe_generate_fd_idx, add, dup2, generate_fd_idx, place,
}
use gekko_fs.Client.FileMap.Fresh.{IsFresh, unused_at}

module _ {F : Type 0} where
  insert_again :
      (k : ℕ) (f g : F) (d : Dict ℕ F)
      → lookup k d ≡ none
      → insert k g (insert k f d) ≡ insert k f d
  unfolding insert lookup
  insert_again k f g d unused = ground arith

  abbrev after_both : FileMap F → F → FileMap F
  after_both m f = record m { files = insert m.fd_idx f m.files; fd_idx = m.fd_idx + 1 }

  old_ne_next :
      (m : FileMap F) (oldfd : ℕ) (f : F)
      → IsFresh m
      → m.fd_validation_needed ≡ false
      → get m oldfd ≡ some f
      → oldfd ≢ m.fd_idx
  unfolding get
  old_ne_next m oldfd f v u old e = omega (arith, v.below u oldfd f old)

  dup2_closed :
      (m : FileMap F) (oldfd newfd : ℕ) (f : F)
      → get m oldfd ≡ some f
      → lookup newfd m.files ≡ none
      → oldfd ≢ newfd
      → dup2 m oldfd newfd ≡ some (place m newfd f, newfd)
  unfolding dup2 exist
  dup2_closed m oldfd newfd f old unused differ = ground arith

  get-insert :
      (m : FileMap F) (f : F)
      → lookup m.fd_idx m.files ≡ none
      → get (after_both m f) m.fd_idx ≡ some f
  unfolding get
  get-insert m f unused = ground (arith, lookup-insert_fresh m.fd_idx m.fd_idx f m.files unused)

  add_next :
      (m : FileMap F) (f g : F)
      → m.fd_validation_needed ≡ false
      → m.fd_idx ≢ int_max
      → lookup m.fd_idx m.files ≡ none
      → add (place m m.fd_idx f) g ≡ some (after_both m f, m.fd_idx)
  unfolding add safe_generate_fd_idx generate_fd_idx
  add_next m f g u small unused = ground (
    arith,
    lookup-insert_fresh m.fd_idx m.fd_idx f m.files unused,
    insert_again m.fd_idx f g m.files unused,
  )

  -- In a well-formed table that asks for no validation and whose index is not the greatest int, if
  -- dup2 puts an open file at the descriptor that is handed out next then the next file that is
  -- opened gets the same descriptor, and the descriptor still leads to the first file.
  pub dup2_collision :
      (m : FileMap F) (oldfd : ℕ) (f g : F)
      → IsFresh m
      → m.fd_validation_needed ≡ false
      → m.fd_idx ≢ int_max
      → get m oldfd ≡ some f
      → (m' m'' : FileMap F) × (dup2 m oldfd m.fd_idx ≡ some (m', m.fd_idx))
        × (add m' g ≡ some (m'', m.fd_idx))
        × (get m'' m.fd_idx ≡ some f)
  dup2_collision m oldfd f g v u small old =
      (place m m.fd_idx f, after_both m f, dup2_placed, add_dropped, kept)
    where
      unused : lookup m.fd_idx m.files ≡ none
      unused = unused_at m m.fd_idx (λ h e. v.below u m.fd_idx h e) (omega arith)

      dup2_placed : dup2 m oldfd m.fd_idx ≡ some (place m m.fd_idx f, m.fd_idx)
      dup2_placed = dup2_closed m oldfd m.fd_idx f old unused (λ e. old_ne_next m oldfd f v u old e)

      add_dropped : add (place m m.fd_idx f) g ≡ some (after_both m f, m.fd_idx)
      add_dropped = add_next m f g u small unused

      kept : get (after_both m f) m.fd_idx ≡ some f
      kept = get-insert m f unused
