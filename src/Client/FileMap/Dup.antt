-- ===== src/Client/FileMap/Dup.antt =====
-- The operations of the table as changes of one function, from descriptors to open files.
use gekko_fs.Base.{
  ℕ, ◌-◌, ◌<◌, ◌≡◌, refl, ◌≢◌, inl, inr, ◌∙◌, true, false, none, some, [], ◌∷◌, arith, eqb,
  if◌then◌else◌, length, Bool-cases, ap,
}
use gekko_fs.Base.Eq.{◌==◌, nat_eq}
use gekko_fs.Base.Dict.{Dict, lookup, erase, lookup-erase, lookup-insert_fresh}
use gekko_fs.Client.FileMap.{
  FileMap, int_max, restart_fd, exist, get, add, remove, dup, dup2, then_put, put, is_empty, place,
  closed,
}
use gekko_fs.Client.FileMap.Fresh.{IsFresh}
use gekko_fs.Client.FileMap.Search.{safe_generate_fd_idx_total}

module _ {F : Type 0} where
  -- `m'` is `m` with `f` at the new descriptor `fd`, which was closed before.
  pub record IsAdded (m m' : FileMap F) (fd : ℕ) (f : F) : Type 0 where
    pub unused : get m fd ≡ none
    pub view : (j : ℕ) → get m' j ≡ (if fd == j then some f else get m j)
    pub fresh : IsFresh m'

  put-IsAdded :
      (m m' : FileMap F) (fd : ℕ) (f : F)
      → lookup fd m.files ≡ none
      → m'.files ≡ m.files
      → IsFresh m'
      → (m'.fd_validation_needed ≡ false → fd < m'.fd_idx)
      → IsAdded m (put f (m', fd)).0 fd f
  unfolding get
  put-IsAdded m m' fd f unused same v low = record {
    unused = unused;
    view = λ j. rw same (lookup-insert_fresh fd j f m.files unused);
    fresh = record {
      in_range = v.in_range;
      started = v.started;
      below = λ u j g h.
          ground
            (arith, lookup-insert_fresh fd j f m'.files (rw same unused), low u, v.below u j g);
    };
  }

  -- A new file gets a descriptor that was closed, no other descriptor changes, and the table stays
  -- well formed, if it was so and has fewer than 2147383646 open files; the search for a descriptor
  -- ends.
  pub add-IsAdded :
      (m : FileMap F) (f : F)
      → IsFresh m
      → length m.files < int_max - restart_fd - 1
      → (m' : FileMap F) × (fd : ℕ) × (add m f ≡ some (m', fd)) × IsAdded m m' fd f
  unfolding add
  add-IsAdded m f v room =
      let (m', fd, found, unused, same, v', low) = safe_generate_fd_idx_total m v room in
      ((put f (m', fd)).0, fd, ap (then_put f) found, put-IsAdded m m' fd f unused same v' low)

  -- dup of an open descriptor gives a descriptor that was closed the same open file, changes no
  -- other descriptor, and keeps the table well formed, if it was so and has fewer than 2147383646
  -- open files.
  pub dup-IsAdded :
      (m : FileMap F) (oldfd : ℕ) (f : F)
      → IsFresh m
      → length m.files < int_max - restart_fd - 1
      → get m oldfd ≡ some f
      → (m' : FileMap F) × (fd : ℕ) × (dup m oldfd ≡ some (m', fd)) × IsAdded m m' fd f
  unfolding dup
  dup-IsAdded m oldfd f v room old =
      let (m', fd, found, unused, same, v', low) = safe_generate_fd_idx_total m v room in
      (
        (put f (m', fd)).0,
        fd,
        rw (old, dup) (ap (then_put f) found),
        put-IsAdded m m' fd f unused same v' low,
      )

  lookup-empty : (d : Dict ℕ F) (j : ℕ) → is_empty d ≡ true → lookup j d ≡ none
  unfolding lookup
  lookup-empty [] j h = refl
  lookup-empty (x ∷ d) j h = cc

  fd_idx-remove : (m : FileMap F) (fd : ℕ) → (remove m fd).0.fd_idx ≡ m.fd_idx
  unfolding remove
  fd_idx-remove m fd = ground arith

  closed_view :
      (m : FileMap F) (fd j : ℕ)
      → exist m fd ≡ false
      → get m j ≡ (if fd == j then none else get m j)
  unfolding exist get
  closed_view m fd j h = ground arith

  -- Closing a descriptor of a well-formed table changes no other descriptor, the result tells
  -- whether it was open, and the table stays well formed.
  pub remove_lem :
      (m : FileMap F) (fd : ℕ)
      → IsFresh m
      → ((j : ℕ) → get (remove m fd).0 j ≡ (if fd == j then none else get m j))
        × ((remove m fd).1 ≡ exist m fd)
        × IsFresh (remove m fd).0
  unfolding remove get exist
  remove_lem m fd v = (
    λ j. ground (arith, lookup-erase fd j m.files),
    ground arith,
    record {
      in_range = ground (arith, v.in_range);
      started = ground (arith, v.started);
      below = λ u j g h. ground (
        arith,
        lookup-erase fd j m.files,
        lookup-empty (erase fd m.files) j,
        λ (w : m.fd_validation_needed ≡ false). v.below w j g,
      );
    },
  )

  -- The descriptor is closed, and the rest of the table is as it was.
  closed_lem :
      (m : FileMap F) (fd : ℕ)
      → IsFresh m
      → ((j : ℕ) → get (closed m fd) j ≡ (if fd == j then none else get m j))
        × IsFresh (closed m fd)
        × ((closed m fd).fd_idx ≡ m.fd_idx)
  closed_lem m fd v = elim (Bool-cases (exist m fd)) [
    | inl used ↦ rw used ((remove_lem m fd v).0, (remove_lem m fd v).2, fd_idx-remove m fd)
    | inr free ↦ rw free (λ j. closed_view m fd j free, v, refl)
  ]

  place_lem :
      (c : FileMap F) (newfd : ℕ) (f : F)
      → IsFresh c
      → get c newfd ≡ none
      → newfd ≢ c.fd_idx
      → ((j : ℕ) → get (place c newfd f) j ≡ (if newfd == j then some f else get c j))
        × IsFresh (place c newfd f)
  unfolding get
  place_lem c newfd f v unused other = (
    λ j. lookup-insert_fresh newfd j f c.files unused,
    record {
      in_range = v.in_range;
      started = v.started;
      below = λ u j g h. ground (
        arith,
        other,
        v.started,
        lookup-insert_fresh newfd j f c.files unused,
        λ (w : c.fd_validation_needed ≡ false). v.below w j g,
      );
    },
  )

  -- dup2 makes the new descriptor share the open file of an open descriptor and changes no other
  -- one, and the table stays well formed, if the new descriptor is not the next one to be handed
  -- out.
  pub dup2_lem :
      (m : FileMap F) (oldfd newfd : ℕ) (f : F)
      → IsFresh m
      → get m oldfd ≡ some f
      → newfd ≢ m.fd_idx
      → (m' : FileMap F) × (dup2 m oldfd newfd ≡ some (m', newfd))
        × ((j : ℕ) → get m' j ≡ (if newfd == j then some f else get m j))
        × IsFresh m'
  unfolding dup2
  dup2_lem m oldfd newfd f v old other =
      let (c_view, c_fresh, c_idx) = closed_lem m newfd v in
      let (p_view, p_fresh) =
        place_lem (closed m newfd) newfd f c_fresh (ground (arith, c_view newfd))
          (λ e. other (e ∙ c_idx)) in
      elim (Bool-cases (eqb oldfd newfd)) [
        | inl same ↦ (m, rw (old, dup2, same), λ j. ground (arith, old), v)
        | inr differ ↦ (
          place (closed m newfd) newfd f,
          rw (old, dup2, differ),
          λ j. ground (arith, p_view j, c_view j),
          p_fresh,
        )
      ]
