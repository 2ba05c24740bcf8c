-- ===== src/Client/FileMap/Fresh.antt =====
-- Descriptors that are handed out are not in use.
use gekko_fs.Base.{
  ℕ, ◌+◌, ◌≤◌, ◌<◌, ◌≡◌, ◌≢◌, ◌⊎◌, inl, inr, true, false, none, some, arith, eqb, Option-cases,
  Bool-cases,
}
use gekko_fs.Base.Eq.{nat_eq}
use gekko_fs.Base.Dict.{lookup}
use gekko_fs.Client.FileMap.{FileMap, int_max, first_fd, restart_fd, init, generate_fd_idx}

module _ {F : Type 0} where
  -- While no validation is asked for, every open descriptor lies below the index.
  pub record IsFresh (m : FileMap F) : Type 0 where
    pub in_range : m.fd_idx ≤ int_max
    pub started : first_fd ≤ m.fd_idx
    pub below :
        m.fd_validation_needed ≡ false
        → (fd : ℕ) (f : F) → lookup fd m.files ≡ some f
        → fd < m.fd_idx

  pub init-IsFresh : IsFresh (init {F = F})
  unfolding init lookup
  init-IsFresh = record { in_range = omega arith; started = omega arith; below = λ v fd f h. cc }

  -- The index counts on, or starts again and asks for validation.
  pub generate_fd_idx_cases :
      (m : FileMap F)
      → ((m.fd_idx ≡ int_max)
          × (generate_fd_idx m
              ≡ (record m { fd_idx = restart_fd + 1; fd_validation_needed = true }, restart_fd)))
        ⊎ ((m.fd_idx ≢ int_max)
            × (generate_fd_idx m ≡ (record m { fd_idx = m.fd_idx + 1 }, m.fd_idx)))
  unfolding generate_fd_idx
  generate_fd_idx_cases m = elim (Bool-cases (eqb m.fd_idx int_max)) [
    | inl full ↦ inl (ground arith, rw full)
    | inr more ↦ inr (ground arith, rw more)
  ]

  pub generate_fd_idx-IsFresh : (m : FileMap F) → IsFresh m → IsFresh (generate_fd_idx m).0
  generate_fd_idx-IsFresh m v = elim (generate_fd_idx_cases m) [
    | inl (full, e) ↦
        rw e (record { in_range = omega arith; started = omega arith; below = λ u fd f h. cc })
    | inr (more, e) ↦ rw e (record {
      in_range = omega (arith, v.in_range);
      started = omega (arith, v.started);
      below = λ u fd f h. omega (arith, v.below u fd f h);
    })
  ]

  pub files-generate_fd_idx : (m : FileMap F) → (generate_fd_idx m).0.files ≡ m.files
  files-generate_fd_idx m = elim (generate_fd_idx_cases m) [
    | inl (full, e) ↦ rw e
    | inr (more, e) ↦ rw e
  ]

  -- An index at or above every open descriptor is not in use.
  pub unused_at :
      (m : FileMap F) (fd : ℕ)
      → ((f : F) → lookup fd m.files ≡ some f → fd < m.fd_idx)
      → m.fd_idx ≤ fd
      → lookup fd m.files ≡ none
  unused_at m fd h above = elim (Option-cases (lookup fd m.files)) [
    | inl e ↦ e
    | inr (f, e) ↦ absurd (omega (arith, h f e))
  ]

  -- An index that needs no validation is not in use.
  pub generate_fd_idx_unused :
      (m : FileMap F)
      → IsFresh m
      → (generate_fd_idx m).0.fd_validation_needed ≡ false
      → lookup (generate_fd_idx m).1 m.files ≡ none
  generate_fd_idx_unused m v u = elim (generate_fd_idx_cases m) [
    | inl (full, e) ↦ let asked : true ≡ false = rw e at u in cc
    | inr (more, e) ↦
        rw e (unused_at m m.fd_idx (λ f h. v.below (rw e at u) m.fd_idx f h) (omega arith))
  ]

  pub generate_fd_idx_asked :
      (m : FileMap F)
      → m.fd_validation_needed ≡ true
      → (generate_fd_idx m).0.fd_validation_needed ≡ true
  generate_fd_idx_asked m h = elim (generate_fd_idx_cases m) [
    | inl (full, e) ↦ rw e
    | inr (more, e) ↦ rw e h
  ]
