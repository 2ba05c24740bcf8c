-- ===== src/Client/FileMap/Search.antt =====
-- The search for a free descriptor ends: it meets a new descriptor in each round, and only as many
-- can be in use as there are open files.
use gekko_fs.Base.{
  ℕ, zero, suc, ◌+◌, ◌-◌, ◌≤◌, ◌<◌, ◌≡◌, refl, ◌≢◌, ◌⊎◌, inl, inr, ◌∙◌, true, false, none, some, [],
  ◌∷◌, arith, length, Bool-cases, not, ap, sym,
}
use gekko_fs.Base.Eq.{nat_eq}
use gekko_fs.Base.Dict.{Dict, lookup, erase, is_none, lookup-erase}
use gekko_fs.Client.FileMap.{
  FileMap, int_max, restart_fd, exist, generate_fd_idx, find_free, safe_generate_fd_idx,
}
use gekko_fs.Client.FileMap.Fresh.{
  IsFresh, generate_fd_idx-IsFresh, files-generate_fd_idx, generate_fd_idx_cases,
  generate_fd_idx_unused, generate_fd_idx_asked,
}

length-erase-le : {V : Type 0} (k : ℕ) (d : Dict ℕ V) → length (erase k d) ≤ length d
unfolding erase
length-erase-le k [] = omega arith
length-erase-le k ((j, v) ∷ d) = ground (arith, length-erase-le k d)

-- Erasing a key that is there makes the table shorter.
length-erase-lt :
    {V : Type 0} (k : ℕ) (d : Dict ℕ V) → lookup k d ≢ none → length (erase k d) < length d
unfolding erase lookup
length-erase-lt k [] h = absurd (h refl)
length-erase-lt k ((j, v) ∷ d) h = ground (arith, length-erase-le k d, length-erase-lt k d)

-- `j` is among the next `n` indices from `idx` on, with at most one restart.
abbrev Upcoming : ℕ → ℕ → ℕ → Type 0
Upcoming n idx j =
    ((idx ≤ j) × (j < idx + n) × (j < int_max))
    ⊎ ((restart_fd ≤ j) × (j + int_max < restart_fd + idx + n))

module _ {F : Type 0} where
  -- A search that found an unused descriptor.
  pub record IsFound (m m' : FileMap F) (fd : ℕ) : Type 0 where
    pub unused : lookup fd m'.files ≡ none
    pub same_files : m'.files ≡ m.files
    pub fresh : IsFresh m'
    pub asked : m'.fd_validation_needed ≡ true

  Upcoming-step :
      (m : FileMap F) (n fd j : ℕ)
      → m.fd_idx ≡ fd + 1
      → m.fd_idx ≤ int_max
      → suc n < int_max - restart_fd
      → (j ≡ (generate_fd_idx m).1) ⊎ Upcoming n (generate_fd_idx m).0.fd_idx j
      → Upcoming (suc n) m.fd_idx j × (j ≢ fd)
  Upcoming-step m n fd j last bound fits = elim (generate_fd_idx_cases m) [
    | inl (full, e) ↦
        rw e (λ up. (inr (restarted full up), omega (arith, restarted full up, full, last)))
    | inr (more, e) ↦ rw e (elim [
      | inl now ↦ (inl (omega arith), omega arith)
      | inr (inl later) ↦ (inl (omega arith), omega arith)
      | inr (inr wrapped) ↦ (inr (omega arith), omega arith)
    ])
  ]
    where
      restarted :
          m.fd_idx ≡ int_max
          → (j ≡ restart_fd) ⊎ Upcoming n (restart_fd + 1) j
          → (restart_fd ≤ j) × (j + int_max < restart_fd + m.fd_idx + suc n)
      restarted full up = omega arith

  used_iff : (m : FileMap F) (fd : ℕ) → exist m fd ≡ not (is_none (lookup fd m.files))
  unfolding exist
  used_iff m fd = refl

  closed_of_unused : (m : FileMap F) (fd : ℕ) → exist m fd ≡ false → lookup fd m.files ≡ none
  unfolding exist
  closed_of_unused m fd h = ground arith

  last_index : (m : FileMap F) → (generate_fd_idx m).0.fd_idx ≡ (generate_fd_idx m).1 + 1
  last_index m = elim (generate_fd_idx_cases m) [ inl (full, e) ↦ rw e | inr (more, e) ↦ rw e ]

  -- Here `fd` was the last index, and `d` holds all open descriptors that can still come up.
  find_free_total :
      (n : ℕ) (m : FileMap F) (fd : ℕ) (d : Dict ℕ F)
      → IsFresh m
      → m.fd_validation_needed ≡ true
      → m.fd_idx ≡ fd + 1
      → length d < n
      → n < int_max - restart_fd
      → ((j : ℕ) → lookup j m.files ≢ none → (j ≡ fd) ⊎ Upcoming n m.fd_idx j → lookup j d ≢ none)
      → (m' : FileMap F) × (fd' : ℕ) × (find_free n m fd ≡ some (m', fd')) × IsFound m m' fd'
  unfolding find_free
  find_free_total zero m fd d v asked last short fits ahead = absurd (omega arith)
  find_free_total (suc n) m fd d v asked last short fits ahead = elim (Bool-cases (exist m fd)) [
    | inl used ↦
        let open_here : lookup fd m.files ≢ none = λ h. ground (arith, used_iff m fd) in
        let (m', fd', found, good) =
          find_free_total n (generate_fd_idx m).0 (generate_fd_idx m).1 (erase fd d)
            (generate_fd_idx-IsFresh m v) (generate_fd_idx_asked m asked) (last_index m)
            (omega (arith, length-erase-lt fd d (ahead fd open_here (inl refl)))) (omega arith)
            (λ j open_j up.
              let (still, other) = Upcoming-step m n fd j last v.in_range fits up in
              ground (
                arith,
                lookup-erase fd j d,
                other,
                ahead j (rw files-generate_fd_idx at open_j) (inr still),
              )) in
        (
          m',
          fd',
          rw used found,
          record {
            unused = good.unused;
            same_files = good.same_files ∙ files-generate_fd_idx m;
            fresh = good.fresh;
            asked = good.asked;
          },
        )
    | inr free ↦ (
      m,
      fd,
      rw free,
      record { unused = closed_of_unused m fd free; same_files = refl; fresh = v; asked = asked },
    )
  ]

  -- Whether or not the index must be validated, a descriptor is found that is not in use.
  pub safe_generate_fd_idx_total :
      (m : FileMap F)
      → IsFresh m
      → length m.files < int_max - restart_fd - 1
      → (m' : FileMap F) × (fd : ℕ) × (safe_generate_fd_idx m ≡ some (m', fd))
        × (lookup fd m.files ≡ none)
        × (m'.files ≡ m.files)
        × IsFresh m'
        × (m'.fd_validation_needed ≡ false → fd < m'.fd_idx)
  unfolding safe_generate_fd_idx
  safe_generate_fd_idx_total m v room =
      elim (Bool-cases (generate_fd_idx m).0.fd_validation_needed) [
        | inl asked ↦
            let (m', fd, found, good) =
              find_free_total (suc (length (generate_fd_idx m).0.files)) (generate_fd_idx m).0
                (generate_fd_idx m).1 (generate_fd_idx m).0.files (generate_fd_idx-IsFresh m v)
                asked (last_index m) (omega arith)
                (omega (arith, ap length (files-generate_fd_idx m))) (λ j h up. h) in
            (
              m',
              fd,
              rw asked found,
              rw (good.same_files ∙ files-generate_fd_idx m) at good.unused,
              good.same_files ∙ files-generate_fd_idx m,
              good.fresh,
              λ u. let both : true ≡ false = sym good.asked ∙ u in cc both,
            )
        | inr trusted ↦ (
          (generate_fd_idx m).0,
          (generate_fd_idx m).1,
          rw trusted,
          generate_fd_idx_unused m v trusted,
          files-generate_fd_idx m,
          generate_fd_idx-IsFresh m v,
          λ u. omega (arith, last_index m),
        )
      ]
