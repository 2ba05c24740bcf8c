-- ===== src/Client/FileMap.antt =====
-- OpenFileMap of src/client/open_file_map.cpp: the table from file descriptors to open files.
-- `F` stands for the shared pointer that the table holds. Descriptors are non-negative. The loop
-- that looks for a free descriptor takes fuel, one more than there are open files.
pub mod Fresh
pub mod Search
pub mod Dup
pub mod Collision
use gekko_fs.Base.{
  ℕ, zero, suc, ◌+◌, Bool, true, false, not, ◌&&◌, Option, none, some, List, [], ltb, eqb,
  if◌then◌else◌, length,
}
use gekko_fs.Base.Eq.{nat_eq}
use gekko_fs.Base.Dict.{Dict, lookup, insert, erase, is_none}

-- std::numeric_limits<int>::max()
abbrev pub int_max : ℕ
int_max = 2147483647

abbrev pub first_fd : ℕ
first_fd = 10000

-- The index from which a full table starts again.
abbrev pub restart_fd : ℕ
restart_fd = 100000

pub record FileMap (F : Type 0) : Type 0 where
  pub files : Dict ℕ F
  pub fd_idx : ℕ
  pub fd_validation_needed : Bool

abbrev pub is_empty {ℓ} : {A : Type ℓ} → List A → Bool
is_empty [] = true
is_empty _ = false

-- The descriptors of the operating system's streams.
abbrev pub is_standard : ℕ → Bool
is_standard fd = ltb fd 3

module _ {F : Type 0} where
  pub init : FileMap F
  init = record { files = []; fd_idx = first_fd; fd_validation_needed = false }

  unfoldable pub get : FileMap F → ℕ → Option F
  get m fd = lookup fd m.files

  pub exist : FileMap F → ℕ → Bool
  exist m fd = not (is_none (lookup fd m.files))

  abbrev pub take_next : FileMap F → FileMap F × ℕ
  take_next m = (record m { fd_idx = m.fd_idx + 1 }, m.fd_idx)

  -- Returns the index and counts on; at the greatest int it starts again, and asks for validation.
  pub generate_fd_idx : FileMap F → FileMap F × ℕ
  generate_fd_idx m =
      if eqb m.fd_idx int_max
      then take_next (record m { fd_idx = restart_fd; fd_validation_needed = true })
      else take_next m

  -- while(exist(fd)) fd = generate_fd_idx();
  pub find_free : ℕ → FileMap F → ℕ → Option (FileMap F × ℕ)
  find_free zero m fd = none
  find_free (suc fuel) m fd =
      let again = find_free fuel (generate_fd_idx m).0 (generate_fd_idx m).1 in
      if exist m fd then again else some (m, fd)

  pub safe_generate_fd_idx : FileMap F → Option (FileMap F × ℕ)
  safe_generate_fd_idx m =
      let (m', fd) = generate_fd_idx m in
      if m'.fd_validation_needed then find_free (suc (length m'.files)) m' fd else some (m', fd)

  abbrev pub put : F → FileMap F × ℕ → FileMap F × ℕ
  put f (m, fd) = (record m { files = insert fd f m.files }, fd)

  abbrev pub then_put : F → Option (FileMap F × ℕ) → Option (FileMap F × ℕ)
  then_put f none = none
  then_put f (some r) = some (put f r)

  pub add : FileMap F → F → Option (FileMap F × ℕ)
  add m f = then_put f (safe_generate_fd_idx m)

  -- The result tells whether the descriptor was open.
  pub remove : FileMap F → ℕ → FileMap F × Bool
  remove m fd =
      if exist m fd
      then (let rest = erase fd m.files in
          (
            record m {
              files = rest;
              fd_validation_needed = m.fd_validation_needed && not (is_empty rest);
            },
            true,
          ))
      else (m, false)

  -- `none` is the result -1 with errno EBADF.
  pub dup : FileMap F → ℕ → Option (FileMap F × ℕ)
  dup m oldfd = elim (get m oldfd) [ none ↦ none | some f ↦ then_put f (safe_generate_fd_idx m) ]

  abbrev pub closed : FileMap F → ℕ → FileMap F
  closed m fd = if exist m fd then (remove m fd).0 else m

  abbrev pub place : FileMap F → ℕ → F → FileMap F
  place m newfd f = record m {
    files = insert newfd f m.files;
    fd_validation_needed =
        if ltb m.fd_idx newfd && not (is_standard newfd) then true else m.fd_validation_needed;
  }

  -- `none` is the result -1 with errno EBADF.
  pub dup2 : FileMap F → ℕ → ℕ → Option (FileMap F × ℕ)
  dup2 m oldfd newfd = elim (get m oldfd) [
    | none ↦ none
    | some f ↦ some (if eqb oldfd newfd then m else place (closed m newfd) newfd f, newfd)
  ]
