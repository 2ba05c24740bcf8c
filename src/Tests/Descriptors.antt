-- ===== src/Tests/Descriptors.antt =====
-- Examples for src/client/open_file_map.cpp.
use gekko_fs.Base.{ℕ, ◌≡◌, refl, false, [], ◌∷◌, some, arith, if◌then◌else◌}
use gekko_fs.Base.Eq.{nat_eq, ◌==◌}
use gekko_fs.Base.Dict.{lookup}
use gekko_fs.Client.FileMap.{FileMap, get, add, dup2}
use gekko_fs.Client.FileMap.Fresh.{IsFresh}
use gekko_fs.Client.FileMap.Dup.{IsAdded, add-IsAdded, dup2_lem}
use gekko_fs.Client.FileMap.Collision.{dup2_collision}

-- One open file, 42, at descriptor 10000.
abbrev one_file : FileMap ℕ
one_file = record { files = (10000, 42) ∷ []; fd_idx = 10001; fd_validation_needed = false }

one_file-IsFresh : IsFresh one_file
unfolding lookup
one_file-IsFresh = record {
  in_range = omega arith;
  started = omega arith;
  below = λ u fd f h. ground arith;
}

get-one_file : get one_file 10000 ≡ some 42
unfolding get lookup
get-one_file = refl

add-IsAdded_example :
    (m' : FileMap ℕ) × (fd : ℕ) × (add one_file 43 ≡ some (m', fd)) × IsAdded one_file m' fd 43
add-IsAdded_example = add-IsAdded one_file 43 one_file-IsFresh (omega arith)

dup2_lem_example :
    (m' : FileMap ℕ) × (dup2 one_file 10000 5 ≡ some (m', 5))
    × ((j : ℕ) → get m' j ≡ (if 5 == j then some 42 else get one_file j))
    × IsFresh m'
dup2_lem_example = dup2_lem one_file 10000 5 42 one_file-IsFresh get-one_file (omega arith)

dup2_collision_example :
    (m' m'' : FileMap ℕ) × (dup2 one_file 10000 one_file.fd_idx ≡ some (m', one_file.fd_idx))
    × (add m' 43 ≡ some (m'', one_file.fd_idx))
    × (get m'' one_file.fd_idx ≡ some 42)
dup2_collision_example =
    dup2_collision one_file 10000 42 43 one_file-IsFresh refl (omega arith) get-one_file
