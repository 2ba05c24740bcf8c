-- ===== src/Tests/Records.antt =====
-- Examples for src/common/metadata.cpp and src/daemon/backend/metadata/merge.cpp.
use gekko_fs.Base.{ℕ, ◌+◌, ◌≤◌, ◌≡◌, refl, true, false, List, [], ◌∷◌, ◌++◌, none, some, map, arith}
use gekko_fs.Base.Eq.{nat_eq}
use gekko_fs.Base.Dict.{lookup}
use gekko_fs.Base.Options.{◌>>=◌}
use gekko_fs.Base.Integers.{pos, negsuc}
use gekko_fs.Common.Metadata.{Metadata, Config, serialize, parse}
use gekko_fs.Common.Metadata.RoundTrip.{kept, IsInRange, parse-serialize}
use gekko_fs.Daemon.Merge.{
  MergeOperand, increase_size, create, serialize_operand, read_operand, Merging, full_merge,
}
use gekko_fs.Daemon.Merge.Operands.{
  read_operand-serialize_operand, full_merge-fold, fold_operands, merged, start_from,
}
use gekko_fs.Daemon.Merge.Appends.{append_offsets-apart}

abbrev with_renames : Config
with_renames = record {
  use_atime = false;
  use_mtime = true;
  use_ctime = false;
  use_link_cnt = false;
  use_blocks = true;
  has_symlinks = true;
  has_rename = true;
}

-- A link to /a|b that was renamed to /c: its block count is -1.
abbrev some_link : Metadata
some_link = record {
  mode = 0xa1ff;
  link_count = 0;
  size = 4096;
  blocks = negsuc 0;
  atime = pos 0;
  mtime = pos 1700000000;
  ctime = pos 0;
  target_path = b'/' ∷ b'a' ∷ b'|' ∷ b'b' ∷ [];
  rename_path = b'/' ∷ b'c' ∷ [];
}

some_link-IsInRange : IsInRange some_link
some_link-IsInRange = (
  omega arith,
  omega arith,
  omega arith,
  omega arith,
  omega arith,
  omega arith,
  omega arith,
  (refl, (refl, (refl, (refl, tt)))),
  (refl, (refl, tt)),
  (refl, (refl, tt)),
)

parse-serialize_example :
    parse with_renames (serialize with_renames some_link) ≡ some (kept with_renames some_link)
parse-serialize_example = parse-serialize with_renames some_link some_link-IsInRange

read_operand-serialize_operand_example :
    read_operand (serialize_operand (increase_size 512 77 true)) ≡ some (increase_size 512 77 true)
read_operand-serialize_operand_example =
    read_operand-serialize_operand (increase_size 512 77 true) (omega arith, omega arith)

abbrev two_updates : List MergeOperand
two_updates = increase_size 10000 0 false ∷ increase_size 8 5 true ∷ []

full_merge-fold_example :
    (full_merge with_renames
        (some (serialize with_renames some_link))
        (map serialize_operand two_updates)
        []
      ≡ (fold_operands two_updates (start_from (kept with_renames some_link) []) >>= λ m.
          some (merged with_renames m)))
    × (full_merge with_renames none
          (map serialize_operand (create (serialize with_renames some_link) ∷ two_updates))
          []
        ≡ (fold_operands two_updates (start_from (kept with_renames some_link) []) >>= λ m.
            some (merged with_renames m)))
full_merge-fold_example =
    full_merge-fold with_renames some_link two_updates [] some_link-IsInRange
      ((omega arith, refl), ((omega arith, omega arith), tt))

abbrev start : Merging
start = start_from some_link []

append_offsets-apart_example :
    (m' : Merging) × (offset : ℕ) × (fold_operands
        (increase_size 100 1 true
          ∷ (increase_size 9000 0 false ∷ [] ++ increase_size 50 2 true ∷ []))
        start
      ≡ some m')
    × (lookup 1 m'.append_offset_reserve ≡ some start.fsize)
    × (lookup 2 m'.append_offset_reserve ≡ some offset)
    × (start.fsize + 100 ≤ offset)
    × (m'.fsize ≡ offset + 50)
append_offsets-apart_example =
    append_offsets-apart start 100 1 50 2 (increase_size 9000 0 false ∷ []) (tt, tt) (tt, tt)
      (omega arith) (omega arith)
