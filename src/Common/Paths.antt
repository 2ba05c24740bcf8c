-- ===== src/Common/Paths.antt =====
-- Operations on path strings: src/common/path_util.cpp. A search for the next separator is the
-- component that stands before it, and a loop over positions recurs on the rest of the string, with
-- the number of characters that it jumps over. A failed assertion is `none`.
pub mod Split
use gekko_fs.Base.{
  ℕ, zero, suc, Bool, true, false, not, ◌&&◌, eqb, if◌then◌else◌, List, [], ◌∷◌, ◌++◌, length,
  Option, none, some,
}
use gekko_fs.Base.Eq.{Bytes}

abbrev pub separator : ℕ
separator = b'/'

-- What stands before the first separator.
unfoldable pub component : Bytes → Bytes
component [] = []
component (c ∷ cs) = let rest = component cs in if eqb c separator then [] else c ∷ rest

unfoldable pub is_absolute : Bytes → Bool
is_absolute [] = false
is_absolute (c ∷ cs) = eqb c separator

unfoldable pub is_relative : Bytes → Bool
is_relative [] = false
is_relative (c ∷ cs) = not (eqb c separator)

unfoldable pub has_trailing_slash : Bytes → Bool
has_trailing_slash [] = false
has_trailing_slash (c ∷ []) = eqb c separator
has_trailing_slash (c ∷ d ∷ cs) = has_trailing_slash (d ∷ cs)

unfoldable pub prepend_path : Bytes → Bytes → Option Bytes
prepend_path prefix_path raw_path =
    if has_trailing_slash prefix_path then none else some (prefix_path ++ separator ∷ raw_path)

-- The loop of split_path: a token up to the next separator, then the string behind that separator.
unfoldable pub split_loop : ℕ → Bytes → List Bytes
split_loop skip [] = []
split_loop (suc skip) (c ∷ cs) = split_loop skip cs
split_loop zero (c ∷ cs) = component (c ∷ cs) ∷ split_loop (length (component (c ∷ cs))) cs

-- A separator at the front is jumped over; the string is not empty.
unfoldable pub split_path : Bytes → List Bytes
split_path [] = []
split_path (c ∷ cs) = split_loop (if eqb c separator then 1 else 0) (c ∷ cs)

-- What stands before the last separator.
unfoldable pub before_last : Bytes → Option Bytes
before_last [] = none
before_last (c ∷ cs) = elim (before_last cs) [
  | some before ↦ some (c ∷ before)
  | none ↦ if eqb c separator then some [] else none
]

abbrev pub or_root : Bytes → Bytes
or_root [] = separator ∷ []
or_root (c ∷ cs) = c ∷ cs

-- The assertions: no empty path, and no separator at the end of a longer one.
unfoldable pub is_proper : Bytes → Bool
is_proper [] = false
is_proper (c ∷ []) = eqb c separator
is_proper (c ∷ d ∷ cs) = not (has_trailing_slash (d ∷ cs))

unfoldable pub dirname : Bytes → Option Bytes
dirname path =
    if is_proper path
    then (elim (before_last path) [ none ↦ none | some parent ↦ some (or_root parent) ])
    else none

-- The rest of a string behind a prefix.
unfoldable pub behind : Bytes → Bytes → Option Bytes
behind [] s = some s
behind (p ∷ ps) [] = none
behind (p ∷ ps) (c ∷ cs) = let rest = behind ps cs in if eqb p c then rest else none

abbrev pub without_last : Bytes → Bytes
without_last [] = []
without_last (c ∷ []) = []
without_last (c ∷ d ∷ cs) = c ∷ without_last (d ∷ cs)

-- The part of an absolute path behind the root path; an empty string if it does not start with it.
unfoldable pub relative_part : Bytes → Bytes
relative_part [] = separator ∷ []
relative_part (c ∷ []) = c ∷ []
relative_part (c ∷ d ∷ cs) =
    if has_trailing_slash (d ∷ cs) then without_last (c ∷ d ∷ cs) else c ∷ d ∷ cs

unfoldable pub absolute_to_relative : Bytes → Bytes → Option Bytes
absolute_to_relative root_path absolute_path =
    if is_absolute root_path && is_absolute absolute_path && not (has_trailing_slash root_path)
    then (elim (behind root_path absolute_path) [
      | none ↦ some []
      | some rest ↦ some (relative_part rest)
    ])
    else none
