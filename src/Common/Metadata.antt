-- ===== src/Common/Metadata.antt =====
-- The metadata of a file and its text form: src/common/metadata.cpp and include/common/metadata.hpp.
-- An assertion that does not hold, and a number that `std::stoul` refuses, are `none`.
pub mod RoundTrip
use gekko_fs.Base.{
  ℕ, zero, suc, ◌+◌, ◌%◌, ◌^◌, Bool, true, false, eqb, if◌then◌else◌, List, [], ◌∷◌, ◌++◌, Option,
  none, some,
}
use gekko_fs.Base.Eq.{Bytes}
use gekko_fs.Base.Options.{◌>>=◌}
use gekko_fs.Base.Decimal.{to_string, to_string_signed, stoul, stol}
use gekko_fs.Base.Integers.{ℤ, pos, to_unsigned}

pub record Metadata : Type 0 where
  pub mode : ℕ
  pub link_count : ℕ
  pub size : ℕ
  pub blocks : ℤ
  pub atime : ℤ
  pub mtime : ℤ
  pub ctime : ℤ
  pub target_path : Bytes
  pub rename_path : Bytes

-- The flags of include/config.hpp, and the build options HAS_SYMLINKS and HAS_RENAME.
pub record Config : Type 0 where
  pub use_atime : Bool
  pub use_mtime : Bool
  pub use_ctime : Bool
  pub use_link_cnt : Bool
  pub use_blocks : Bool
  pub has_symlinks : Bool
  pub has_rename : Bool

abbrev pub msp : ℕ
msp = b'|'

-- An unsigned and a signed field that a flag turns on.
unfoldable pub field : Bool → ℕ → Bytes
field true n = msp ∷ to_string n
field false n = []

unfoldable pub signed_field : Bool → ℤ → Bytes
signed_field true z = msp ∷ to_string_signed z
signed_field false z = []

unfoldable pub paths : Config → Metadata → Bytes
paths c md =
    if c.has_symlinks
    then msp ∷ (md.target_path ++ (if c.has_rename then msp ∷ md.rename_path else []))
    else []

unfoldable pub serialize : Config → Metadata → Bytes
serialize c md =
    to_string md.mode
    ++ (msp
        ∷ (to_string md.size
            ++ (signed_field c.use_atime md.atime
                ++ (signed_field c.use_mtime md.mtime
                    ++ (signed_field c.use_ctime md.ctime
                        ++ (field c.use_link_cnt md.link_count
                            ++ (signed_field c.use_blocks md.blocks ++ paths c md)))))))

-- A separator, then what `read` reads behind it.
unfoldable pub separated {ℓ} :
    {A : Type ℓ} → (Bytes → Option (A × Bytes)) → Bytes → Option (A × Bytes)
separated read [] = none
separated read (c ∷ cs) = if eqb c msp then read cs else none

-- A field that the flag turns on; without it the member keeps its default.
unfoldable pub optional {ℓ} :
    {A : Type ℓ} → Bool → A → (Bytes → Option (A × Bytes)) → Bytes → Option (A × Bytes)
optional true default read s = separated read s
optional false default read s = some (default, s)

-- A `std::string` made from a pointer ends at the first null character.
unfoldable pub c_string : Bytes → Bytes
c_string [] = []
c_string (c ∷ cs) = let rest = c_string cs in if eqb c 0 then [] else c ∷ rest

-- What stands before and after the last separator.
unfoldable pub split_last : Bytes → Option (Bytes × Bytes)
split_last [] = none
split_last (c ∷ cs) = elim (split_last cs) [
  | some (before, after) ↦ some (c ∷ before, after)
  | none ↦ if eqb c msp then some ([], cs) else none
]

-- The two paths of the last field. With no separator in it `find_last_of` gives `npos`, and the
-- arithmetic on the pointer goes back to the start of the field: both paths are the whole of it.
unfoldable pub rename_paths : Bytes → Option (Bytes × Bytes)
rename_paths [] = none
rename_paths (c ∷ cs) = elim (split_last (c ∷ cs)) [
  | none ↦ some (c ∷ cs, c ∷ cs)
  | some found ↦ some found
]

unfoldable pub read_links : Bool → Bytes → Option (Bytes × Bytes)
read_links has_rename [] = none
read_links has_rename (x ∷ xs) =
    if eqb x msp
    then (if has_rename then rename_paths (c_string xs) else some (c_string xs, []))
    else none

-- Without links the whole string is read by now.
unfoldable pub at_end : Bytes → Option (Bytes × Bytes)
at_end [] = some ([], [])
at_end (x ∷ xs) = if eqb x 0 then some ([], []) else none

abbrev pub read_paths : Config → Bytes → Option (Bytes × Bytes)
read_paths c s = if c.has_symlinks then read_links c.has_rename s else at_end s

-- The constructor `Metadata(const std::string& binary_str)`.
unfoldable pub parse : Config → Bytes → Option Metadata
parse c s = do
  (mode, s₁) ← stoul s
  (size, s₂) ← separated stol s₁
  (atime, s₃) ← optional c.use_atime (pos 0) stol s₂
  (mtime, s₄) ← optional c.use_mtime (pos 0) stol s₃
  (ctime, s₅) ← optional c.use_ctime (pos 0) stol s₄
  (link_count, s₆) ← optional c.use_link_cnt 0 stoul s₅
  (blocks, s₇) ← optional c.use_blocks (pos 0) stol s₆
  (target_path, rename_path) ← read_paths c s₇
  some (record {
    mode = mode % 2 ^ 32;
    link_count = link_count;
    size = to_unsigned size;
    blocks = blocks;
    atime = atime;
    mtime = mtime;
    ctime = ctime;
    target_path = target_path;
    rename_path = rename_path;
  })
