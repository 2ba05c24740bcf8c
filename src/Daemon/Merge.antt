-- ===== src/Daemon/Merge.antt =====
-- The merge operands of src/daemon/backend/metadata/merge.cpp, their text form, and FullMergeV2,
-- with the map of reserved append offsets of src/daemon/backend/metadata/metadata_module.cpp.
-- RocksDB, which calls the operator, is not modelled. An assertion that does not hold and an
-- exception are `none`: what was reserved before one is not seen.
pub mod Operands
pub mod Appends
use gekko_fs.Base.{
  ℕ, zero, suc, ◌+◌, ◌%◌, ◌^◌, max, Bool, true, false, not, eqb, ltb, if◌then◌else◌, List, [], ◌∷◌,
  ◌++◌, Option, none, some,
}
use gekko_fs.Base.Eq.{Bytes, nat_eq}
use gekko_fs.Base.Dict.{Dict, assign}
use gekko_fs.Base.Options.{◌>>=◌, guard}
use gekko_fs.Base.Words.{add64}
use gekko_fs.Base.Decimal.{to_string, to_string_signed, stoul}
use gekko_fs.Base.Integers.{ℤ, to_signed}
use gekko_fs.Common.Metadata.{Metadata, Config, serialize, parse}

pub data MergeOperand : Type 0 where
  increase_size : (size merge_id : ℕ) (append : Bool) → MergeOperand
  decrease_size : (size : ℕ) → MergeOperand
  create : (metadata : Bytes) → MergeOperand
  update_time : (mtime : ℤ) → MergeOperand

abbrev pub operand_id_suffix : ℕ
operand_id_suffix = b':'

abbrev pub serialize_sep : ℕ
serialize_sep = b','

abbrev pub serialize_end : ℕ
serialize_end = 0

abbrev pub id : MergeOperand → ℕ
id (increase_size size merge_id append) = b'i'
id (decrease_size size) = b'd'
id (create metadata) = b'c'
id (update_time mtime) = b't'

unfoldable pub serialize_params : MergeOperand → Bytes
serialize_params (increase_size size merge_id true) =
    to_string size ++ serialize_sep ∷ (to_string merge_id ++ serialize_end ∷ [])
serialize_params (increase_size size merge_id false) = to_string size ++ serialize_end ∷ []
serialize_params (decrease_size size) = to_string size
serialize_params (create metadata) = metadata
serialize_params (update_time mtime) = to_string_signed mtime

unfoldable pub serialize_operand : MergeOperand → Bytes
serialize_operand op = id op ∷ operand_id_suffix ∷ serialize_params op

unfoldable pub get_id : Bytes → Option ℕ
get_id [] = none
get_id (c ∷ cs) = some c

unfoldable pub get_params : Bytes → Option Bytes
get_params (i ∷ s ∷ params) = if eqb s operand_id_suffix then some params else none
get_params _ = none

abbrev pub with_merge_id : ℕ → Option (ℕ × Bytes) → Option MergeOperand
with_merge_id size none = none
with_merge_id size (some (merge_id, rest)) = some (increase_size size (merge_id % 2 ^ 16) true)

-- What follows the size in the parameters of an increase.
unfoldable pub read_append : ℕ → Bytes → Option MergeOperand
read_append size [] = none
read_append size (c ∷ []) = some (increase_size size 0 false)
read_append size (c ∷ d ∷ rest) =
    if eqb c serialize_end
    then some (increase_size size 0 false)
    else if eqb c serialize_sep
    then with_merge_id size (stoul (d ∷ rest))
    else none

unfoldable pub read_increase : Bytes → Option MergeOperand
read_increase params = do (size, rest) ← stoul params; read_append size rest

abbrev pub whole : Option (ℕ × Bytes) → Option ℕ
whole none = none
whole (some (n, [])) = some n
whole (some (n, c ∷ rest)) = none

-- The variables of the merge: the metadata, `fsize`, and the reserved offsets.
pub record Merging : Type 0 where
  pub md : Metadata
  pub fsize : ℕ
  pub append_offset_reserve : Dict ℕ ℕ

unfoldable pub append_offset_reserve_put : ℕ → ℕ → Dict ℕ ℕ → Dict ℕ ℕ
append_offset_reserve_put merge_id offset reserve = assign merge_id offset reserve

-- The body of the loop for an operand that was read.
unfoldable pub merge_operand : MergeOperand → Merging → Option Merging
merge_operand (increase_size size merge_id true) m = some (record m {
  fsize = add64 m.fsize size;
  append_offset_reserve = append_offset_reserve_put merge_id m.fsize m.append_offset_reserve;
})
merge_operand (increase_size size merge_id false) m = some (record m { fsize = max size m.fsize })
merge_operand (decrease_size size) m =
    if ltb size m.fsize then some (record m { fsize = size }) else none
merge_operand (create metadata) m = some m
merge_operand (update_time mtime) m = some (record m { md = record m.md { mtime = mtime } })

unfoldable pub read_by_id : ℕ → Bytes → Option MergeOperand
read_by_id operand_id params =
    if eqb operand_id b'i'
    then read_increase params
    else if eqb operand_id b'd'
    then (whole (stoul params) >>= λ size. some (decrease_size size))
    else if eqb operand_id b'c'
    then some (create params)
    else if eqb operand_id b't'
    then (whole (stoul params) >>= λ mtime. some (update_time (to_signed mtime)))
    else none

-- The operand in its text form: `get_id`, `get_params` and the constructors from a slice.
unfoldable pub read_operand : Bytes → Option MergeOperand
read_operand serialized = do
  operand_id ← get_id serialized
  params ← get_params serialized
  read_by_id operand_id params

unfoldable pub merge_all : List Bytes → Merging → Option Merging
merge_all [] m = some m
merge_all (serialized ∷ rest) m = do
  op ← read_operand serialized
  m' ← merge_operand op m
  merge_all rest m'

-- Where the merge starts: the value of the key, or the metadata of the creation that has to come
-- first.
unfoldable pub merge_start : Option Bytes → List Bytes → Option (Bytes × List Bytes)
merge_start (some existing_value) ops = some (existing_value, ops)
merge_start none [] = none
merge_start none (op ∷ ops) = do
  operand_id ← get_id op
  _ ← guard (eqb operand_id b'c')
  params ← get_params op
  some (params, ops)

unfoldable pub full_merge :
    Config → Option Bytes → List Bytes → Dict ℕ ℕ → Option (Bytes × Dict ℕ ℕ)
full_merge c existing_value operand_list reserve = do
  (prev_md_value, ops) ← merge_start existing_value operand_list
  md ← parse c prev_md_value
  m ← merge_all ops (record { md = md; fsize = md.size; append_offset_reserve = reserve })
  some (serialize c (record m.md { size = m.fsize }), m.append_offset_reserve)
