-- ===== src/Daemon/Merge/Operands.antt =====
-- Operands come back from their text form, and a full merge is a fold over the operands; the code is
-- src/daemon/backend/metadata/merge.cpp.
use gekko_fs.Base.{
  ℕ, ◌^◌, ◌<◌, ◌≡◌, refl, sym, ap, ◌∙◌, true, false, arith, List, [], ◌∷◌, ◌++◌, append-nil, Option,
  none, some, All, map,
}
use gekko_fs.Base.Eq.{Bytes}
use gekko_fs.Base.Dict.{Dict}
use gekko_fs.Base.Options.{◌>>=◌}
use gekko_fs.Base.Decimal.{to_string, to_string_signed, stoul}
use gekko_fs.Base.Integers.{ℤ, to_signed, to_unsigned, IsInt64, to_signed-to_unsigned}
use gekko_fs.Base.Decimal.RoundTrip.{stoul-to_string, stoul-to_string_signed, to_string-head}
use gekko_fs.Common.Metadata.{Metadata, Config, serialize, parse}
use gekko_fs.Common.Metadata.RoundTrip.{kept, IsInRange, parse-serialize}
use gekko_fs.Daemon.Merge.{
  MergeOperand, increase_size, decrease_size, create, update_time, serialize_params,
  serialize_operand, get_id, get_params, with_merge_id, read_append, read_increase, whole,
  read_by_id, read_operand, Merging, merge_operand, merge_all, merge_start, full_merge,
  serialize_sep, serialize_end,
}

-- What the constructors and the types of the members allow. An increase that does not append has no
-- merge id.
abbrev pub IsOperand : MergeOperand → Type 0
IsOperand (increase_size size merge_id true) = (size < 2 ^ 64) × (merge_id < 2 ^ 16)
IsOperand (increase_size size merge_id false) = (size < 2 ^ 64) × (merge_id ≡ 0)
IsOperand (decrease_size size) = size < 2 ^ 64
IsOperand (create metadata) = Unit
IsOperand (update_time mtime) = IsInt64 mtime

whole-to_string : (n : ℕ) → n < 2 ^ 64 → whole (stoul (to_string n)) ≡ some n
whole-to_string n h =
    ap (λ (s : Bytes). whole (stoul s)) (sym (append-nil (to_string n)))
    ∙ ap whole (stoul-to_string n [] tt h)

whole-to_string_signed :
    (z : ℤ) → IsInt64 z → whole (stoul (to_string_signed z)) ≡ some (to_unsigned z)
whole-to_string_signed z h =
    ap (λ (s : Bytes). whole (stoul s)) (sym (append-nil (to_string_signed z)))
    ∙ ap whole (stoul-to_string_signed z [] tt h)

read_append-plain :
    (size : ℕ) → read_append size (serialize_end ∷ []) ≡ some (increase_size size 0 false)
unfolding read_append
read_append-plain size = refl

read_append-append :
    (size merge_id : ℕ)
    → merge_id < 2 ^ 16
    → read_append size (serialize_sep ∷ (to_string merge_id ++ serialize_end ∷ []))
      ≡ some (increase_size size merge_id true)
unfolding read_append
read_append-append size merge_id h =
    let (c, cs, e) = to_string-head merge_id in
    ap (λ (s : Bytes). read_append size (serialize_sep ∷ (s ++ serialize_end ∷ []))) e
    ∙ ap (with_merge_id size) (
        ap (λ (s : Bytes). stoul (s ++ serialize_end ∷ [])) (sym e)
        ∙ stoul-to_string merge_id (serialize_end ∷ []) refl (omega (arith, h)))
    ∙ ap (λ (i : ℕ). some (increase_size size i true)) (omega (arith, h))

-- A merge operand is read back from its text form, if its numbers are in their ranges and an
-- increase that does not append has merge id 0.
pub read_operand-serialize_operand :
    (op : MergeOperand) → IsOperand op → read_operand (serialize_operand op) ≡ some op
unfolding read_operand serialize_operand get_id get_params read_by_id read_increase serialize_params
read_operand-serialize_operand (increase_size size merge_id true) (h, k) =
    ap (λ (o : Option (ℕ × Bytes)). o >>= λ p. read_append p.0 p.1)
      (stoul-to_string size (serialize_sep ∷ (to_string merge_id ++ serialize_end ∷ [])) refl h)
    ∙ read_append-append size merge_id k
read_operand-serialize_operand (increase_size size merge_id false) (h, k) =
    ap (λ (o : Option (ℕ × Bytes)). o >>= λ p. read_append p.0 p.1)
      (stoul-to_string size (serialize_end ∷ []) refl h)
    ∙ read_append-plain size
    ∙ ap (λ (i : ℕ). some (increase_size size i false)) (sym k)
read_operand-serialize_operand (decrease_size size) h =
    ap (λ (o : Option ℕ). o >>= λ n. some (decrease_size n)) (whole-to_string size h)
read_operand-serialize_operand (create metadata) h = refl
read_operand-serialize_operand (update_time mtime) h =
    ap (λ (o : Option ℕ). o >>= λ n. some (update_time (to_signed n)))
      (whole-to_string_signed mtime h)
    ∙ ap (λ (z : ℤ). some (update_time z)) (to_signed-to_unsigned mtime h)

-- The operands applied one after the other.
unfoldable pub fold_operands : List MergeOperand → Merging → Option Merging
fold_operands [] m = some m
fold_operands (op ∷ ops) m = merge_operand op m >>= fold_operands ops

merge_all-fold :
    (ops : List MergeOperand) (m : Merging)
    → All IsOperand ops
    → merge_all (map serialize_operand ops) m ≡ fold_operands ops m
unfolding merge_all fold_operands
merge_all-fold [] m h = refl
merge_all-fold (op ∷ ops) m h =
    rw (read_operand-serialize_operand op h.0)
      (split (merge_operand op m) (λ m'. merge_all-fold ops m' h.1))
  where
    split :
        (o : Option Merging)
        → ((m' : Merging) → merge_all (map serialize_operand ops) m' ≡ fold_operands ops m')
        → (o >>= λ m'. merge_all (map serialize_operand ops) m') ≡ (o >>= fold_operands ops)
    split none ih = refl
    split (some m') ih = ih m'

-- What the merge writes, from what the fold gives.
abbrev pub merged : Config → Merging → Bytes × Dict ℕ ℕ
merged c m = (serialize c (record m.md { size = m.fsize }), m.append_offset_reserve)

abbrev pub start_from : Metadata → Dict ℕ ℕ → Merging
start_from md reserve = record { md = md; fsize = md.size; append_offset_reserve = reserve }

-- The full merge of operands in their text form onto the text of a metadata record is the fold of
-- the operands over what the configuration keeps of the record, and on a key with no value it is
-- the fold over the record that the first operand creates, if the numbers of the record and the
-- operands are in range.
pub full_merge-fold :
    (c : Config) (md : Metadata) (ops : List MergeOperand) (reserve : Dict ℕ ℕ)
    → IsInRange md
    → All IsOperand ops
    → (full_merge c (some (serialize c md)) (map serialize_operand ops) reserve
        ≡ (fold_operands ops (start_from (kept c md) reserve) >>= λ m. some (merged c m)))
      × (full_merge c none (map serialize_operand (create (serialize c md) ∷ ops)) reserve
          ≡ (fold_operands ops (start_from (kept c md) reserve) >>= λ m. some (merged c m)))
unfolding full_merge merge_start get_id get_params serialize_operand serialize_params
full_merge-fold c md ops reserve range operands = (from_value, from_value)
  where
    from_value :
        (parse c (serialize c md) >>= λ found.
        (merge_all (map serialize_operand ops) (start_from found reserve) >>= λ m.
        some (merged c m)))
        ≡ (fold_operands ops (start_from (kept c md) reserve) >>= λ m. some (merged c m))
    from_value = rw (parse-serialize c md range) (
        ap (λ (o : Option Merging). o >>= λ m. some (merged c m))
          (merge_all-fold ops (start_from (kept c md) reserve) operands))
