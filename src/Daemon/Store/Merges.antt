-- ===== src/Daemon/Store/Merges.antt =====
-- What a merge of one operand makes of a stored record; the operator is that of
-- src/daemon/backend/metadata/merge.cpp.
use gekko_fs.Base.{
  ℕ, ◌^◌, ◌<◌, ◌≡◌, refl, ap, ◌∙◌, max, Bool, true, false, arith, lt→ltb, if◌then◌else◌, [], ◌∷◌,
  Option, none, some, ◌&&◌,
}
use gekko_fs.Base.Eq.{Bytes}
use gekko_fs.Base.Integers.{ℤ, pos, IsInt64}
use gekko_fs.Common.Metadata.{Metadata, Config, serialize}
use gekko_fs.Common.Metadata.RoundTrip.{kept, IsInRange, IsText, HasNoSeparator}
use gekko_fs.Daemon.Merge.{
  increase_size, decrease_size, create, update_time, serialize_operand, merge_operand,
}
use gekko_fs.Daemon.Merge.Operands.{fold_operands, full_merge-fold}
use gekko_fs.Daemon.Store.{Lookup, missing, found, merged, after_merge}

-- A record as it is found.
abbrev pub text_of : Config → Option Metadata → Lookup
text_of c none = missing
text_of c (some md) = found (serialize c md)

-- The ranges of a record, if there is one.
abbrev pub InRange : Option Metadata → Type 0
InRange none = Unit
InRange (some md) = IsInRange md

pub kept-IsInRange : (c : Config) (md : Metadata) → IsInRange md → IsInRange (kept c md)
kept-IsInRange c md (mode, size, atime, mtime, ctime, links, blocks, target, rename, plain) = (
  mode,
  size,
  time c.use_atime md.atime atime,
  time c.use_mtime md.mtime mtime,
  time c.use_ctime md.ctime ctime,
  count c.use_link_cnt,
  time c.use_blocks md.blocks blocks,
  text c.has_symlinks md.target_path target,
  text (c.has_symlinks && c.has_rename) md.rename_path rename,
  separated c.has_symlinks c.has_rename,
)
  where
    time : (b : Bool) (z : ℤ) → IsInt64 z → IsInt64 (if b then z else pos 0)
    time true z h = h
    time false z h = omega arith

    count : (b : Bool) → (if b then md.link_count else 0) < 2 ^ 64
    count true = links
    count false = omega arith

    text : (b : Bool) (s : Bytes) → IsText s → IsText (if b then s else [])
    text true s h = h
    text false s h = tt

    separated : (b d : Bool) → HasNoSeparator (if b && d then md.rename_path else [])
    separated true true = plain
    separated true false = tt
    separated false d = tt

module _ (c : Config) (md : Metadata) (range : IsInRange md) where
  pub after_merge-create :
      after_merge c (serialize_operand (create (serialize c md))) missing
      ≡ found (serialize c (kept c md))
  unfolding after_merge fold_operands
  after_merge-create = ap merged (full_merge-fold c md [] [] range tt).1

  pub after_merge-increase_size :
      (n : ℕ)
      → n < 2 ^ 64
      → after_merge c (serialize_operand (increase_size n 0 false)) (found (serialize c md))
        ≡ found (serialize c (record (kept c md) { size = max n md.size }))
  unfolding after_merge fold_operands merge_operand
  after_merge-increase_size n h =
      ap merged (full_merge-fold c md (increase_size n 0 false ∷ []) [] range ((h, refl), tt)).0

  pub after_merge-decrease_size :
      (n : ℕ)
      → n < md.size
      → after_merge c (serialize_operand (decrease_size n)) (found (serialize c md))
        ≡ found (serialize c (record (kept c md) { size = n }))
  unfolding after_merge fold_operands merge_operand
  after_merge-decrease_size n h =
      ap merged
        (full_merge-fold c md (decrease_size n ∷ []) [] range (omega (arith, h, range.1), tt)).0
      ∙ rw (lt→ltb n md.size h) refl

  pub after_merge-update_time :
      (now : ℤ)
      → IsInt64 now
      → after_merge c (serialize_operand (update_time now)) (found (serialize c md))
        ≡ found (serialize c (record (kept c md) { mtime = now }))
  unfolding after_merge fold_operands merge_operand
  after_merge-update_time now h =
      ap merged (full_merge-fold c md (update_time now ∷ []) [] range (h, tt)).0
