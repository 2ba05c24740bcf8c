-- ===== src/Daemon/Merge/Appends.antt =====
-- The offsets that FullMergeV2 of src/daemon/backend/metadata/merge.cpp reserves for appends.
use gekko_fs.Base.{
  ℕ, ◌+◌, ◌^◌, ◌≤◌, ◌<◌, max, ◌≡◌, ◌≢◌, refl, ap, ◌∙◌, true, false, arith, eqb, if◌then◌else◌, List,
  [], ◌∷◌, ◌++◌, Option, none, some, All,
}
use gekko_fs.Base.Eq.{nat_eq}
use gekko_fs.Base.Dict.{Dict, lookup, lookup-assign}
use gekko_fs.Base.Options.{◌>>=◌}
use gekko_fs.Daemon.Merge.{
  MergeOperand, increase_size, decrease_size, create, update_time, Merging, merge_operand,
  append_offset_reserve_put,
}
use gekko_fs.Daemon.Merge.Operands.{fold_operands}

-- At most how far the operands move the end of the file.
abbrev pub growth : List MergeOperand → ℕ
growth [] = 0
growth (increase_size size merge_id append ∷ ops) = size + growth ops
growth (_ ∷ ops) = growth ops

-- The operand does not cut the file.
abbrev pub IsGrowing : MergeOperand → Type 0
IsGrowing (decrease_size size) = ⊥
IsGrowing _ = Unit

-- The operand is no append under the merge id.
abbrev pub Avoids : ℕ → MergeOperand → Type 0
Avoids i (increase_size size merge_id true) = merge_id ≢ i
Avoids i _ = Unit

fold_operands-append :
    (xs ys : List MergeOperand) (m : Merging)
    → fold_operands (xs ++ ys) m ≡ (fold_operands xs m >>= fold_operands ys)
unfolding fold_operands
fold_operands-append [] ys m = refl
fold_operands-append (x ∷ xs) ys m = split (merge_operand x m) (fold_operands-append xs ys)
  where
    split :
        (o : Option Merging)
        → ((m' : Merging)
            → fold_operands (xs ++ ys) m' ≡ (fold_operands xs m' >>= fold_operands ys))
        → (o >>= fold_operands (xs ++ ys)) ≡ ((o >>= fold_operands xs) >>= fold_operands ys)
    split none ih = refl
    split (some m') ih = ih m'

-- The state after an append: it starts at the end of the file.
abbrev appended : ℕ → ℕ → Merging → Merging
appended size merge_id m = record m {
  fsize = m.fsize + size;
  append_offset_reserve = append_offset_reserve_put merge_id m.fsize m.append_offset_reserve;
}

merge_operand-append :
    (size merge_id : ℕ) (m : Merging)
    → m.fsize + size < 2 ^ 64
    → merge_operand (increase_size size merge_id true) m ≡ some (appended size merge_id m)
unfolding merge_operand
merge_operand-append size merge_id m h =
    ap (λ (n : ℕ). some (record (appended size merge_id m) { fsize = n })) (omega (arith, h))

lookup-append_offset_reserve_put :
    (i j offset : ℕ) (reserve : Dict ℕ ℕ)
    → lookup j (append_offset_reserve_put i offset reserve)
      ≡ (if eqb i j then some offset else lookup j reserve)
unfolding append_offset_reserve_put
lookup-append_offset_reserve_put i j offset reserve = lookup-assign i j offset reserve

-- The fold ends, the file's end moves forward, and what was reserved under `i` stays.
record IsGrown (i : ℕ) (ops : List MergeOperand) (m m' : Merging) : Type 0 where
  run : fold_operands ops m ≡ some m'
  above : m.fsize ≤ m'.fsize
  below : m'.fsize ≤ m.fsize + growth ops
  kept : lookup i m'.append_offset_reserve ≡ lookup i m.append_offset_reserve

grow :
    (i : ℕ) (ops : List MergeOperand) (m : Merging)
    → All IsGrowing ops
    → All (Avoids i) ops
    → m.fsize + growth ops < 2 ^ 64
    → (m' : Merging) × IsGrown i ops m m'
unfolding fold_operands merge_operand
grow i [] m h k fits =
    (m, record { run = refl; above = omega arith; below = omega arith; kept = refl })
grow i (increase_size size merge_id true ∷ ops) m h k fits =
    let (m', g) = grow i ops (appended size merge_id m) h.1 k.1 (omega (arith, fits)) in
    (
      m',
      record {
        run =
            ap (λ (o : Option Merging). o >>= fold_operands ops)
              (merge_operand-append size merge_id m (omega (arith, fits)))
            ∙ g.run;
        above = omega (arith, g.above);
        below = omega (arith, g.below);
        kept = ground (
          arith,
          g.kept,
          k.0,
          lookup-append_offset_reserve_put merge_id i m.fsize m.append_offset_reserve,
        );
      },
    )
grow i (increase_size size merge_id false ∷ ops) m h k fits =
    let (m', g) =
      grow i ops (record m { fsize = max size m.fsize }) h.1 k.1 (omega (arith, fits)) in
    (
      m',
      record {
        run = g.run;
        above = omega (arith, g.above);
        below = omega (arith, g.below);
        kept = g.kept;
      },
    )
grow i (decrease_size size ∷ ops) m h k fits = absurd h.0
grow i (create metadata ∷ ops) m h k fits =
    let (m', g) = grow i ops m h.1 k.1 fits in
    (m', record { run = g.run; above = g.above; below = g.below; kept = g.kept })
grow i (update_time mtime ∷ ops) m h k fits =
    let (m', g) = grow i ops (record m { md = record m.md { mtime = mtime } }) h.1 k.1 fits in
    (m', record { run = g.run; above = g.above; below = g.below; kept = g.kept })

-- Of two appends in a sequence of operands that does not cut the file nor gets to 2^64 bytes, the
-- first starts at the end of the file, the second starts behind what the first writes and ends at
-- the new end of the file, and both find their offsets afterwards, if no append between them and
-- not the second has the merge id of the first.
pub append_offsets-apart :
    (m : Merging) (size_1 id_1 size_2 id_2 : ℕ) (ops : List MergeOperand)
    → All IsGrowing ops
    → All (Avoids id_1) ops
    → id_2 ≢ id_1
    → m.fsize + size_1 + growth ops + size_2 < 2 ^ 64
    → (m' : Merging) × (offset : ℕ) × (fold_operands
          (increase_size size_1 id_1 true ∷ (ops ++ increase_size size_2 id_2 true ∷ []))
          m
        ≡ some m')
      × (lookup id_1 m'.append_offset_reserve ≡ some m.fsize)
      × (lookup id_2 m'.append_offset_reserve ≡ some offset)
      × (m.fsize + size_1 ≤ offset)
      × (m'.fsize ≡ offset + size_2)
unfolding fold_operands
append_offsets-apart m size_1 id_1 size_2 id_2 ops growing avoids ne fits =
    let (m_2, g) = grow id_1 ops (appended size_1 id_1 m) growing avoids (omega (arith, fits)) in
    (
      appended size_2 id_2 m_2,
      m_2.fsize,
      ap (λ (o : Option Merging). o >>= fold_operands (ops ++ increase_size size_2 id_2 true ∷ []))
            (merge_operand-append size_1 id_1 m (omega (arith, fits)))
          ∙ fold_operands-append ops (increase_size size_2 id_2 true ∷ []) (appended size_1 id_1 m)
          ∙ ap (λ (o : Option Merging). o >>= fold_operands (increase_size size_2 id_2 true ∷ []))
              g.run
          ∙ ap (λ (o : Option Merging). o >>= fold_operands [])
              (merge_operand-append size_2 id_2 m_2 (omega (arith, fits, g.below))),
      ground (
        arith,
        g.kept,
        ne,
        lookup-append_offset_reserve_put id_2 id_1 m_2.fsize m_2.append_offset_reserve,
        lookup-append_offset_reserve_put id_1 id_1 m.fsize m.append_offset_reserve,
      ),
      ground
          (arith, lookup-append_offset_reserve_put id_2 id_2 m_2.fsize m_2.append_offset_reserve),
      g.above,
      refl,
    )
