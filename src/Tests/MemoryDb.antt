-- ===== src/Tests/MemoryDb.antt =====
-- A database in memory, which shows that what is assumed of RocksDB can be met: a table from keys to
-- what a Get finds, and the last operand of each key with what it met.
use gekko_fs.Base.{
  ℕ, ◌≡◌, refl, sym, ap, subst, ◌∙◌, Bool, true, false, arith, if◌then◌else◌, [], ◌∷◌, Option, none,
  some, All, Bool-cases, inl, inr,
}
use gekko_fs.Base.Eq.{Bytes, ◌==◌, bytes_eq, nat_eq, beq_refl}
use gekko_fs.Base.Dict.{Dict, lookup, erase, assign, lookup-erase, lookup-assign}
use gekko_fs.Common.Metadata.{Config}
use gekko_fs.Daemon.Merge.{increase_size, serialize_operand}
use gekko_fs.Daemon.Store.{
  Lookup, missing, unreadable, found, after_merge, reserve_after, value_of, starts_with, RocksDb,
}
use gekko_fs.Daemon.Handlers.Holds.{Accepts}

pub record Memory : Type 0 where
  pub table : Dict Bytes Lookup
  pub last : Dict Bytes (Bytes × Lookup)

abbrev pub or_missing : Option Lookup → Lookup
or_missing none = missing
or_missing (some l) = l

abbrev pub find : Bytes → Memory → Lookup
find k db = or_missing (lookup k db.table)

abbrev pub rerun : Config → Dict ℕ ℕ → Option (Bytes × Lookup) → Dict ℕ ℕ
rerun c reserve none = reserve
rerun c reserve (some (op, before)) = reserve_after c op reserve before

abbrev pub add_found : Bytes → Lookup → Dict Bytes Bytes → Dict Bytes Bytes
add_found k (found v) d = (k, v) ∷ d
add_found k _ d = d

unfoldable pub scan_table : Bytes → Dict Bytes Lookup → Dict Bytes Bytes
scan_table prefix [] = []
scan_table prefix ((k, l) ∷ d) =
    let rest = erase k (scan_table prefix d) in
    if starts_with prefix k then add_found k l rest else rest

module _ (c : Config) where
  abbrev pub merge_memory : Bytes → Bytes → Memory → Memory
  merge_memory k op db = record {
    table = assign k (after_merge c op (find k db)) db.table;
    last = assign k (op, find k db) db.last;
  }

abbrev pub delete_memory : Bytes → Memory → Memory
delete_memory k db = record { table = erase k db.table; last = erase k db.last }

abbrev pub delete_put_memory : Bytes → Bytes → Bytes → Memory → Memory
delete_put_memory old new v db = record {
  table = assign new (found v) (erase old db.table);
  last = erase new (erase old db.last);
}

or_missing-if :
    (b : Bool) (x y : Option Lookup)
    → or_missing (if b then x else y) ≡ (if b then or_missing x else or_missing y)
or_missing-if true x y = refl
or_missing-if false x y = refl

pub find-assign :
    (k j : Bytes) (l : Lookup) (d : Dict Bytes Lookup)
    → or_missing (lookup j (assign k l d)) ≡ (if k == j then l else or_missing (lookup j d))
find-assign k j l d =
    ap or_missing (lookup-assign k j l d) ∙ or_missing-if (k == j) (some l) (lookup j d)

pub find-erase :
    (k j : Bytes) (d : Dict Bytes Lookup)
    → or_missing (lookup j (erase k d)) ≡ (if k == j then missing else or_missing (lookup j d))
find-erase k j d = ap or_missing (lookup-erase k j d) ∙ or_missing-if (k == j) none (lookup j d)

pub some-eq {ℓ} : {A : Type ℓ} {a b : A} → some a ≡ some b → a ≡ b
some-eq h = cc

-- An entry in front, at its own key and at another one.
scan-here :
    (b : Bool) (k : Bytes) (l : Lookup) (rest : Dict Bytes Bytes)
    → lookup k rest ≡ none
    → lookup k (if b then add_found k l rest else rest) ≡ (if b then value_of l else none)
unfolding lookup
scan-here true k (found v) rest h = rw (beq_refl k) refl
scan-here true k missing rest h = h
scan-here true k unreadable rest h = h
scan-here false k l rest h = h

scan-other :
    (b : Bool) (k j : Bytes) (l : Lookup) (rest : Dict Bytes Bytes)
    → (j == k) ≡ false
    → lookup k (if b then add_found j l rest else rest) ≡ lookup k rest
unfolding lookup
scan-other true k j (found v) rest h = rw h refl
scan-other true k j missing rest h = refl
scan-other true k j unreadable rest h = refl
scan-other false k j l rest h = refl

pub lookup-scan_table :
    (prefix k : Bytes) (d : Dict Bytes Lookup)
    → lookup k (scan_table prefix d)
      ≡ (if starts_with prefix k then value_of (or_missing (lookup k d)) else none)
unfolding scan_table lookup
lookup-scan_table prefix k [] = ground arith
lookup-scan_table prefix k ((j, l) ∷ d) = elim (Bool-cases (j == k)) [
  | inl here ↦ rw here (
      subst
        (λ (i : Bytes).
          lookup k (
            if starts_with prefix i
            then add_found i l (erase i (scan_table prefix d))
            else erase i (scan_table prefix d))
          ≡ (if starts_with prefix k then value_of l else none))
        (sym ((bytes_eq.beq_iff j k).0 here))
        (scan-here (starts_with prefix k) k l (erase k (scan_table prefix d))
          (lookup-erase k k (scan_table prefix d) ∙ rw (beq_refl k) refl)))
  | inr other ↦ rw other (
      scan-other (starts_with prefix j) k j l (erase j (scan_table prefix d)) other
      ∙ lookup-erase j k (scan_table prefix d)
      ∙ rw other (lookup-scan_table prefix k d))
]

-- What a scan lists is in the table.
abbrev pub IsScanned : Bytes → Dict Bytes Lookup → Bytes × Bytes → Type 0
IsScanned prefix d entry =
    (starts_with prefix entry.0 ≡ true) × (or_missing (lookup entry.0 d) ≡ found entry.1)

-- Behind an entry with key `j` only other keys are listed.
All-erase :
    (prefix j : Bytes) (l : Lookup) (d : Dict Bytes Lookup) (es : Dict Bytes Bytes)
    → All (IsScanned prefix d) es
    → All (IsScanned prefix ((j, l) ∷ d)) (erase j es)
unfolding erase lookup
All-erase prefix j l d [] h = tt
All-erase prefix j l d ((k, v) ∷ es) ((starts, there), more) = elim (Bool-cases (k == j)) [
  | inl here ↦ rw here (All-erase prefix j l d es more)
  | inr other ↦ rw other ((starts, rw (flipped j k other) there), All-erase prefix j l d es more)
]
  where
    flipped : (a b : Bytes) → (b == a) ≡ false → (a == b) ≡ false
    flipped a b h = ground (arith, h, bytes_eq.beq_iff a b, bytes_eq.beq_iff b a)

front-IsFound :
    (prefix j : Bytes) (l : Lookup) (d : Dict Bytes Lookup) (es : Dict Bytes Bytes)
    → starts_with prefix j ≡ true
    → All (IsScanned prefix d) es
    → All (IsScanned prefix ((j, l) ∷ d)) (add_found j l (erase j es))
unfolding lookup
front-IsFound prefix j missing d es starts h = All-erase prefix j missing d es h
front-IsFound prefix j unreadable d es starts h = All-erase prefix j unreadable d es h
front-IsFound prefix j (found v) d es starts h =
    ((starts, rw (beq_refl j) refl), All-erase prefix j (found v) d es h)

pub scan_table-IsFound :
    (prefix : Bytes) (d : Dict Bytes Lookup) → All (IsScanned prefix d) (scan_table prefix d)
unfolding scan_table
scan_table-IsFound prefix [] = tt
scan_table-IsFound prefix ((j, l) ∷ d) =
    let rest = scan_table-IsFound prefix d in
    elim (Bool-cases (starts_with prefix j)) [
      | inl starts ↦ rw starts (front-IsFound prefix j l d (scan_table prefix d) starts rest)
      | inr other ↦ rw other (All-erase prefix j l d (scan_table prefix d) rest)
    ]

pub lookup-assign_self {ℓ} :
    {V : Type ℓ} (k : Bytes) (v : V) (d : Dict Bytes V) → lookup k (assign k v d) ≡ some v
lookup-assign_self k v d = lookup-assign k k v d ∙ rw (beq_refl k) refl

abbrev pub memory : (c : Config) → RocksDb c
memory c = record {
  Db = Memory;
  get_value = find;
  reserved = λ k db reserve. rerun c reserve (lookup k db.last);
  merge = λ k op db. some (merge_memory c k op db);
  delete = λ k db. some (delete_memory k db);
  delete_put = λ old new v db. some (delete_put_memory old new v db);
  scan = λ prefix db. scan_table prefix db.table;
  get-merge = λ k j op db db' h.
      subst
        (λ (m : Memory). find j m ≡ (if k == j then after_merge c op (find k db) else find j db))
        (some-eq h) (find-assign k j (after_merge c op (find k db)) db.table);
  get-delete = λ k j db db' h.
      subst (λ (m : Memory). find j m ≡ (if k == j then missing else find j db)) (some-eq h)
        (find-erase k j db.table);
  get-delete_put = λ old new v j db db' h.
      subst
        (λ (m : Memory).
          find j m ≡ (if new == j then found v else if old == j then missing else find j db))
        (some-eq h)
        (find-assign new j (found v) (erase old db.table)
          ∙ ap (λ (x : Lookup). if new == j then found v else x) (find-erase old j db.table));
  reserved-merge = λ k size merge_id db db' reserve h.
      subst
        (λ (m : Memory).
          lookup merge_id (rerun c reserve (lookup k m.last))
          ≡ lookup merge_id (
              reserve_after c (serialize_operand (increase_size size merge_id true)) reserve
                (find k db)))
        (some-eq h)
        (ap (λ (o : Option (Bytes × Lookup)). lookup merge_id (rerun c reserve o))
          (lookup-assign_self k (serialize_operand (increase_size size merge_id true), find k db)
            db.last));
  scan-IsFound = λ prefix db. scan_table-IsFound prefix db.table;
  lookup-scan = λ prefix k db. lookup-scan_table prefix k db.table;
}

pub memory-Accepts : (c : Config) → Accepts (memory c)
memory-Accepts c = record {
  merges = λ k op db. (merge_memory c k op db, refl);
  deletes = λ k db. (delete_memory k db, refl);
}
