-- ===== src/Common/Metadata/RoundTrip.antt =====
-- Parsing what `serialize` of src/common/metadata.cpp wrote.
use gekko_fs.Base.{
  ℕ, ◌%◌, ◌^◌, ◌<◌, ◌≡◌, refl, ap, ◌∙◌, Bool, true, false, ◌&&◌, arith, eqb, if◌then◌else◌, [], ◌∷◌,
  ◌++◌, append-nil, Option, none, some, All, Bool-cases, inl, inr,
}
use gekko_fs.Base.Eq.{Bytes}
use gekko_fs.Base.Decimal.{to_string, stoul, stol}
use gekko_fs.Base.Integers.{ℤ, pos, IsInt64}
use gekko_fs.Base.Decimal.RoundTrip.{
  EndsNumber, stoul-to_string, stol-to_string, stol-to_string_signed,
}
use gekko_fs.Common.Metadata.{
  Metadata, Config, msp, field, signed_field, paths, serialize, separated, optional, c_string,
  split_last, rename_paths, read_links, at_end, read_paths, parse,
}

-- A path with no null character, and one that is free of the separator too.
abbrev pub IsText : Bytes → Type 0
IsText = All (λ c. eqb c 0 ≡ false)

abbrev pub HasNoSeparator : Bytes → Type 0
HasNoSeparator = All (λ c. eqb c msp ≡ false)

-- What a metadata record keeps under the configuration.
abbrev pub kept : Config → Metadata → Metadata
kept c md = record {
  mode = md.mode;
  link_count = if c.use_link_cnt then md.link_count else 0;
  size = md.size;
  blocks = if c.use_blocks then md.blocks else pos 0;
  atime = if c.use_atime then md.atime else pos 0;
  mtime = if c.use_mtime then md.mtime else pos 0;
  ctime = if c.use_ctime then md.ctime else pos 0;
  target_path = if c.has_symlinks then md.target_path else [];
  rename_path = if c.has_symlinks && c.has_rename then md.rename_path else [];
}

-- The ranges of the members: the size and the times are read as signed numbers.
abbrev pub IsInRange : Metadata → Type 0
IsInRange md =
    (md.mode < 2 ^ 32)
    × (md.size < 2 ^ 63)
    × IsInt64 md.atime
    × IsInt64 md.mtime
    × IsInt64 md.ctime
    × (md.link_count < 2 ^ 64)
    × IsInt64 md.blocks
    × IsText md.target_path
    × IsText md.rename_path
    × HasNoSeparator md.rename_path

c_string-IsText : (s : Bytes) → IsText s → c_string s ≡ s
unfolding c_string
c_string-IsText [] h = refl
c_string-IsText (c ∷ cs) h = rw h.0 (ap (◌∷◌ c) (c_string-IsText cs h.1))

IsText-append : (s t : Bytes) → IsText s → IsText t → IsText (s ++ t)
IsText-append [] t h k = k
IsText-append (c ∷ cs) t h k = (h.0, IsText-append cs t h.1 k)

split_last-none : (s : Bytes) → HasNoSeparator s → split_last s ≡ none
unfolding split_last
split_last-none [] h = refl
split_last-none (c ∷ cs) h = rw (split_last-none cs h.1) (rw h.0 refl)

split_last-found : (s t : Bytes) → HasNoSeparator t → split_last (s ++ msp ∷ t) ≡ some (s, t)
unfolding split_last
split_last-found [] t h = rw (split_last-none t h) refl
split_last-found (c ∷ cs) t h = rw (split_last-found cs t h) refl

rename_paths-found : (s t : Bytes) → HasNoSeparator t → rename_paths (s ++ msp ∷ t) ≡ some (s, t)
unfolding rename_paths
rename_paths-found [] t h = ap found (split_last-found [] t h)
  where
    found : Option (Bytes × Bytes) → Option (Bytes × Bytes)
    found o = elim o [ none ↦ some (msp ∷ t, msp ∷ t) | some p ↦ some p ]
rename_paths-found (c ∷ cs) t h = ap found (split_last-found (c ∷ cs) t h)
  where
    found : Option (Bytes × Bytes) → Option (Bytes × Bytes)
    found o = elim o [ none ↦ some (c ∷ cs ++ msp ∷ t, c ∷ cs ++ msp ∷ t) | some p ↦ some p ]

EndsNumber-field :
    (flag : Bool) (n : ℕ) (rest : Bytes) → EndsNumber rest → EndsNumber (field flag n ++ rest)
unfolding field
EndsNumber-field true n rest h = refl
EndsNumber-field false n rest h = h

EndsNumber-signed_field :
    (flag : Bool) (z : ℤ) (rest : Bytes)
    → EndsNumber rest
    → EndsNumber (signed_field flag z ++ rest)
unfolding signed_field
EndsNumber-signed_field true z rest h = refl
EndsNumber-signed_field false z rest h = h

EndsNumber-paths : (c : Config) (md : Metadata) → EndsNumber (paths c md)
unfolding paths
EndsNumber-paths c md = elim (Bool-cases c.has_symlinks) [ inl e ↦ rw e refl | inr e ↦ rw e tt ]

optional-signed :
    (flag : Bool) (z : ℤ) (rest : Bytes)
    → EndsNumber rest
    → IsInt64 z
    → optional flag (pos 0) stol (signed_field flag z ++ rest)
      ≡ some ((if flag then z else pos 0), rest)
unfolding optional signed_field separated
optional-signed true z rest h k = stol-to_string_signed z rest h k
optional-signed false z rest h k = refl

optional-unsigned :
    (flag : Bool) (n : ℕ) (rest : Bytes)
    → EndsNumber rest
    → n < 2 ^ 64
    → optional flag 0 stoul (field flag n ++ rest) ≡ some ((if flag then n else 0), rest)
unfolding optional field separated
optional-unsigned true n rest h k = stoul-to_string n rest h k
optional-unsigned false n rest h k = refl

read_paths-paths :
    (c : Config) (md : Metadata)
    → IsText md.target_path
    → IsText md.rename_path
    → HasNoSeparator md.rename_path
    → read_paths c (paths c md) ≡ some ((kept c md).target_path, (kept c md).rename_path)
unfolding read_links paths at_end
read_paths-paths c md target rename plain = split c.has_symlinks c.has_rename
  where
    split :
        (links renames : Bool)
        → (if links
            then read_links renames (
                if links
                then msp ∷ (md.target_path ++ (if renames then msp ∷ md.rename_path else []))
                else [])
            else at_end (
                if links
                then msp ∷ (md.target_path ++ (if renames then msp ∷ md.rename_path else []))
                else []))
          ≡ some (
            (if links then md.target_path else []),
            (if links && renames then md.rename_path else []),
          )
    split true true =
        ap rename_paths (
          c_string-IsText (md.target_path ++ msp ∷ md.rename_path)
            (IsText-append md.target_path (msp ∷ md.rename_path) target (refl, rename)))
        ∙ rename_paths-found md.target_path md.rename_path plain
    split true false =
        ap (λ (s : Bytes). some (s, []))
          (ap c_string (append-nil md.target_path) ∙ c_string-IsText md.target_path target)
    split false renames = refl

-- Parsing the text of a metadata record gives back what the configuration keeps of it, if its
-- numbers are in their ranges, the size and the times below 2^63, its paths hold no null character
-- and the rename path no separator.
pub parse-serialize :
    (c : Config) (md : Metadata) → IsInRange md → parse c (serialize c md) ≡ some (kept c md)
unfolding parse serialize separated
parse-serialize c md (mode, size, atime, mtime, ctime, links, blocks, target, rename, plain) =
    let s₇ : Bytes = paths c md in
    let s₆ : Bytes = signed_field c.use_blocks md.blocks ++ s₇ in
    let s₅ : Bytes = field c.use_link_cnt md.link_count ++ s₆ in
    let s₄ : Bytes = signed_field c.use_ctime md.ctime ++ s₅ in
    let s₃ : Bytes = signed_field c.use_mtime md.mtime ++ s₄ in
    let s₂ : Bytes = signed_field c.use_atime md.atime ++ s₃ in
    let e₇ : EndsNumber s₇ = EndsNumber-paths c md in
    let e₆ : EndsNumber s₆ = EndsNumber-signed_field c.use_blocks md.blocks s₇ e₇ in
    let e₅ : EndsNumber s₅ = EndsNumber-field c.use_link_cnt md.link_count s₆ e₆ in
    let e₄ : EndsNumber s₄ = EndsNumber-signed_field c.use_ctime md.ctime s₅ e₅ in
    let e₃ : EndsNumber s₃ = EndsNumber-signed_field c.use_mtime md.mtime s₄ e₄ in
    let e₂ : EndsNumber s₂ = EndsNumber-signed_field c.use_atime md.atime s₃ e₃ in
    let narrow : md.mode % 2 ^ 32 ≡ md.mode = omega (arith, mode) in
    rw (stoul-to_string md.mode (msp ∷ (to_string md.size ++ s₂)) refl (omega (arith, mode))) (
      rw (stol-to_string md.size s₂ e₂ size) (
        rw (optional-signed c.use_atime md.atime s₃ e₃ atime) (
          rw (optional-signed c.use_mtime md.mtime s₄ e₄ mtime) (
            rw (optional-signed c.use_ctime md.ctime s₅ e₅ ctime) (
              rw (optional-unsigned c.use_link_cnt md.link_count s₆ e₆ links) (
                rw (optional-signed c.use_blocks md.blocks s₇ e₇ blocks)
                  (rw (read_paths-paths c md target rename plain) (rw narrow refl))))))))
