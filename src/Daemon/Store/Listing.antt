-- ===== src/Daemon/Store/Listing.antt =====
-- The entries of a directory: get_dirents of src/daemon/backend/metadata/rocksdb_backend.cpp.
use gekko_fs.Base.{
  ◌≡◌, refl, sym, ap, ap₂, ◌∙◌, Bool, true, false, not, ◌&&◌, arith, if◌then◌else◌, [], ◌∷◌, ◌++◌,
  length, drop, Option, none, some, All, Bool-cases, inl, inr, subst, eqb_iff, false≢true,
  drop-length-append,
}
use gekko_fs.Base.Eq.{Bytes, ◌==◌, bytes_eq}
use gekko_fs.Base.Dict.{Dict, lookup, is_none}
use gekko_fs.Common.Metadata.{Metadata, Config, serialize, parse}
use gekko_fs.Common.Metadata.RoundTrip.{kept, parse-serialize}
use gekko_fs.Daemon.Store.{found, RocksDb, starts_with}
use gekko_fs.Daemon.Store.Merges.{InRange, text_of}
use gekko_fs.Daemon.Store.Backend.{is_first_level, is_renamed, dirents_loop}

-- A key that starts with the prefix is the prefix and what is behind it.
starts_with-split :
    (root key : Bytes) → starts_with root key ≡ true → key ≡ root ++ drop (length root) key
unfolding starts_with
starts_with-split [] key h = refl
starts_with-split (p ∷ ps) [] h = cc
starts_with-split (p ∷ ps) (k ∷ ks) h = ground (arith, h, eqb_iff p k, starts_with-split ps ks)

none_and {ℓ} :
    {A : Type ℓ} (a b : Bool) (o : Option A)
    → (if a then o else none) ≡ none
    → (if a && b then o else none) ≡ none
none_and true true o h = h
none_and true false o h = refl
none_and false b o h = refl

module _ {c : Config} (rdb : RocksDb c) (root : Bytes) (files : Bytes → Option Metadata) where
  -- An entry of a scan, for the records that the store holds.
  abbrev pub IsEntry : Bytes × Bytes → Type 0
  IsEntry e = (starts_with root e.0 ≡ true) × (found e.1 ≡ text_of c (files e.0))

  -- Whether a name stands for a first-level entry, and the record that is shown for it.
  abbrev pub is_listed : Bytes → Bool
  is_listed name = is_first_level rdb root (root ++ name)

  abbrev pub shown : Option Metadata → Option Metadata
  shown none = none
  shown (some md) = if is_renamed rdb (kept c md) then none else some (kept c md)

  abbrev pub target : Dict Bytes Bytes → Bytes → Option Metadata
  target d name =
      if is_listed name && not (is_none (lookup (root ++ name) d))
      then shown (files (root ++ name))
      else none

  unfoldable pub IsListing : Dict Bytes Bytes → Dict Bytes Metadata → Type 0
  IsListing d es = (name : Bytes) → lookup name es ≡ target d name

  module _ (key value : Bytes) (rest : Dict Bytes Bytes) where
    target-other :
        (name : Bytes)
        → (key == root ++ name) ≡ false
        → target ((key, value) ∷ rest) name ≡ target rest name
    unfolding lookup
    target-other name other = rw other refl

    target-here :
        (name : Bytes)
        → (key == root ++ name) ≡ true
        → target ((key, value) ∷ rest) name
          ≡ (if is_listed name then shown (files (root ++ name)) else none)
    unfolding lookup
    target-here name here = rw here (
        ap (λ (b : Bool). if b then shown (files (root ++ name)) else none)
          (and_true (is_listed name)))
      where
        and_true : (b : Bool) → (b && true) ≡ b
        and_true true = refl
        and_true false = refl

    -- An entry that shows nothing at its name may be left out.
    hidden-IsListing :
        (es : Dict Bytes Metadata)
        → ((name : Bytes)
            → key ≡ root ++ name
            → (if is_listed name then shown (files (root ++ name)) else none) ≡ none)
        → IsListing rest es
        → IsListing ((key, value) ∷ rest) es
    unfolding IsListing
    hidden-IsListing es nothing law name = elim (Bool-cases (key == root ++ name)) [
      | inl here ↦
          let same : key ≡ root ++ name = (bytes_eq.beq_iff key (root ++ name)).0 here in
          law name
          ∙ none_and (is_listed name) (not (is_none (lookup (root ++ name) rest)))
              (shown (files (root ++ name))) (nothing name same)
          ∙ sym (target-here name here ∙ nothing name same)
      | inr other ↦ law name ∙ sym (target-other name other)
    ]

    -- A first-level entry that shows a record is listed under its name.
    shown-IsListing :
        (es : Dict Bytes Metadata) (md : Metadata)
        → key ≡ root ++ drop (length root) key
        → is_first_level rdb root key ≡ true
        → shown (files key) ≡ some md
        → IsListing rest es
        → IsListing ((key, value) ∷ rest) ((drop (length root) key, md) ∷ es)
    unfolding IsListing lookup
    shown-IsListing es md splits first kept_now law name = elim (Bool-cases (key == root ++ name)) [
      | inl here ↦
          let same : key ≡ root ++ name = (bytes_eq.beq_iff key (root ++ name)).0 here in
          let named : drop (length root) key ≡ name =
            ap (drop (length root)) same ∙ drop-length-append root name in
          rw ((bytes_eq.beq_iff (drop (length root) key) name).1 named) (
            sym (
              target-here name here
              ∙ ap₂ (λ (b : Bool) (o : Option Metadata). if b then o else none)
                  (ap (is_first_level rdb root) (sym same) ∙ first)
                  (ap (λ (k : Bytes). shown (files k)) (sym same) ∙ kept_now)))
      | inr other ↦ rw (elsewhere name other) (law name ∙ sym (target-other name other))
    ]
      where
        elsewhere : (n : Bytes) → (key == root ++ n) ≡ false → (drop (length root) key == n) ≡ false
        elsewhere n other = elim (Bool-cases (drop (length root) key == n)) [
          | inr no_match ↦ no_match
          | inl match ↦ absurd (
              false≢true (
                sym other
                ∙ (bytes_eq.beq_iff key (root ++ n)).1 (
                    splits
                    ∙ ap (λ (t : Bytes). root ++ t)
                        ((bytes_eq.beq_iff (drop (length root) key) n).0 match))))
        ]

  -- An entry holds the text of a record.
  entry-record :
      (o : Option Metadata) (value : Bytes)
      → found value ≡ text_of c o
      → (md : Metadata) × (o ≡ some md) × (value ≡ serialize c md)
  entry-record none value h = cc
  entry-record (some md) value h = (md, refl, cc)

  nil-IsListing : IsListing [] []
  unfolding IsListing lookup
  nil-IsListing name = sym (none_and_false (is_listed name))
    where
      none_and_false :
          (b : Bool) → (if b && false then shown (files (root ++ name)) else none) ≡ none
      none_and_false true = refl
      none_and_false false = refl

  module _ (key value : Bytes) (rest : Dict Bytes Bytes) (es : Dict Bytes Metadata) (md : Metadata)
      (record_here : files key ≡ some md) where
    deeper-IsListing :
        is_first_level rdb root key ≡ false → IsListing rest es → IsListing ((key, value) ∷ rest) es
    deeper-IsListing deeper law =
        hidden-IsListing key value rest es
          (λ name same.
            ap (λ (b : Bool). if b then shown (files (root ++ name)) else none)
              (ap (is_first_level rdb root) (sym same) ∙ deeper))
          law

    renamed-IsListing :
        is_renamed rdb (kept c md) ≡ true → IsListing rest es → IsListing ((key, value) ∷ rest) es
    renamed-IsListing renamed law =
        hidden-IsListing key value rest es
          (λ name same.
            ap (λ (o : Option Metadata). if is_listed name then o else none)
              (ap (λ (k : Bytes). shown (files k)) (sym same)
                ∙ ap shown record_here
                ∙ rw renamed refl)
            ∙ none_if (is_listed name))
          law
      where
        none_if : (b : Bool) → if◌then◌else◌ {A = Option Metadata} b none none ≡ none
        none_if true = refl
        none_if false = refl

  -- The loop over the entries of a scan lists what they show.
  pub dirents_loop-IsListing :
      (d : Dict Bytes Bytes)
      → All IsEntry d
      → ((k : Bytes) → InRange (files k))
      → (es : Dict Bytes Metadata) × (dirents_loop rdb root d ≡ some es) × IsListing d es
  unfolding dirents_loop
  dirents_loop-IsListing [] h range = ([], refl, nil-IsListing)
  dirents_loop-IsListing ((key, value) ∷ rest) ((starts, there), more) range =
      let (es, e, law) = dirents_loop-IsListing rest more range in
      let (md, record_here, text) = entry-record (files key) value there in
      let reads : parse c value ≡ some (kept c md) =
        ap (parse c) text ∙ parse-serialize c md (subst InRange record_here (range key)) in
      elim (Bool-cases (is_first_level rdb root key)) [
        | inr deeper ↦
            (es, rw deeper e, deeper-IsListing key value rest es md record_here deeper law)
        | inl first ↦ elim (Bool-cases (is_renamed rdb (kept c md))) [
          | inl renamed ↦ (
            es,
            rw (first, reads, renamed) e,
            renamed-IsListing key value rest es md record_here renamed law,
          )
          | inr plain ↦ (
            (drop (length root) key, kept c md) ∷ es,
            rw (first, reads, plain, e) refl,
            shown-IsListing key value rest es (kept c md) (starts_with-split root key starts) first
                (ap shown record_here ∙ rw plain refl) law,
          )
        ]
      ]
