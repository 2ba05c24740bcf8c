-- ===== src/Client/Cache/Dentries.antt =====
-- DentryCache of src/client/cache.cpp: what a client finds after its operations.
use gekko_fs.Base.{
  ℕ, ◌≡◌, refl, ap, ◌∙◌, inl, inr, not, ◌&&◌, eqb, if◌then◌else◌, [], Option, none, some, arith,
  Bool-cases, Option-cases, eqb_iff,
}
use gekko_fs.Base.Eq.{Bytes, bytes_eq, nat_eq, ◌==◌, bytes_beq_iff, beq_refl}
use gekko_fs.Base.Dict.{
  Dict, is_none, lookup, insert, lookup-assign, lookup-insert, lookup-insert_fresh, lookup-erase,
  lookup-nil,
}
use gekko_fs.Client.Cache.{
  CacheEntry, DentryCache, names_of, gen_dir_id, get_dir_id, insert_entry, get_entry, clear_dir,
  clear,
}

lookup-insert_if :
    (id id' : ℕ) (name name' : Bytes) (value : CacheEntry) (m : ℕ → Dict Bytes CacheEntry)
    → lookup name' (if eqb id id' then insert name value (m id) else m id') ≡ (
        if eqb id id' && (name == name') && is_none (lookup name' (m id'))
        then some value
        else lookup name' (m id'))
lookup-insert_if id id' name name' value m = elim (Bool-cases (eqb id id')) [
  | inl e ↦
      rw ((eqb_iff id id').0 e, beq_refl id')
        (elim (Bool-cases (name == name')) [
          | inl same ↦
              rw ((bytes_beq_iff name name').0 same, beq_refl name')
                (lookup-insert name' name' value (m id') ∙ rw (beq_refl name') refl)
          | inr apart ↦ rw apart (lookup-insert name name' value (m id') ∙ rw apart (ground arith))
        ])
  | inr e ↦ rw e refl
]

module _ (str_hash : Bytes → ℕ) where
  -- The ids of the directories are those that the hash gives.
  pub record HasIds (c : DentryCache) : Type 0 where
    pub dir_ids :
        (dir : Bytes) (dir_id : ℕ)
        → lookup dir c.entry_dir_id ≡ some dir_id
        → dir_id ≡ gen_dir_id str_hash dir

  get_dir_id-eq :
      (dir : Bytes) (c : DentryCache)
      → HasIds c
      → (get_dir_id str_hash dir c).1 ≡ gen_dir_id str_hash dir
  unfolding get_dir_id
  get_dir_id-eq dir c h = elim (Option-cases (lookup dir c.entry_dir_id)) [
    | inl e ↦ rw e refl
    | inr (dir_id, e) ↦ rw e (h.dir_ids dir dir_id e)
  ]

  get_dir_id-entries :
      (dir : Bytes) (c : DentryCache) → (get_dir_id str_hash dir c).0.entries ≡ c.entries
  unfolding get_dir_id
  get_dir_id-entries dir c = elim (Option-cases (lookup dir c.entry_dir_id)) [
    | inl e ↦ rw e refl
    | inr (dir_id, e) ↦ rw e refl
  ]

  get_dir_id-HasIds :
      (dir : Bytes) (c : DentryCache) → HasIds c → HasIds (get_dir_id str_hash dir c).0
  unfolding get_dir_id
  get_dir_id-HasIds dir c h = elim (Option-cases (lookup dir c.entry_dir_id)) [
    | inl e ↦ rw e (record {
      dir_ids = λ d i p. ground (
        arith,
        p,
        lookup-insert_fresh dir d (gen_dir_id str_hash dir) c.entry_dir_id e,
        bytes_beq_iff dir d,
        h.dir_ids d i,
      );
    })
    | inr (dir_id, e) ↦ rw e h
  ]

  -- The name of a directory in the cache.
  abbrev pub found : DentryCache → Bytes → Bytes → Option CacheEntry
  found c dir name = (get_entry str_hash dir name c).1

  found-eq :
      (c : DentryCache) (dir name : Bytes)
      → HasIds c
      → found c dir name ≡ lookup name (names_of (gen_dir_id str_hash dir) c)
  unfolding get_entry
  found-eq c dir name h = rw (get_dir_id-eq dir c h, get_dir_id-entries dir c) refl

  insert_entry-HasIds :
      (dir name : Bytes) (value : CacheEntry) (c : DentryCache)
      → HasIds c
      → HasIds (insert_entry str_hash dir name value c)
  unfolding insert_entry
  insert_entry-HasIds dir name value c h = record { dir_ids = (get_dir_id-HasIds dir c h).dir_ids }

  get_entry-HasIds :
      (dir name : Bytes) (c : DentryCache) → HasIds c → HasIds (get_entry str_hash dir name c).0
  unfolding get_entry
  get_entry-HasIds dir name c h = record { dir_ids = (get_dir_id-HasIds dir c h).dir_ids }

  clear_dir-HasIds : (dir : Bytes) (c : DentryCache) → HasIds c → HasIds (clear_dir dir c)
  unfolding clear_dir
  clear_dir-HasIds dir c h = elim (Option-cases (lookup dir c.entry_dir_id)) [
    | inl e ↦ rw e h
    | inr (dir_id, e) ↦ rw e (record {
      dir_ids = λ d i p. ground (arith, p, lookup-erase dir d c.entry_dir_id, h.dir_ids d i);
    })
  ]

  -- What a lookup finds after an insertion.
  abbrev pub after_insert :
      DentryCache → Bytes → Bytes → CacheEntry → Bytes → Bytes → Option CacheEntry
  after_insert c dir name value dir' name' =
      if eqb (gen_dir_id str_hash dir) (gen_dir_id str_hash dir')
        && (name == name')
        && is_none (found c dir' name')
      then some value
      else found c dir' name'

  insert_entry-names :
      (c : DentryCache) (dir name : Bytes) (value : CacheEntry) (id : ℕ)
      → HasIds c
      → names_of id (insert_entry str_hash dir name value c) ≡ (
          if eqb (gen_dir_id str_hash dir) id
          then insert name value (names_of (gen_dir_id str_hash dir) c)
          else names_of id c)
  unfolding insert_entry
  insert_entry-names c dir name value id h =
      rw
        (
          get_dir_id-eq dir c h,
          get_dir_id-entries dir c,
          lookup-assign (gen_dir_id str_hash dir) id
              (insert name value (names_of (gen_dir_id str_hash dir) c)) c.entries,
        )
        (elim (Bool-cases (eqb (gen_dir_id str_hash dir) id)) [
          | inl e ↦ rw e refl
          | inr e ↦ rw e refl
        ])

  -- A name is found from its first insertion on, in all directories with the id of its own.
  pub found-insert :
      (c : DentryCache) (dir name : Bytes) (value : CacheEntry) (dir' name' : Bytes)
      → HasIds c
      → found (insert_entry str_hash dir name value c) dir' name'
        ≡ after_insert c dir name value dir' name'
  found-insert c dir name value dir' name' h =
      found-eq (insert_entry str_hash dir name value c) dir' name'
        (insert_entry-HasIds dir name value c h)
      ∙ rw
          (
            insert_entry-names c dir name value (gen_dir_id str_hash dir') h,
            found-eq c dir' name' h,
          )
          (lookup-insert_if (gen_dir_id str_hash dir) (gen_dir_id str_hash dir') name name' value
            (λ id. names_of id c))

  -- What a lookup finds after a directory is cleared.
  abbrev pub after_clear : DentryCache → Bytes → Bytes → Bytes → Option CacheEntry
  after_clear c dir dir' name =
      if not (is_none (lookup dir c.entry_dir_id))
        && eqb (gen_dir_id str_hash dir) (gen_dir_id str_hash dir')
      then none
      else found c dir' name

  -- Nothing is found where a directory with the same id was cleared.
  pub found-clear_dir :
      (c : DentryCache) (dir dir' name : Bytes)
      → HasIds c
      → found (clear_dir dir c) dir' name ≡ after_clear c dir dir' name
  unfolding clear_dir
  found-clear_dir c dir dir' name h =
      found-eq (clear_dir dir c) dir' name (clear_dir-HasIds dir c h)
      ∙ rw (found-eq c dir' name h) (elim (Option-cases (lookup dir c.entry_dir_id)) [
        | inl e ↦ rw e refl
        | inr (dir_id, e) ↦
            rw (e, lookup-erase dir_id (gen_dir_id str_hash dir') c.entries, h.dir_ids dir dir_id e)
              (elim (Bool-cases (eqb (gen_dir_id str_hash dir) (gen_dir_id str_hash dir'))) [
                | inl same ↦ rw same (lookup-nil name)
                | inr apart ↦ rw apart refl
              ])
      ])

  pub found-clear : (c : DentryCache) (dir name : Bytes) → found (clear c) dir name ≡ none
  unfolding clear get_entry get_dir_id
  found-clear c dir name =
      rw (lookup-nil {V = ℕ} dir, lookup-nil {V = Dict Bytes CacheEntry} (gen_dir_id str_hash dir))
        (lookup-nil name)

  -- The caches that the operations make of the one that a client starts with.
  pub data Used : DentryCache → Type 0 where
    new : (c : DentryCache) → c.entry_dir_id ≡ [] → Used c
    inserted :
        {c : DentryCache} (dir name : Bytes) (value : CacheEntry)
        → Used c
        → Used (insert_entry str_hash dir name value c)
    looked_up :
        {c : DentryCache} (dir name : Bytes) → Used c → Used (get_entry str_hash dir name c).0
    cleared_dir : {c : DentryCache} (dir : Bytes) → Used c → Used (clear_dir dir c)
    cleared : {c : DentryCache} → Used c → Used (clear c)

  new-HasIds : (c : DentryCache) → c.entry_dir_id ≡ [] → HasIds c
  new-HasIds c e = record {
    dir_ids = λ dir dir_id p. ground (arith, p, lookup-nil {V = ℕ} dir, ap (lookup dir) e);
  }

  Used-HasIds : {c : DentryCache} → Used c → HasIds c
  unfolding clear
  Used-HasIds (new c e) = new-HasIds c e
  Used-HasIds (inserted {c} dir name value u) = insert_entry-HasIds dir name value c (Used-HasIds u)
  Used-HasIds (looked_up {c} dir name u) = get_entry-HasIds dir name c (Used-HasIds u)
  Used-HasIds (cleared_dir {c} dir u) = clear_dir-HasIds dir c (Used-HasIds u)
  Used-HasIds (cleared {c} u) = new-HasIds (clear c) refl

  -- In a cache that the operations of the client have made of a new one, a name is found after its
  -- insertion in every directory with the id of its own, with the value of its first insertion, and
  -- after a directory that is known is cleared nothing is found in the directories with its id; all
  -- else is found as before.
  pub insert-clear_dir :
      {c : DentryCache} (dir name : Bytes) (value : CacheEntry) (dir' name' : Bytes)
      → Used c
      → (found (insert_entry str_hash dir name value c) dir' name'
          ≡ after_insert c dir name value dir' name')
        × (found (clear_dir dir c) dir' name' ≡ after_clear c dir dir' name')
  insert-clear_dir {c} dir name value dir' name' u = (
    found-insert c dir name value dir' name' (Used-HasIds u),
    found-clear_dir c dir dir' name' (Used-HasIds u),
  )
