-- ===== src/Client/Cache/Sizes.antt =====
-- WriteSizeCache of src/client/cache.cpp against the history of its operations.
use gekko_fs.Base.{
  ℕ, ◌+◌, ◌≡◌, refl, sym, ap, ◌∙◌, inl, inr, Bool-cases, Option-cases, max, Bool, eqb,
  if◌then◌else◌, List, [], ◌∷◌, Option, none, some, arith,
}
use gekko_fs.Base.Eq.{Bytes, bytes_eq, ◌==◌, bytes_beq_iff}
use gekko_fs.Base.Dict.{lookup, lookup-assign, lookup-nil}
use gekko_fs.Client.Cache.{WriteSizeCache, bumped, record_size, reset, flush}

-- An operation on the cache, with its path.
pub data SizeOp : Type 0 where
  recorded : Bytes → ℕ → SizeOp
  flushed : Bytes → Bool → SizeOp

unfoldable pub apply_op : SizeOp → WriteSizeCache → WriteSizeCache
apply_op (recorded path size) c = (record_size path size c).0
apply_op (flushed path evict) c = (flush path evict c).0

-- What a history of operations, the latest first, makes of an empty cache.
unfoldable pub after_ops : List SizeOp → WriteSizeCache
after_ops [] = []
after_ops (op ∷ earlier) = apply_op op (after_ops earlier)

-- The number of sizes that were recorded for a path since its last flush.
unfoldable pub since_flush : Bytes → List SizeOp → ℕ
since_flush path [] = 0
since_flush path (recorded p size ∷ earlier) =
    if p == path then since_flush path earlier + 1 else since_flush path earlier
since_flush path (flushed p evict ∷ earlier) = if p == path then 0 else since_flush path earlier

-- The largest size that was ever recorded for a path.
unfoldable pub largest : Bytes → List SizeOp → ℕ
largest path [] = 0
largest path (recorded p size ∷ earlier) =
    if p == path then max size (largest path earlier) else largest path earlier
largest path (flushed p evict ∷ earlier) = largest path earlier

abbrev or_none : Option (ℕ × ℕ) → ℕ × ℕ
or_none none = (0, 0)
or_none (some r) = r

or_none-bumped :
    (size : ℕ) (o : Option (ℕ × ℕ)) → bumped size o ≡ ((or_none o).0 + 1, max size (or_none o).1)
or_none-bumped size none = ground arith
or_none-bumped size (some (cnt, old)) = ground arith

lookup-record_size :
    (path p : Bytes) (size : ℕ) (c : WriteSizeCache)
    → lookup path (record_size p size c).0
      ≡ (if p == path then some (bumped size (lookup p c)) else lookup path c)
unfolding record_size
lookup-record_size path p size c = lookup-assign p path (bumped size (lookup p c)) c

or_none-flush :
    (path p : Bytes) (evict : Bool) (c : WriteSizeCache)
    → or_none (lookup path (flush p evict c).0)
      ≡ (if p == path then (0, (or_none (lookup path c)).1) else or_none (lookup path c))
unfolding flush reset
or_none-flush path p evict c = elim (Option-cases (lookup p c)) [
  | inl e ↦ elim (Bool-cases (p == path)) [
    | inl same ↦
        let e' : lookup path c ≡ none =
          ap (λ (q : Bytes). lookup q c) (sym ((bytes_beq_iff p path).0 same)) ∙ e in
        rw (e, same, e') refl
    | inr apart ↦ rw (e, apart) refl
  ]
  | inr (r, e) ↦ elim (Bool-cases (p == path)) [
    | inl same ↦
        let e' : lookup path c ≡ some r =
          ap (λ (q : Bytes). lookup q c) (sym ((bytes_beq_iff p path).0 same)) ∙ e in
        rw (e, lookup-assign p path (0, r.1) c, same, e') refl
    | inr apart ↦ rw (e, lookup-assign p path (0, r.1) c, apart) refl
  ]
]

entry-after_ops :
    (path : Bytes) (ops : List SizeOp)
    → or_none (lookup path (after_ops ops)) ≡ (since_flush path ops, largest path ops)
unfolding after_ops apply_op since_flush largest
entry-after_ops path [] = ap or_none (lookup-nil path)
entry-after_ops path (recorded p size ∷ earlier) =
    rw (lookup-record_size path p size (after_ops earlier)) (elim (Bool-cases (p == path)) [
      | inl same ↦
          rw
            (
              same,
              (bytes_beq_iff p path).0 same,
              or_none-bumped size (lookup path (after_ops earlier)),
              entry-after_ops path earlier,
            )
            refl
      | inr apart ↦ rw (apart, entry-after_ops path earlier) refl
    ])
entry-after_ops path (flushed p evict ∷ earlier) =
    ground (arith, entry-after_ops path earlier, or_none-flush path p evict (after_ops earlier))

sent-flush :
    (path : Bytes) (evict : Bool) (c : WriteSizeCache)
    → (flush path evict c).1
      ≡ (if eqb (or_none (lookup path c)).0 0 then none else some (or_none (lookup path c)).1)
unfolding flush reset
sent-flush path evict c = elim (Option-cases (lookup path c)) [
  | inl e ↦ rw e refl
  | inr (r, e) ↦ rw e refl
]

-- After any history of records and flushes a flush sends the largest size that was ever recorded
-- for its path, if one was recorded since the last flush, and nothing otherwise, also if the
-- flushes before were to evict the path.
pub flush-largest :
    (path : Bytes) (evict : Bool) (ops : List SizeOp)
    → (flush path evict (after_ops ops)).1
      ≡ (if eqb (since_flush path ops) 0 then none else some (largest path ops))
unfolding flush reset
flush-largest path evict ops =
    sent-flush path evict (after_ops ops) ∙ rw (entry-after_ops path ops) refl
