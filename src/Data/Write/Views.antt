-- ===== src/Data/Write/Views.antt =====
-- The plan of a write, seen by one host: the loops act on it as one fold over the chunks.
use gekko_fs.Base.{
  ℕ, zero, suc, ◌+◌, ◌-◌, ◌≡◌, refl, Bool, true, false, ◌||◌, arith, eqb, if◌then◌else◌, List, [],
  ◌∷◌, ◌++◌,
}
use gekko_fs.Base.Eq.{Bytes, nat_eq}
use gekko_fs.Base.Dict.{lookup, lookup-assign}
use gekko_fs.Common.Bitset.{set_bitset}
use gekko_fs.Data.Write.{Plan, or_default, contains, Span, no_chunks, place_chunk, place_copies}

pub record HostView : Type 0 where
  pub chunks : List ℕ
  pub first : Bool
  pub last : Bool
  pub bits : Bytes

unfoldable pub view : Span → ℕ → Plan → HostView
view s h p = record {
  chunks = or_default (lookup h p.target_chnks) [];
  first = contains h p.start_targets;
  last = contains h p.end_targets;
  bits = or_default (lookup h p.write_ops) (no_chunks s);
}

-- What one chunk adds to the view of its host.
abbrev pub touch : Span → ℕ → HostView → HostView
touch s chnk_id v = record {
  chunks = v.chunks ++ chnk_id ∷ [];
  first = eqb chnk_id s.chnk_start || v.first;
  last = eqb chnk_id s.chnk_end || v.last;
  bits = set_bitset v.bits (chnk_id - s.chnk_start);
}

pub view-place_chunk :
    (s : Span) (h chnk_id target : ℕ) (p : Plan)
    → view s h (place_chunk s chnk_id target p)
      ≡ (if eqb target h then touch s chnk_id (view s h p) else view s h p)
unfolding view place_chunk contains
view-place_chunk s h chnk_id target p = ground (
  arith,
  lookup-assign target h (or_default (lookup target p.target_chnks) [] ++ chnk_id ∷ [])
      p.target_chnks,
  lookup-assign target h
      (set_bitset (or_default (lookup target p.write_ops) (no_chunks s)) (chnk_id - s.chnk_start))
      p.write_ops,
)

module _ (locate : ℕ → ℕ → ℕ) (s : Span) (h : ℕ) where
  -- Whether one of the copies from `copy` on goes to the host.
  unfoldable pub serves : ℕ → ℕ → ℕ → Bool
  serves chnk_id copy zero = false
  serves chnk_id copy (suc n) = eqb (locate chnk_id copy) h || serves chnk_id (copy + 1) n

  -- No host holds two copies of the chunk.
  abbrev pub AreApart : ℕ → ℕ → ℕ → Type 0
  AreApart chnk_id copy zero = Unit {0}
  AreApart chnk_id copy (suc n) =
      (eqb (locate chnk_id copy) h ≡ true → serves chnk_id (copy + 1) n ≡ false)
      × AreApart chnk_id (copy + 1) n

  pub view-place_copies :
      (chnk_id copy n : ℕ) (p : Plan)
      → AreApart chnk_id copy n
      → view s h (place_copies locate s chnk_id copy n p)
        ≡ (if serves chnk_id copy n then touch s chnk_id (view s h p) else view s h p)
  unfolding place_copies serves
  view-place_copies chnk_id copy zero p apart = refl
  view-place_copies chnk_id copy (suc n) p apart = ground (
    arith,
    view-place_copies chnk_id (copy + 1) n (place_chunk s chnk_id (locate chnk_id copy) p) apart.1,
    view-place_chunk s h chnk_id (locate chnk_id copy) p,
    apart.0,
  )
