-- ===== src/Data/Write/Folds.antt =====
-- What one host's view holds after the whole loop.
use gekko_fs.Base.{
  ℕ, zero, suc, ◌+◌, ◌-◌, ◌/◌, ◌^◌, ◌≤◌, ◌<◌, ◌≡◌, refl, sym, ap, ◌∙◌, Bool, true, false, ◌&&◌,
  ◌||◌, arith, eqb, leb, ltb, if◌then◌else◌, List, [], ◌∷◌, ◌++◌, length, Bool-cases, eqb_iff, inl,
  inr, All, append_assoc, append-nil,
}
use gekko_fs.Base.Eq.{nat_eq}
use gekko_fs.Common.Bitset.{get_bitset, get_bitset-set_bitset, length-set_bitset, set_bitset-bytes}
use gekko_fs.Data.Write.{
  Plan, contains, Span, chnk_total, place_copies, first_copy, copy_count, place_chunks,
}
use gekko_fs.Data.Write.Views.{HostView, view, touch, serves, AreApart, view-place_copies}

unfoldable pub touch_all : Span → List ℕ → HostView → HostView
touch_all s [] v = v
touch_all s (c ∷ cs) v = touch_all s cs (touch s c v)

-- The chunks that pass a test among `n` chunks from `chnk_id` on, in order.
module _ (chosen : ℕ → Bool) where
  unfoldable pub served : ℕ → ℕ → List ℕ
  served chnk_id zero = []
  served chnk_id (suc n) =
      let rest = served (chnk_id + 1) n in if chosen chnk_id then chnk_id ∷ rest else rest

  pub contains-served :
      (c chnk_id n : ℕ)
      → contains c (served chnk_id n)
        ≡ (if leb chnk_id c && ltb c (chnk_id + n) then chosen c else false)
  unfolding contains served
  contains-served c chnk_id zero = ground arith
  contains-served c chnk_id (suc n) = elim (Bool-cases (eqb chnk_id c)) [
    | inl e ↦ ground (arith, contains-served c (chnk_id + 1) n, ap chosen ((eqb_iff chnk_id c).0 e))
    | inr ne ↦ ground (arith, contains-served c (chnk_id + 1) n)
  ]

  pub length-served : (chnk_id n : ℕ) → length (served chnk_id n) ≤ n
  unfolding served
  length-served chnk_id zero = omega arith
  length-served chnk_id (suc n) = ground (arith, length-served (chnk_id + 1) n)

  pub All-served :
      (lo hi chnk_id n : ℕ)
      → lo ≤ chnk_id
      → chnk_id + n ≤ hi + 1
      → All (λ c. (lo ≤ c) × (c ≤ hi)) (served chnk_id n)
  unfolding served
  All-served lo hi chnk_id zero h k = tt
  All-served lo hi chnk_id (suc n) h k =
      split (chosen chnk_id) (served (chnk_id + 1) n)
        (All-served lo hi (chnk_id + 1) n (omega arith) (omega arith))
    where
      split :
          (b : Bool) (cs : List ℕ)
          → All (λ c. (lo ≤ c) × (c ≤ hi)) cs
          → All (λ c. (lo ≤ c) × (c ≤ hi)) (if b then chnk_id ∷ cs else cs)
      split true cs rest = ((h, omega arith), rest)
      split false cs rest = rest

module _ (locate : ℕ → ℕ → ℕ) (s : Span) (h num_copies : ℕ) where
  abbrev pub is_served : ℕ → Bool
  is_served chnk_id = serves locate s h chnk_id (first_copy num_copies) (copy_count num_copies)

  pub view-place_chunks :
      (chnk_id n : ℕ) (p : Plan)
      → ((c : ℕ) → AreApart locate s h c (first_copy num_copies) (copy_count num_copies))
      → view s h (place_chunks locate s num_copies chnk_id n p)
        ≡ touch_all s (served is_served chnk_id n) (view s h p)
  unfolding place_chunks served touch_all
  view-place_chunks chnk_id zero p apart = refl
  view-place_chunks chnk_id (suc n) p apart =
      let here : Plan =
        place_copies locate s chnk_id (first_copy num_copies) (copy_count num_copies) p in
      view-place_chunks (chnk_id + 1) n here apart
      ∙ ap (touch_all s (served is_served (chnk_id + 1) n)) (
          view-place_copies locate s h chnk_id (first_copy num_copies) (copy_count num_copies) p
            (apart chnk_id))
      ∙ split (is_served chnk_id)
    where
      split :
          (b : Bool)
          → touch_all s
              (served is_served (chnk_id + 1) n)
              (if b then touch s chnk_id (view s h p) else view s h p)
            ≡ touch_all s
                (if b
                  then chnk_id ∷ served is_served (chnk_id + 1) n
                  else served is_served (chnk_id + 1) n)
                (view s h p)
      split true = refl
      split false = refl

module _ (s : Span) where
  pub chunks-touch_all : (cs : List ℕ) (v : HostView) → (touch_all s cs v).chunks ≡ v.chunks ++ cs
  unfolding touch_all
  chunks-touch_all [] v = sym (append-nil v.chunks)
  chunks-touch_all (c ∷ cs) v =
      chunks-touch_all cs (touch s c v) ∙ append_assoc v.chunks (c ∷ []) cs

  pub first-touch_all :
      (cs : List ℕ) (v : HostView)
      → (touch_all s cs v).first ≡ (contains s.chnk_start cs || v.first)
  unfolding touch_all contains
  first-touch_all [] v = refl
  first-touch_all (c ∷ cs) v = ground (arith, first-touch_all cs (touch s c v))

  pub last-touch_all :
      (cs : List ℕ) (v : HostView) → (touch_all s cs v).last ≡ (contains s.chnk_end cs || v.last)
  unfolding touch_all contains
  last-touch_all [] v = refl
  last-touch_all (c ∷ cs) v = ground (arith, last-touch_all cs (touch s c v))

  abbrev pub InSpan : ℕ → Type 0
  InSpan c = (s.chnk_start ≤ c) × (c ≤ s.chnk_end)

  pub bits-touch_all :
      (cs : List ℕ) (v : HostView) (q : ℕ)
      → All InSpan cs
      → chnk_total s ≤ 2 ^ 16
      → length v.bits ≡ (chnk_total s + 7) / 8
      → q < 2 ^ 16
      → get_bitset (touch_all s cs v).bits q
        ≡ (contains (s.chnk_start + q) cs || get_bitset v.bits q)
  unfolding touch_all contains
  bits-touch_all [] v q inside small room hq = refl
  bits-touch_all (c ∷ cs) v q inside small room hq = ground (
    arith,
    bits-touch_all cs (touch s c v) q inside.1 small
        (length-set_bitset v.bits (c - s.chnk_start) ∙ room) hq,
    get_bitset-set_bitset v.bits (c - s.chnk_start) q (omega (arith, inside.0)) hq
        (omega (arith, inside.0)),
    inside.0,
  )

  pub bytes-touch_all :
      (cs : List ℕ) (v : HostView) → length (touch_all s cs v).bits ≡ length v.bits
  unfolding touch_all
  bytes-touch_all [] v = refl
  bytes-touch_all (c ∷ cs) v =
      bytes-touch_all cs (touch s c v) ∙ length-set_bitset v.bits (c - s.chnk_start)

  pub range-touch_all :
      (cs : List ℕ) (v : HostView)
      → All (λ b. b < 256) v.bits
      → All (λ b. b < 256) (touch_all s cs v).bits
  unfolding touch_all
  range-touch_all [] v h = h
  range-touch_all (c ∷ cs) v h =
      range-touch_all cs (touch s c v) (set_bitset-bytes v.bits (c - s.chnk_start) h)
