-- ===== src/Data/Read.antt =====
-- The choice of the host that a chunk is read from, in forward_read of src/client/rpc/forward_data.cpp.
-- `locate` is the host of a copy of the chunk, and `failed` the hosts that did not answer. The results
-- of rand() are a list; `none` is a loop that is not at its end when the list is.
use gekko_fs.Base.{
  ℕ, ◌%◌, ◌^◌, ◌<◌, ◌≡◌, refl, ap, arith, Bool, map, true, false, ltb, if◌then◌else◌, List, [], ◌∷◌,
  ◌++◌, Option, none, some, inl, inr, Bool-cases, lt→ltb,
}
use gekko_fs.Data.Write.{contains}

-- `failed` is a std::set<int8_t>: the hosts are compared by their low eight bits.
abbrev pub narrow : ℕ → ℕ
narrow host = host % 2 ^ 8

unfoldable pub is_failed : List ℕ → ℕ → Bool
is_failed failed target = contains (narrow target) (map narrow failed)

is_failed-contains :
    (failed : List ℕ) (target : ℕ) → contains target failed ≡ true → is_failed failed target ≡ true
unfolding is_failed contains
is_failed-contains [] target e = absurd (ground (arith, e))
is_failed-contains (h ∷ failed) target e = elim (Bool-cases (contains target failed)) [
  | inl later ↦ ground (arith, is_failed-contains failed target later)
  | inr here ↦ ground (arith, e, here, ap narrow {x = h} {y = target})
]

contains-other :
    (failed : List ℕ) (target : ℕ)
    → is_failed failed target ≡ false
    → contains target failed ≡ false
contains-other failed target e = elim (Bool-cases (contains target failed)) [
  | inl member ↦ ground (arith, e, is_failed-contains failed target member)
  | inr other ↦ other
]

module _ (locate : ℕ → ℕ) (failed : List ℕ) where
  -- while(failed.find(target) != failed.end()) target = locate_data(path, chnk_id, rand() % num_copies);
  unfoldable pub reselect : ℕ → List ℕ → ℕ → Option ℕ
  reselect num_copies [] target = if is_failed failed target then none else some target
  reselect num_copies (r ∷ rands) target =
      let next = reselect num_copies rands (locate (r % num_copies)) in
      if is_failed failed target then next else some target

  unfoldable pub read_target : ℕ → List ℕ → Option ℕ
  read_target num_copies rands =
      if ltb 0 num_copies then reselect num_copies rands (locate 0) else some (locate 0)

  reselect-same :
      (num_copies : ℕ) (rands : List ℕ) (target : ℕ)
      → is_failed failed target ≡ false
      → reselect num_copies rands target ≡ some target
  unfolding reselect
  reselect-same num_copies [] target e = rw e refl
  reselect-same num_copies (r ∷ rands) target e = rw e refl

  -- What the loop ends with has not failed.
  reselect-ends :
      (num_copies : ℕ) (before : List ℕ) (r : ℕ) (after : List ℕ) (target : ℕ)
      → is_failed failed (locate (r % num_copies)) ≡ false
      → (t : ℕ) × (reselect num_copies (before ++ r ∷ after) target ≡ some t)
        × (contains t failed ≡ false)
  unfolding reselect
  reselect-ends num_copies [] r after target ok = elim (Bool-cases (is_failed failed target)) [
    | inl e ↦ (
      locate (r % num_copies),
      rw (e, reselect-same num_copies after (locate (r % num_copies)) ok) refl,
      contains-other failed (locate (r % num_copies)) ok,
    )
    | inr e ↦ (target, rw e refl, contains-other failed target e)
  ]
  reselect-ends num_copies (x ∷ before) r after target ok =
      elim (Bool-cases (is_failed failed target)) [
        | inl e ↦
            (let (t, run, fine) =
                reselect-ends num_copies before r after (locate (x % num_copies)) ok in
              (t, rw e run, fine))
        | inr e ↦ (target, rw e refl, contains-other failed target e)
      ]

  reselect-stuck :
      (num_copies : ℕ) (rands : List ℕ) (target : ℕ)
      → 0 < num_copies
      → ((copy : ℕ) → copy < num_copies → is_failed failed (locate copy) ≡ true)
      → is_failed failed target ≡ true
      → reselect num_copies rands target ≡ none
  unfolding reselect
  reselect-stuck num_copies [] target pos all e = rw e refl
  reselect-stuck num_copies (r ∷ rands) target pos all e = rw e (
      reselect-stuck num_copies rands (locate (r % num_copies)) pos all
        (all (r % num_copies) (omega arith)))

  -- The choice of the host to read a chunk from ends, with a host that has not failed, if one of
  -- the random numbers chooses a copy on a host that shares its low eight bits with no host that
  -- has failed.
  pub read_target-ends :
      (num_copies : ℕ) (before : List ℕ) (r : ℕ) (after : List ℕ)
      → 0 < num_copies
      → is_failed failed (locate (r % num_copies)) ≡ false
      → (t : ℕ) × (read_target num_copies (before ++ r ∷ after) ≡ some t)
        × (contains t failed ≡ false)
  unfolding read_target
  read_target-ends num_copies before r after pos ok =
      let (t, run, fine) = reselect-ends num_copies before r after (locate 0) ok in
      (t, rw (lt→ltb 0 num_copies pos) run, fine)

  -- The choice of the host to read a chunk from does not end, whatever the random numbers are, if
  -- there are replicas and the hosts of the original and of all replicas but the last one have
  -- failed.
  pub read_target-stuck :
      (num_copies : ℕ) (rands : List ℕ)
      → 0 < num_copies
      → ((copy : ℕ) → copy < num_copies → contains (locate copy) failed ≡ true)
      → read_target num_copies rands ≡ none
  unfolding read_target
  read_target-stuck num_copies rands pos all = rw (lt→ltb 0 num_copies pos) (
      reselect-stuck num_copies rands (locate 0) pos
        (λ copy few. is_failed-contains failed (locate copy) (all copy few))
        (is_failed-contains failed (locate 0) (all 0 pos)))
