-- ===== src/Data/Write/Targets.antt =====
-- The hosts that forward_write of src/client/rpc/forward_data.cpp sends requests to: each one that
-- got a chunk, and once.
use gekko_fs.Base.{
  ℕ, zero, suc, ◌+◌, ◌≤◌, ◌<◌, ◌≡◌, refl, ap, ◌∙◌, Bool, true, false, arith, eqb, if◌then◌else◌,
  List, [], ◌∷◌, ◌++◌, Option, none, some, Bool-cases, inl, inr, eqb_iff,
}
use gekko_fs.Base.Eq.{nat_eq}
use gekko_fs.Base.Dict.{lookup, is_none, lookup-assign}
use gekko_fs.Data.Write.{
  Plan, empty_plan, or_default, Span, chnk_total, append_target, place_chunk, place_copies,
  place_chunks, plan_write, span, first_copy, copy_count,
}

-- How often a host stands in a list.
unfoldable pub count : ℕ → List ℕ → ℕ
count h [] = 0
count h (x ∷ xs) = (if eqb x h then 1 else 0) + count h xs

count-append :
    (h : ℕ) (xs : List ℕ) (x : ℕ) → count h (xs ++ x ∷ []) ≡ count h xs + (if eqb x h then 1 else 0)
unfolding count
count-append h [] x = ground arith
count-append h (y ∷ xs) x = ground (arith, count-append h xs x)

unfoldable pub got_chunk : ℕ → Plan → Bool
got_chunk h p = if is_none (lookup h p.target_chnks) then false else true

-- A host is a target once if it got a chunk, and no target otherwise.
abbrev pub IsOnce : Plan → Type 0
IsOnce p = (h : ℕ) → count h p.targets ≡ (if got_chunk h p then 1 else 0)

got_chunk-place_chunk :
    (s : Span) (chnk_id target h : ℕ) (p : Plan)
    → got_chunk h (place_chunk s chnk_id target p) ≡ (if eqb target h then true else got_chunk h p)
unfolding got_chunk place_chunk
got_chunk-place_chunk s chnk_id target h p = ground (
  arith,
  lookup-assign target h (or_default (lookup target p.target_chnks) [] ++ chnk_id ∷ [])
      p.target_chnks,
)

count-append_target :
    (o : Option (List ℕ)) (h target : ℕ) (targets : List ℕ)
    → count h (append_target o targets target)
      ≡ count h targets + (if is_none o then (if eqb target h then 1 else 0) else 0)
count-append_target none h target targets = count-append h targets target
count-append_target (some chunks) h target targets = omega arith

targets-place_chunk :
    (s : Span) (chnk_id target h : ℕ) (p : Plan)
    → count h (place_chunk s chnk_id target p).targets
      ≡ count h p.targets + (if got_chunk target p then 0 else if eqb target h then 1 else 0)
unfolding place_chunk got_chunk
targets-place_chunk s chnk_id target h p =
    ground (arith, count-append_target (lookup target p.target_chnks) h target p.targets)

place_chunk-IsOnce :
    (s : Span) (chnk_id target : ℕ) (p : Plan) → IsOnce p → IsOnce (place_chunk s chnk_id target p)
place_chunk-IsOnce s chnk_id target p once h = ground (
  arith,
  once h,
  got_chunk-place_chunk s chnk_id target h p,
  targets-place_chunk s chnk_id target h p,
  ap (λ (x : ℕ). got_chunk x p) {x = target} {y = h},
)

module _ (locate : ℕ → ℕ → ℕ) (s : Span) where
  -- Without replicas each chunk has one host.
  place_one :
      (chnk_id : ℕ) (p : Plan)
      → place_copies locate s chnk_id (first_copy 0) (copy_count 0) p
        ≡ place_chunk s chnk_id (locate chnk_id 0) p
  unfolding place_copies
  place_one chnk_id p = refl

  targets_lem :
      (chnk_id n : ℕ) (p : Plan)
      → IsOnce p
      → IsOnce (place_chunks locate s 0 chnk_id n p)
        × ((h : ℕ)
            → got_chunk h p ≡ true
            → got_chunk h (place_chunks locate s 0 chnk_id n p) ≡ true)
        × ((c : ℕ)
            → chnk_id ≤ c
            → c < chnk_id + n
            → got_chunk (locate c 0) (place_chunks locate s 0 chnk_id n p) ≡ true)
  unfolding place_chunks place_copies
  targets_lem chnk_id zero p once = (once, λ h got. got, λ c lo hi. absurd (omega arith))
  targets_lem chnk_id (suc n) p once =
      let next : Plan = place_chunk s chnk_id (locate chnk_id 0) p in
      let (once', keeps, finds) =
        targets_lem (chnk_id + 1) n next (place_chunk-IsOnce s chnk_id (locate chnk_id 0) p once) in
      (
        once',
        λ h got.
            keeps h (ground (arith, got, got_chunk-place_chunk s chnk_id (locate chnk_id 0) h p)),
        λ c lo hi. elim (Bool-cases (eqb chnk_id c)) [
          | inl here ↦ keeps (locate c 0) (
              ground (
                arith,
                got_chunk-place_chunk s chnk_id (locate chnk_id 0) (locate c 0) p,
                ap (λ (x : ℕ). locate x 0) ((eqb_iff chnk_id c).0 here),
              ))
          | inr later ↦ finds c (ground arith) (omega arith)
        ],
      )

empty-IsOnce : IsOnce empty_plan
unfolding count got_chunk lookup
empty-IsOnce h = refl

-- Without replicas, the host of a chunk of the interval is a target, and it is one once.
pub count-targets :
    (locate : ℕ → ℕ → ℕ) (offset write_size c : ℕ)
    → (span offset write_size).chnk_start ≤ c
    → c ≤ (span offset write_size).chnk_end
    → count (locate c 0) (plan_write locate offset write_size 0).targets ≡ 1
unfolding plan_write
count-targets locate offset write_size c lo hi =
    let s : Span = span offset write_size in
    let (once, _, finds) =
      targets_lem locate s s.chnk_start (chnk_total s) empty_plan empty-IsOnce in
    once (locate c 0) ∙ ap (λ (b : Bool). if b then 1 else 0) (finds c lo (omega arith))
