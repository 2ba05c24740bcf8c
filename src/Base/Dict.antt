-- ===== src/Base/Dict.antt =====
-- `std::map` and `std::unordered_map` as association lists, with the laws of their operations.
-- No part of the program depends on the order in which a map lists its keys, so none is kept.
use mathlib.Core.Path.{◌≡◌, refl}
use mathlib.Core.Bool.{Bool, true, false}
use mathlib.Core.List.{List, [], ◌∷◌}
use mathlib.Core.Option.{Option, none, some}
use native.Mathlib.Omega.{arith}
use gekko_fs.Base.Tests.{if◌then◌else◌}
use gekko_fs.Base.Eq.{Eq, ◌==◌}

abbrev pub Dict {ℓ κ} : Type ℓ → Type κ → Type (ℓ ⊔ κ)
Dict K V = List (K × V)

abbrev pub is_none {ℓ} : {A : Type ℓ} → Option A → Bool
is_none none = true
is_none (some a) = false

module _ {ℓ κ} {K : Type ℓ} {V : Type κ} ⦃e : Eq K⦄ where
  -- find
  unfoldable pub lookup : K → Dict K V → Option V
  lookup k [] = none
  lookup k ((j, v) ∷ d) = if j == k then some v else lookup k d

  -- erase(key)
  unfoldable pub erase : K → Dict K V → Dict K V
  erase k [] = []
  erase k ((j, v) ∷ d) = let rest = erase k d in if j == k then rest else (j, v) ∷ rest

  -- operator[] = value: replaces the value of a key that is there
  unfoldable pub assign : K → V → Dict K V → Dict K V
  assign k v d = (k, v) ∷ erase k d

  -- insert and emplace: a key that is there keeps its value
  unfoldable pub insert : K → V → Dict K V → Dict K V
  insert k v d = if is_none (lookup k d) then (k, v) ∷ d else d

  pub lookup-erase :
      (k j : K) (d : Dict K V) → lookup j (erase k d) ≡ (if k == j then none else lookup j d)
  unfolding lookup erase
  lookup-erase k j [] = ground arith
  lookup-erase k j ((i, v) ∷ d) =
      ground (arith, lookup-erase k j d, e.beq_iff k j, e.beq_iff i k, e.beq_iff i j)

  pub lookup-assign :
      (k j : K) (v : V) (d : Dict K V)
      → lookup j (assign k v d) ≡ (if k == j then some v else lookup j d)
  unfolding lookup assign
  lookup-assign k j v d = ground (arith, lookup-erase k j d)

  pub lookup-insert :
      (k j : K) (v : V) (d : Dict K V)
      → lookup j (insert k v d)
        ≡ (if is_none (lookup k d) then (if k == j then some v else lookup j d) else lookup j d)
  unfolding lookup insert
  lookup-insert k j v d = ground arith

  -- An insertion at a fresh key.
  pub lookup-insert_fresh :
      (k j : K) (v : V) (d : Dict K V)
      → lookup k d ≡ none
      → lookup j (insert k v d) ≡ (if k == j then some v else lookup j d)
  lookup-insert_fresh k j v d h = ground (arith, lookup-insert k j v d)

  pub lookup-nil : (j : K) → lookup j [] ≡ none
  unfolding lookup
  lookup-nil j = refl
