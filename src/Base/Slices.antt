-- ===== src/Base/Slices.antt =====
-- `take` and `drop` of lists against one another: parts of a buffer.
use Prim.Native.Nat.{ℕ, zero, suc, ◌+◌, ◌-◌, ◌≤◌}
use Prim.Native.Nat.add
use mathlib.Core.Path.{◌≡◌, refl, sym, ap, ◌∙◌}
use mathlib.Core.List.{List, [], ◌∷◌, ◌++◌}
use native.Mathlib.Omega.{arith}
use gekko_fs.Base.Lists.{length, take, drop}

module _ {ℓ} {A : Type ℓ} where
  pub take-length : (xs : List A) → take (length xs) xs ≡ xs
  take-length [] = refl
  take-length (x ∷ xs) = ap (◌∷◌ x) (take-length xs)

  pub length-drop : (n : ℕ) (xs : List A) → length (drop n xs) ≡ length xs - n
  length-drop zero xs = omega arith
  length-drop (suc n) [] = omega arith
  length-drop (suc n) (x ∷ xs) = omega (arith, length-drop n xs)

  pub drop-nil : (n : ℕ) → drop {A = A} n [] ≡ []
  drop-nil zero = refl
  drop-nil (suc n) = refl

  pub take-nil : (n : ℕ) → take {A = A} n [] ≡ []
  take-nil zero = refl
  take-nil (suc n) = refl

  pub drop-add : (m n : ℕ) (xs : List A) → drop (m + n) xs ≡ drop n (drop m xs)
  drop-add zero n xs = ap (λ (k : ℕ). drop k xs) (add.zero n)
  drop-add (suc m) n [] = drop-nil (suc m + n) ∙ sym (drop-nil n)
  drop-add (suc m) n (x ∷ xs) = ap (λ (k : ℕ). drop k (x ∷ xs)) (add.suc m n) ∙ drop-add m n xs

  pub take-all : (n : ℕ) (xs : List A) → length xs ≤ n → take n xs ≡ xs
  take-all zero [] h = refl
  take-all zero (x ∷ xs) h = absurd (omega arith)
  take-all (suc n) [] h = refl
  take-all (suc n) (x ∷ xs) h = ap (◌∷◌ x) (take-all n xs (omega arith))

  pub drop-all : (n : ℕ) (xs : List A) → length xs ≤ n → drop n xs ≡ []
  drop-all n [] h = drop-nil n
  drop-all zero (x ∷ xs) h = absurd (omega arith)
  drop-all (suc n) (x ∷ xs) h = drop-all n xs (omega arith)

  -- The first `n` elements, then those up to `size`.
  pub take-split :
      (n size : ℕ) (xs : List A)
      → n ≤ size
      → take n xs ++ take (size - n) (drop n xs) ≡ take size xs
  take-split zero size xs h = ap (λ (k : ℕ). take k xs) (omega arith)
  take-split (suc n) zero xs h = absurd (omega arith)
  take-split (suc n) (suc size) [] h = take-nil (suc size - suc n)
  take-split (suc n) (suc size) (x ∷ xs) h = ap (◌∷◌ x) (
      ap (λ (k : ℕ). take n xs ++ take k (drop n xs)) (omega arith)
      ∙ take-split n size xs (omega arith))
