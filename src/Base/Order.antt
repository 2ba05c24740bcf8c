-- ===== src/Base/Order.antt =====
-- `<` on the native numbers is well founded, and strong induction.
use mathlib.Core.WellFounded.{Acc, WellFounded}
use Prim.Native.Nat.{ℕ, zero, suc, ◌<◌}
use native.Mathlib.Omega.{arith}

Acc-below : (k n : ℕ) → n < k → Acc ◌<◌ n
Acc-below zero n h = elim h [ ]
Acc-below (suc k) n h = Acc.intro n (λ m hm. Acc-below k m (omega arith))

unfoldable pub lt_wf : WellFounded ◌<◌
unfolding Acc-below
lt_wf = record { apply = λ n. Acc-below (suc n) n (omega arith) }

strong_below {ℓ} :
    (P : ℕ → Type ℓ) → ((n : ℕ) → ((m : ℕ) → m < n → P m) → P n) → (k n : ℕ) → n < k → P n
strong_below P step zero n h = elim h [ ]
strong_below P step (suc k) n h = step n (λ m hm. strong_below P step k m (omega arith))

pub strong_induction {ℓ} :
    (P : ℕ → Type ℓ) → ((n : ℕ) → ((m : ℕ) → m < n → P m) → P n) → (n : ℕ) → P n
strong_induction P step n = strong_below P step (suc n) n (omega arith)
