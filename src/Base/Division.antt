-- ===== src/Base/Division.antt =====
-- Laws of division that the library does not state.
use Prim.Native.Nat.{ℕ, ◌/◌, ◌≤◌, ◌<◌}
use native.Mathlib.Nat.{le-div_iff_mul-le, div-mul-le_self, le_trans}

pub div_mono : (a b p : ℕ) → 0 < p → a ≤ b → a / p ≤ b / p
div_mono a b p pos h = (le-div_iff_mul-le pos).1 (le_trans (div-mul-le_self a p) h)
