-- ===== src/Base/Options.antt =====
-- Results that can fail, chained by do blocks.
use mathlib.Core.Option.{Option, none, some}
use mathlib.Core.Bool.{Bool, true, false}

infixl 20 ◌>>=◌
abbrev pub ◌>>=◌ {ℓ κ} : {A : Type ℓ} {B : Type κ} → Option A → (A → Option B) → Option B
none >>= f = none
some a >>= f = f a

-- An assertion.
abbrev pub guard : Bool → Option (Unit {0})
guard true = some tt
guard false = none
