-- ===== src/Base/Text.antt =====
-- Text literals as byte strings.
use Prim.Native.Char.{code}
use Prim.Native.String.{String}
use mathlib.Core.List.{[], ◌∷◌}
use gekko_fs.Base.Eq.{Bytes}

-- The bytes of an ASCII literal.
abbrev pub codes : String → Bytes
codes String.[] = []
codes (String.◌∷◌ c s) = code c ∷ codes s
