-- ===== src/Client/Resolve.antt =====
-- Path resolution on the client: resolve_new and match_components of src/client/path.cpp.
-- `mountdir` and `cwd` are those of the client's context. Following links outside the file system is
-- a build option that is off, and so left out; the loops recur on the rest of the string, with the
-- number of characters that they jump over.
pub mod Normal
pub mod Mount
use gekko_fs.Base.{
  ℕ, zero, suc, ◌+◌, ◌-◌, Bool, true, false, ◌&&◌, eqb, if◌then◌else◌, List, [], ◌∷◌, ◌++◌, length,
  take, drop, get_elem?, Option, none, some,
}
use gekko_fs.Base.Eq.{Bytes, ◌==◌, bytes_eq}
use gekko_fs.Base.Options.{◌>>=◌}
use gekko_fs.Common.Paths.{separator, component, is_absolute}

abbrev pub is_dot : Bytes → Bool
is_dot (c ∷ []) = eqb c b'.'
is_dot _ = false

abbrev pub is_dot_dot : Bytes → Bool
is_dot_dot (c ∷ d ∷ []) = eqb c b'.' && eqb d b'.'
is_dot_dot _ = false

-- The string so far, and the stack of the positions where its components start.
pub record Resolving : Type 0 where
  pub resolved : Bytes
  pub last_component_pos : List ℕ

abbrev pub start_resolving : Resolving
start_resolving = record { resolved = []; last_component_pos = [] }

-- `..` takes the last component away.
unfoldable pub erase_last : Resolving → Resolving
erase_last r = elim r.last_component_pos [
  | [] ↦ record { resolved = []; last_component_pos = [] }
  | pos ∷ below ↦ record { resolved = take pos r.resolved; last_component_pos = below }
]

unfoldable pub append_component : Bytes → Resolving → Resolving
append_component comp r = record {
  resolved = r.resolved ++ separator ∷ comp;
  last_component_pos = length r.resolved ∷ r.last_component_pos;
}

-- The loop over the absolute path.
unfoldable pub resolve_loop : ℕ → Bytes → Resolving → Resolving
resolve_loop skip [] r = r
resolve_loop (suc skip) (c ∷ cs) r = resolve_loop skip cs r
resolve_loop zero (c ∷ cs) r =
    let comp = component (c ∷ cs) in
    resolve_loop
      (if eqb c separator
        then 0
        else if is_dot comp
        then 0
        else if is_dot_dot comp
        then 0
        else length comp)
      cs
      (if eqb c separator
        then r
        else if is_dot comp
        then r
        else if is_dot_dot comp
        then erase_last r
        else append_component comp r)

-- s.erase(1, n)
abbrev pub erase_from_1 : ℕ → Bytes → Bytes
erase_from_1 n s = take 1 s ++ drop (suc n) s

abbrev pub or_separator : Bytes → Bytes
or_separator [] = separator ∷ []
or_separator (c ∷ cs) = c ∷ cs

-- Whether a canonical path is inside the file system, and the path there or outside.
unfoldable pub locate_path : Bytes → Bytes → Bool × Bytes
locate_path mountdir resolved =
    if take (length mountdir) resolved == mountdir
    then (true, erase_from_1 (length mountdir) resolved)
    else (false, or_separator resolved)

abbrev pub absolute_path : Bytes → Bytes → Bytes
absolute_path cwd path = if is_absolute path then path else cwd ++ separator ∷ path

unfoldable pub resolve_new : Bytes → Bytes → Bytes → Bool × Bytes
resolve_new mountdir cwd [] = (false, separator ∷ [])
resolve_new mountdir cwd (c ∷ cs) =
    locate_path mountdir (resolve_loop 0 (absolute_path cwd (c ∷ cs)) start_resolving).resolved

-- How many components match, and how many there are; `components.at` of an index that is too great
-- throws.
abbrev pub matches_at : List Bytes → ℕ → ℕ → Bytes → Option Bool
matches_at components matched processed comp =
    if eqb matched processed
    then (get_elem? components matched >>= λ expected. some (comp == expected))
    else some false

unfoldable pub match_loop : List Bytes → ℕ → Bytes → ℕ → ℕ → Option (ℕ × ℕ)
match_loop components skip [] matched processed = some (matched, processed)
match_loop components (suc skip) (c ∷ cs) matched processed =
    match_loop components skip cs matched processed
match_loop components zero (c ∷ cs) matched processed =
    matches_at components matched processed (component (c ∷ cs)) >>= λ same.
    match_loop components (length (component (c ∷ cs))) cs (if same then matched + 1 else matched)
      (processed + 1)

unfoldable pub match_components : Bytes → List Bytes → Option (ℕ × ℕ)
match_components path components = match_loop components 1 path 0 0
