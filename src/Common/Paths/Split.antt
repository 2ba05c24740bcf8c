-- ===== src/Common/Paths/Split.antt =====
-- Paths as lists of components: how a string splits at its separators (src/common/path_util.cpp).
use gekko_fs.Base.{
  ℕ, suc, ◌≤◌, ◌≡◌, refl, ap, ◌∙◌, arith, eqb, if◌then◌else◌, List, [], ◌∷◌, ◌++◌, length, drop,
  Bool-cases, inl, inr, All, ◌≢◌,
}
use gekko_fs.Base.Eq.{Bytes}
use gekko_fs.Common.Paths.{separator, component, split_loop, split_path}

-- The string behind the first component, with its separator.
abbrev pub after : Bytes → Bytes
after s = drop (length (component s)) s

-- The components of a string, empty ones included: they are never none.
abbrev pub push_head : ℕ → List Bytes → List Bytes
push_head c [] = (c ∷ []) ∷ []
push_head c (t ∷ ts) = (c ∷ t) ∷ ts

unfoldable pub components : Bytes → List Bytes
components [] = [] ∷ []
components (c ∷ cs) =
    let rest = components cs in if eqb c separator then [] ∷ rest else push_head c rest

-- What stands behind the first separator.
abbrev pub rest_components : Bytes → List Bytes
rest_components [] = []
rest_components (c ∷ cs) = components cs

pub components-component : (s : Bytes) → components s ≡ component s ∷ rest_components (after s)
unfolding components component
components-component [] = refl
components-component (c ∷ cs) = elim (Bool-cases (eqb c separator)) [
  | inl here ↦ rw here
  | inr later ↦ rw later (ap (push_head c) (components-component cs))
]

pub length-component : (s : Bytes) → length (component s) ≤ length s
unfolding component
length-component [] = omega arith
length-component (c ∷ cs) = ground (arith, length-component cs)

-- A name in a path: not empty, and without a separator.
abbrev pub HasNoSeparator : Bytes → Type 0
HasNoSeparator [] = Unit
HasNoSeparator (c ∷ cs) = (c ≢ separator) × HasNoSeparator cs

abbrev pub IsName : Bytes → Type 0
IsName [] = ⊥
IsName (c ∷ cs) = (c ≢ separator) × HasNoSeparator cs

-- The absolute path of a list of names.
abbrev pub join_names : List Bytes → Bytes
join_names [] = []
join_names (name ∷ names) = separator ∷ (name ++ join_names names)

component-join_names :
    (name : Bytes) (names : List Bytes)
    → HasNoSeparator name
    → component (name ++ join_names names) ≡ name
unfolding component
component-join_names [] [] h = refl
component-join_names [] (t ∷ ts) h = refl
component-join_names (c ∷ cs) names h = ground (arith, component-join_names cs names h.1)

split_loop-append :
    (name rest : Bytes) → split_loop (suc (length name)) (name ++ rest) ≡ split_loop 1 rest
unfolding split_loop
split_loop-append [] rest = refl
split_loop-append (c ∷ cs) rest = split_loop-append cs rest

split_loop-join_names :
    (names : List Bytes) → All IsName names → split_loop 1 (join_names names) ≡ names
unfolding split_loop
split_loop-join_names [] h = refl
split_loop-join_names ([] ∷ names) h = absurd h.0
split_loop-join_names ((c ∷ cs) ∷ names) (h, k) =
    ap (λ (t : Bytes). t ∷ split_loop (length t) (cs ++ join_names names))
      (component-join_names (c ∷ cs) names h)
    ∙ ap (λ (l : List Bytes). (c ∷ cs) ∷ l)
        (split_loop-append cs (join_names names) ∙ split_loop-join_names names k)

-- The path of a list of names, each with a separator before it, splits into these names, if none is
-- empty or holds a separator.
pub split_path-join_names :
    (names : List Bytes) → All IsName names → split_path (join_names names) ≡ names
unfolding split_path
split_path-join_names [] h = refl
split_path-join_names (name ∷ names) h = split_loop-join_names (name ∷ names) h
