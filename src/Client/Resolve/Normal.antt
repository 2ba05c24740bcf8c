-- ===== src/Client/Resolve/Normal.antt =====
-- resolve_new of src/client/path.cpp against the description of a canonical path by its components.
use gekko_fs.Base.{
  ℕ, zero, suc, ◌≤◌, ◌≡◌, refl, sym, ap, ◌∙◌, true, false, arith, eqb, if◌then◌else◌, List, [], ◌∷◌,
  ◌++◌, length, drop, Bool-cases, inl, inr, take-length-append,
}
use gekko_fs.Base.Eq.{Bytes}
use gekko_fs.Common.Paths.{separator, component}
use gekko_fs.Common.Paths.Split.{components, rest_components, after, components-component}
use gekko_fs.Client.Resolve.{
  is_dot, is_dot_dot, Resolving, erase_last, append_component, resolve_loop, absolute_path,
  locate_path, resolve_new,
}

abbrev pub tail {ℓ} : {A : Type ℓ} → List A → List A
tail [] = []
tail (x ∷ xs) = xs

-- One component of a path, on the components so far, the last one first: empty ones and `.` change
-- nothing, and `..` goes back by one.
abbrev pub visit : Bytes → List Bytes → List Bytes
visit [] dirs = dirs
visit (c ∷ cs) dirs =
    if is_dot (c ∷ cs) then dirs else if is_dot_dot (c ∷ cs) then tail dirs else (c ∷ cs) ∷ dirs

abbrev pub visit_all : List Bytes → List Bytes → List Bytes
visit_all [] dirs = dirs
visit_all (comp ∷ comps) dirs = visit_all comps (visit comp dirs)

-- The string of the components, the last one first.
abbrev pub join_dirs : List Bytes → Bytes
join_dirs [] = []
join_dirs (comp ∷ dirs) = join_dirs dirs ++ separator ∷ comp

abbrev positions : List Bytes → List ℕ
positions [] = []
positions (comp ∷ dirs) = length (join_dirs dirs) ∷ positions dirs

-- The state of the loop that stands for a list of components.
abbrev of_dirs : List Bytes → Resolving
of_dirs dirs = record { resolved = join_dirs dirs; last_component_pos = positions dirs }

erase_last-of_dirs : (dirs : List Bytes) → erase_last (of_dirs dirs) ≡ of_dirs (tail dirs)
unfolding erase_last
erase_last-of_dirs [] = refl
erase_last-of_dirs (comp ∷ dirs) =
    ap (λ (s : Bytes). record { resolved = s; last_component_pos = positions dirs })
      (take-length-append (join_dirs dirs) (separator ∷ comp))

append_component-of_dirs :
    (comp : Bytes) (dirs : List Bytes)
    → append_component comp (of_dirs dirs) ≡ of_dirs (comp ∷ dirs)
unfolding append_component
append_component-of_dirs comp dirs = refl

-- Jumping over characters is dropping them.
resolve_loop-drop :
    (skip : ℕ) (s : Bytes) (r : Resolving) → resolve_loop skip s r ≡ resolve_loop 0 (drop skip s) r
unfolding resolve_loop
resolve_loop-drop zero s r = refl
resolve_loop-drop (suc skip) [] r = refl
resolve_loop-drop (suc skip) (c ∷ cs) r = resolve_loop-drop skip cs r

-- The components behind the first one, after the separator is jumped over.
visit-rest :
    (n : ℕ) (s : Bytes) (dirs : List Bytes)
    → visit_all (rest_components (drop n s)) dirs ≡ visit_all (components (drop (suc n) s)) dirs
unfolding components
visit-rest zero [] dirs = refl
visit-rest zero (c ∷ cs) dirs = refl
visit-rest (suc n) [] dirs = refl
visit-rest (suc n) (c ∷ cs) dirs = visit-rest n cs dirs

length-drop : (n : ℕ) (s : Bytes) → length (drop n s) ≤ length s
length-drop zero s = omega arith
length-drop (suc n) [] = omega arith
length-drop (suc n) (c ∷ cs) = omega (arith, length-drop n cs)

-- A dot that starts with another character is followed by what changes nothing.
visit-dot : (c : ℕ) (h : Bytes) (dirs : List Bytes) → is_dot (c ∷ h) ≡ true → visit h dirs ≡ dirs
visit-dot c [] dirs e = refl
visit-dot c (d ∷ h) dirs e = cc

visit-dot_dot :
    (c : ℕ) (h : Bytes) (dirs : List Bytes) → is_dot_dot (c ∷ h) ≡ true → visit h dirs ≡ dirs
visit-dot_dot c [] dirs e = refl
visit-dot_dot c (d ∷ []) dirs e = ground (arith, e)
visit-dot_dot c (d ∷ d' ∷ h) dirs e = cc

module _ (c : ℕ) (cs : Bytes) (dirs : List Bytes) where
  abbrev longer : Bytes
  longer = c ∷ component cs

  visit_all-components :
      visit_all (components cs) dirs
      ≡ visit_all (rest_components (after cs)) (visit (component cs) dirs)
  visit_all-components = ap (λ (l : List Bytes). visit_all l dirs) (components-component cs)

  visit_all-push :
      eqb c separator ≡ false
      → visit_all (components (c ∷ cs)) dirs
        ≡ visit_all (rest_components (after cs)) (visit longer dirs)
  unfolding components
  visit_all-push e = rw (e, components-component cs) refl

  loop-other :
      eqb c separator ≡ false
      → resolve_loop 0 (c ∷ cs) (of_dirs dirs) ≡ (
          if is_dot longer
          then resolve_loop 0 cs (of_dirs dirs)
          else if is_dot_dot longer
          then resolve_loop 0 cs (erase_last (of_dirs dirs))
          else resolve_loop (length longer) cs (append_component longer (of_dirs dirs)))
  unfolding resolve_loop component
  loop-other e = elim (Bool-cases (is_dot longer)) [
    | inl dot ↦ rw (e, dot) refl
    | inr other ↦ elim (Bool-cases (is_dot_dot longer)) [
      | inl two ↦ rw (e, other, two) refl
      | inr plain ↦ rw (e, other, plain) refl
    ]
  ]

-- A separator is skipped, on both sides.
loop-separator :
    (c : ℕ) (cs : Bytes) (r : Resolving)
    → eqb c separator ≡ true
    → resolve_loop 0 (c ∷ cs) r ≡ resolve_loop 0 cs r
unfolding resolve_loop
loop-separator c cs r e = rw e refl

components-separator :
    (c : ℕ) (cs : Bytes) → eqb c separator ≡ true → components (c ∷ cs) ≡ [] ∷ components cs
unfolding components
components-separator c cs e = rw e refl

loop-nil :
    (dirs : List Bytes)
    → resolve_loop 0 [] (of_dirs dirs) ≡ of_dirs (visit_all (components []) dirs)
unfolding resolve_loop components
loop-nil dirs = refl

-- The three ways on behind a component that is not empty, when shorter strings are visited.
module _ (c : ℕ) (cs : Bytes) (dirs : List Bytes)
    (shorter : (s : Bytes) (dirs' : List Bytes)
      → length s ≤ length cs
      → resolve_loop 0 s (of_dirs dirs') ≡ of_dirs (visit_all (components s) dirs')) where
  abbrev comp : Bytes
  comp = longer c cs dirs

  abbrev then_behind : List Bytes → Resolving
  then_behind dirs' = of_dirs (visit_all (rest_components (after cs)) dirs')

  skipped :
      (dirs' : List Bytes)
      → visit (component cs) dirs' ≡ dirs'
      → resolve_loop 0 cs (of_dirs dirs') ≡ then_behind dirs'
  skipped dirs' e =
      shorter cs dirs' (omega arith)
      ∙ ap of_dirs (visit_all-components c cs dirs')
      ∙ ap then_behind e

  appended :
      resolve_loop (length comp) cs (append_component comp (of_dirs dirs))
      ≡ then_behind (comp ∷ dirs)
  appended =
      ap (resolve_loop (length comp) cs) (append_component-of_dirs comp dirs)
      ∙ resolve_loop-drop (length comp) cs (of_dirs (comp ∷ dirs))
      ∙ shorter (drop (length comp) cs) (comp ∷ dirs) (length-drop (length comp) cs)
      ∙ ap of_dirs (sym (visit-rest (length (component cs)) cs (comp ∷ dirs)))

  ways :
      (if is_dot comp
        then resolve_loop 0 cs (of_dirs dirs)
        else if is_dot_dot comp
        then resolve_loop 0 cs (erase_last (of_dirs dirs))
        else resolve_loop (length comp) cs (append_component comp (of_dirs dirs)))
      ≡ then_behind (visit comp dirs)
  ways = elim (Bool-cases (is_dot comp)) [
    | inl dot ↦ rw dot (skipped dirs (visit-dot c (component cs) dirs dot))
    | inr other ↦ elim (Bool-cases (is_dot_dot comp)) [
      | inl two ↦
          rw (other, two)
            (ap (resolve_loop 0 cs) (erase_last-of_dirs dirs)
              ∙ skipped (tail dirs) (visit-dot_dot c (component cs) (tail dirs) two))
      | inr plain ↦ rw (other, plain) appended
    ]
  ]

-- The loop visits the components of the string that is left.
resolve_loop-visit_all :
    (fuel : ℕ) (s : Bytes) (dirs : List Bytes)
    → length s ≤ fuel
    → resolve_loop 0 s (of_dirs dirs) ≡ of_dirs (visit_all (components s) dirs)
resolve_loop-visit_all fuel [] dirs h = loop-nil dirs
resolve_loop-visit_all zero (c ∷ cs) dirs h = absurd (omega (arith, h))
resolve_loop-visit_all (suc fuel) (c ∷ cs) dirs h = elim (Bool-cases (eqb c separator)) [
  | inl here ↦
      loop-separator c cs (of_dirs dirs) here
      ∙ resolve_loop-visit_all fuel cs dirs (omega (arith, h))
      ∙ ap (λ (l : List Bytes). of_dirs (visit_all l dirs)) (sym (components-separator c cs here))
  | inr later ↦
      loop-other c cs dirs later
      ∙ ways c cs dirs (λ s dirs' k. resolve_loop-visit_all fuel s dirs' (omega (arith, h, k)))
      ∙ ap of_dirs (sym (visit_all-push c cs dirs later))
]

-- The canonical form of a path: its components, without the empty ones and `.`, and with `..`
-- taken as a step back.
abbrev pub canonical : Bytes → Bytes
canonical path = join_dirs (visit_all (components path) [])

-- A path that is not empty is resolved as its canonical form is: its components without the empty
-- ones and the dots, where two dots go back by one component and no further than the root, behind
-- those of the working directory if the path is relative.
pub resolve_new-canonical :
    (mountdir cwd : Bytes) (c : ℕ) (cs : Bytes)
    → resolve_new mountdir cwd (c ∷ cs)
      ≡ locate_path mountdir (canonical (absolute_path cwd (c ∷ cs)))
unfolding resolve_new
resolve_new-canonical mountdir cwd c cs =
    let path : Bytes = absolute_path cwd (c ∷ cs) in
    ap (λ (r : Resolving). locate_path mountdir r.resolved)
      (resolve_loop-visit_all (length path) path [] (omega arith))
