-- ===== src/Client/Resolve/Mount.antt =====
-- What resolve_new of src/client/path.cpp makes of paths that begin like the mount directory.
use gekko_fs.Base.{
  ℕ, suc, ◌≡◌, refl, ap, ◌∙◌, true, [], ◌∷◌, ◌++◌, length, drop, take-length-append,
}
use gekko_fs.Base.Eq.{Bytes, bytes_eq, beq_refl}
use gekko_fs.Common.Paths.{separator}
use gekko_fs.Client.Resolve.{absolute_path, locate_path, resolve_new}
use gekko_fs.Client.Resolve.Normal.{canonical, resolve_new-canonical}

drop-one_more : (xs : Bytes) (x : ℕ) (ys : Bytes) → drop (suc (length xs)) (xs ++ x ∷ ys) ≡ ys
drop-one_more [] x ys = refl
drop-one_more (y ∷ xs) x ys = drop-one_more xs x ys

locate_path-append :
    (cs : Bytes) (name : ℕ) (inner : Bytes)
    → locate_path (separator ∷ cs) ((separator ∷ cs) ++ name ∷ inner) ≡ (true, separator ∷ inner)
unfolding locate_path
locate_path-append cs name inner =
    rw (take-length-append cs (name ∷ inner), beq_refl (separator ∷ cs))
      (ap (λ (s : Bytes). (true, separator ∷ s)) (drop-one_more cs name inner))

-- A path whose canonical form is the mount directory and one more character, then anything, is
-- inside the file system, at a separator and what follows that character, also if the character is
-- no separator.
pub resolve_new-prefix :
    (cs cwd : Bytes) (c : ℕ) (path : Bytes) (name : ℕ) (inner : Bytes)
    → canonical (absolute_path cwd (c ∷ path)) ≡ (separator ∷ cs) ++ name ∷ inner
    → resolve_new (separator ∷ cs) cwd (c ∷ path) ≡ (true, separator ∷ inner)
resolve_new-prefix cs cwd c path name inner e =
    resolve_new-canonical (separator ∷ cs) cwd c path
    ∙ ap (locate_path (separator ∷ cs)) e
    ∙ locate_path-append cs name inner
