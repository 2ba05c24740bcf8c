-- ===== src/Tests/Paths.antt =====
-- The theorems on paths at concrete inputs.
use gekko_fs.Base.{◌≡◌, refl, true, [], ◌∷◌, none, some}
use gekko_fs.Base.Eq.{Bytes, bytes_beq}
use gekko_fs.Base.Text.{codes}
use gekko_fs.Common.Paths.{
  component, is_absolute, dirname, before_last, is_proper, has_trailing_slash,
}
use gekko_fs.Common.Paths.Split.{components}
use gekko_fs.Client.Resolve.{
  resolve_new, resolve_loop, locate_path, erase_last, append_component, absolute_path,
  match_components, match_loop,
}
use gekko_fs.Client.Resolve.Mount.{resolve_new-prefix}
use gekko_fs.Client.Resolve.Normal.{canonical, resolve_new-canonical}

abbrev mountdir : Bytes
mountdir = codes "/mnt/gkfs"

resolve_relative :
    resolve_new mountdir (codes "/mnt/gkfs/a/b") (codes "./../c//d.") ≡ (true, codes "/a/c/d.")
unfolding resolve_new resolve_loop locate_path component is_absolute erase_last append_component
    bytes_beq
resolve_relative = refl

resolve_new-canonical_example :
    resolve_new mountdir (codes "/mnt/gkfs/a/b") (codes "./../c//d.")
    ≡ locate_path mountdir (canonical (absolute_path (codes "/mnt/gkfs/a/b") (codes "./../c//d.")))
resolve_new-canonical_example =
    resolve_new-canonical mountdir (codes "/mnt/gkfs/a/b") b'.' (codes "/../c//d.")

-- The file /mnt/gkfs2/a, outside the mount directory.
resolve_new-prefix_example :
    resolve_new mountdir (codes "/home") (codes "/mnt/gkfs2/a") ≡ (true, codes "//a")
unfolding is_absolute components
resolve_new-prefix_example =
    resolve_new-prefix (codes "mnt/gkfs") (codes "/home") b'/' (codes "mnt/gkfs2/a") b'2'
      (codes "/a") refl

parent_of_file : dirname (codes "/a/b") ≡ some (codes "/a")
unfolding dirname before_last is_proper has_trailing_slash
parent_of_file = refl

-- A path with more components than those that it matches.
match_further : match_components (codes "/mnt/gkfs/a") (codes "mnt" ∷ codes "gkfs" ∷ []) ≡ none
unfolding match_components match_loop component bytes_beq
match_further = refl
