-- ===== src/Examples/Paths.antt =====
-- Paths of a patch at concrete texts.
use coder_er.Base.{◌≡◌, refl, [], ◌∷◌, ◌++◌, codes, ok, err, nat_equality, list_equality}
use coder_er.Publication.Patch.Paths.{
  guard_path, normalize_patch_path, absolute_or_invalid, path_traversal,
}
use coder_er.Publication.Patch.Paths.Guards.{normalize_patch_path-dot}

quoted :
    normalize_patch_path (34 ∷ codes "src" ++ 92 ∷ codes "a.ts" ++ 34 ∷ []) ≡ ok (codes "src/a.ts")
unfolding normalize_patch_path guard_path
quoted = refl

null_device : normalize_patch_path (codes "/dev/null") ≡ ok (codes "/dev/null")
unfolding normalize_patch_path
null_device = refl

absolute : normalize_patch_path (codes "/etc/passwd") ≡ err absolute_or_invalid
unfolding normalize_patch_path guard_path
absolute = refl

drive : normalize_patch_path (codes "c:/a") ≡ err absolute_or_invalid
unfolding normalize_patch_path guard_path
drive = refl

parent : normalize_patch_path (codes "a/../b") ≡ err path_traversal
unfolding normalize_patch_path guard_path
parent = refl

git : normalize_patch_path (codes ".git/config") ≡ err path_traversal
unfolding normalize_patch_path guard_path
git = refl

dot_path : normalize_patch_path (codes "./src/a.ts") ≡ ok (codes "src/a.ts")
unfolding normalize_patch_path guard_path
dot_path = refl

normalize_patch_path-dot_example :
    normalize_patch_path (codes "./.git/config") ≡ ok (codes ".git/config")
normalize_patch_path-dot_example =
    normalize_patch_path-dot (codes ".git/config") refl refl refl refl
