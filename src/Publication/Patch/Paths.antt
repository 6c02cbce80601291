-- ===== src/Publication/Patch/Paths.antt =====
-- The paths of a patch: `normalizePatchPath` (packages/publication/src/execution.ts).
pub mod Guards
use coder_er.Base.{
  ℕ, Bool, true, false, not, ◌&&◌, ◌||◌, List, [], ◌∷◌, ◌++◌, map, Text, codes, ltb, contains, ◌==◌,
  nat_equality, list_equality, if◌then◌else◌, Result, ok, err, throw_if, ◌>>=◌, ◌>>◌,
}

pub data PathError : Type 0 where
  absolute_or_invalid path_traversal : PathError

abbrev pub put_first : ℕ → List Text → List Text
put_first c [] = (c ∷ []) ∷ []
put_first c (s ∷ ss) = (c ∷ s) ∷ ss

-- `split('/')` and `join('/')`.
abbrev pub segments : Text → List Text
segments [] = [] ∷ []
segments (c ∷ s) = let rest = segments s in if c == 47 then [] ∷ rest else put_first c rest

abbrev pub join_segments : List Text → Text
join_segments [] = []
join_segments (s ∷ []) = s
join_segments (s ∷ t ∷ ss) = s ++ 47 ∷ join_segments (t ∷ ss)

-- `replace(/^"|"$/g, '')` and `replace(/\\/g, '/')`.
abbrev pub strip_start : Text → Text
strip_start [] = []
strip_start (c ∷ s) = if c == 34 then s else c ∷ s

abbrev pub strip_end : Text → Text
strip_end [] = []
strip_end (c ∷ []) = if c == 34 then [] else c ∷ []
strip_end (c ∷ d ∷ s) = c ∷ strip_end (d ∷ s)

abbrev pub to_slashes : Text → Text
to_slashes = map (λ c. if c == 92 then 47 else c)

abbrev pub is_letter : ℕ → Bool
is_letter c = not (ltb c 65) && not (ltb 90 c) || not (ltb c 97) && not (ltb 122 c)

-- `/^[A-Za-z]:\//`.
abbrev pub has_drive : Text → Bool
has_drive (c ∷ d ∷ e ∷ s) = is_letter c && d == 58 && e == 47
has_drive _ = false

abbrev pub is_absolute : Text → Bool
is_absolute [] = false
is_absolute (c ∷ s) = c == 47

-- A first segment `.` is dropped.
abbrev pub drop_dot : List Text → List Text
drop_dot [] = []
drop_dot (s ∷ ss) = if s == codes "." then ss else s ∷ ss

abbrev pub is_git : List Text → Bool
is_git [] = false
is_git (s ∷ ss) = s == codes ".git"

abbrev pub candidate : Text → Text
candidate value = to_slashes (strip_end (strip_start value))

unfoldable pub guard_path : Text → Result PathError Text
guard_path path = do
  throw_if (contains path 0 || is_absolute path || has_drive path) absolute_or_invalid
  throw_if (contains (segments path) (codes "..") || is_git (segments path)) path_traversal
  ok (join_segments (drop_dot (segments path)))

unfoldable pub normalize_patch_path : Text → Result PathError Text
unfolding guard_path
normalize_patch_path value =
    if candidate value == [] || candidate value == codes "/dev/null"
    then ok (candidate value)
    else guard_path (candidate value)
