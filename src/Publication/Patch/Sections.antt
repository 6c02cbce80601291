-- ===== src/Publication/Patch/Sections.antt =====
-- One file of a unified diff: its header, the lines before its hunks, and its hunks, as
-- `parseUnifiedDiffFiles` reads them (packages/publication/src/execution.ts).
pub mod Safety
use coder_er.Base.{
  ℕ, Bool, true, false, not, ◌&&◌, ◌||◌, List, [], ◌∷◌, Text, codes, drop, any, starts_with, ◌==◌,
  nat_equality, list_equality, if◌then◌else◌, Option, none, some, Result, ok, err, ◌>>=◌, ◌>>◌,
  throw_if,
}
use coder_er.Publication.Patch.{Hunk, ParsedFilePatch, ChangeType, add, modify, delete, rename}
use coder_er.Publication.Patch.Paths.{PathError, normalize_patch_path}
use coder_er.Publication.Patch.Hunks.{
  HunkError, is_empty, is_terminator, starts_file, starts_hunk, between, read_hunks,
}

pub data SectionError : Type 0 where
  unexpected_line no_usable_path no_hunks : SectionError
  bad_path : PathError → SectionError
  bad_hunk : HunkError → SectionError

-- The last ` b/` that a text follows, with what stands before and behind it.
unfoldable pub split_last : Text → Option (Text × Text)
split_last [] = none
split_last (c ∷ s) = sooner (split_last s)
  where
    sooner : Option (Text × Text) → Option (Text × Text)
    sooner (some (before, behind)) = some (c ∷ before, behind)
    sooner none =
        if starts_with (c ∷ s) (codes " b/") && not (is_empty (drop 3 (c ∷ s)))
        then some ([], drop 3 (c ∷ s))
        else none

-- `DIFF_HEADER`. The first name is not empty.
unfoldable pub match_header : Text → Option (Text × Text)
unfolding split_last
match_header line =
    if not (starts_with line (codes "diff --git a/")) || any is_terminator line
    then none
    else named (drop 13 line)
  where
    named : Text → Option (Text × Text)
    named [] = none
    named (c ∷ s) = begun (split_last s)
      where
        begun : Option (Text × Text) → Option (Text × Text)
        begun none = none
        begun (some (before, behind)) = some (c ∷ before, behind)

-- What is known of a file before its hunks.
pub record Heading : Type 0 where
  pub old_path : Option Text
  pub new_path : Option Text
  pub new_file : Bool
  pub deleted_file : Bool
  pub rename_from : Option Text
  pub rename_to : Option Text

unfoldable pub path_after : Bool → Text → Option Text → Result PathError (Option Text)
path_after false value kept = ok kept
path_after true value kept = normalize_patch_path value >>= λ path. ok (some path)

unfoldable pub side_after : Bool → Text → Option Text → Result PathError (Option Text)
unfolding path_after
side_after test value kept =
    if test && value == codes "/dev/null" then ok none else path_after test value kept

-- `replace(/^a\//, '')`
abbrev pub without_prefix : Text → Text → Text
without_prefix value prefix = if starts_with value prefix then drop 2 value else value

unfoldable pub heading_line : Text → Heading → Result PathError Heading
unfolding path_after side_after
heading_line l h = do
  rename_from ← path_after (starts_with l (codes "rename from ")) (drop 12 l) h.rename_from
  rename_to ← path_after (starts_with l (codes "rename to ")) (drop 10 l) h.rename_to
  old_path ←
      side_after (starts_with l (codes "--- ")) (without_prefix (drop 4 l) (codes "a/")) h.old_path
  new_path ←
      side_after (starts_with l (codes "+++ ")) (without_prefix (drop 4 l) (codes "b/")) h.new_path
  ok (record {
    old_path = old_path;
    new_path = new_path;
    new_file = h.new_file || starts_with l (codes "new file mode ");
    deleted_file = h.deleted_file || starts_with l (codes "deleted file mode ");
    rename_from = rename_from;
    rename_to = rename_to;
  })

unfoldable pub heading_lines : Heading → List Text → Result PathError (Heading × List Text)
unfolding heading_line
heading_lines h [] = ok (h, [])
heading_lines h (l ∷ ls) =
    let more = heading_line l h >>= (λ next. heading_lines next ls) in
    if starts_hunk l || starts_file l then ok (h, l ∷ ls) else more

-- A path that is not null and not empty.
abbrev pub is_usable : Option Text → Bool
is_usable none = false
is_usable (some path) = not (is_empty path)

abbrev pub renamed : Option Text → Option Text → Option Text
renamed name path = if is_usable name then name else path

abbrev pub old_side : Heading → Option Text
old_side h = if h.new_file then none else renamed h.rename_from h.old_path

abbrev pub new_side : Heading → Option Text
new_side h = if h.deleted_file then none else renamed h.rename_to h.new_path

-- `newPath ?? oldPath`
abbrev pub effective_path : Option Text → Option Text → Option Text
effective_path (some path) old_path = some path
effective_path none old_path = old_path

abbrev pub change_of : Option Text → Option Text → Bool → ChangeType
change_of none new_path is_renamed = add
change_of (some path) none is_renamed = delete
change_of (some path) (some path') is_renamed = if is_renamed then rename else modify

abbrev pub in_section {ℓ} : {E A : Type ℓ} → (E → SectionError) → Result E A → Result SectionError A
in_section f (ok a) = ok a
in_section f (err e) = err (f e)

abbrev pub has_no_hunks : List Hunk → Bool
has_no_hunks [] = true
has_no_hunks (h ∷ hs) = false

unfoldable pub read_body : Heading → List Text → Result SectionError (ParsedFilePatch × List Text)
unfolding read_hunks
read_body h ls = do
  throw_if (not (is_usable (effective_path (new_side h) (old_side h)))) no_usable_path
  found ← in_section bad_hunk (read_hunks between ls)
  throw_if (has_no_hunks found.0 && not (is_usable h.rename_from)) no_hunks
  ok (
    record {
      old_path = old_side h;
      new_path = new_side h;
      change_type = change_of (old_side h) (new_side h) (is_usable h.rename_from);
      hunks = found.0;
    },
    found.1,
  )

unfoldable pub read_section :
    Option (Text × Text) → List Text → Result SectionError (ParsedFilePatch × List Text)
unfolding heading_lines read_body
read_section none ls = err unexpected_line
read_section (some (a, b)) ls = do
  old_path ← in_section bad_path (normalize_patch_path a)
  new_path ← in_section bad_path (normalize_patch_path b)
  head ← in_section bad_path (
      heading_lines
        (record {
          old_path = some old_path;
          new_path = some new_path;
          new_file = false;
          deleted_file = false;
          rename_from = none;
          rename_to = none;
        })
        ls)
  read_body head.0 head.1

-- The file that a line opens, and the lines from the next file on.
unfoldable pub read_file : Text → List Text → Result SectionError (ParsedFilePatch × List Text)
unfolding match_header read_section
read_file line ls = read_section (match_header line) ls
