-- ===== src/Examples/Sections.antt =====
-- Files of a patch at concrete texts.
use coder_er.Base.{
  ◌≡◌, refl, List, [], ◌∷◌, codes, none, some, ok, err, Text, nat_equality, list_equality,
}
use coder_er.Publication.Patch.{ParsedFilePatch, add, rename}
use coder_er.Publication.Patch.Paths.{guard_path, normalize_patch_path, path_traversal}
use coder_er.Publication.Patch.Hunks.{
  digits, number_from, number, count, expect, read_header, count_line, read_hunks,
}
use coder_er.Publication.Patch.Sections.{
  split_last, match_header, path_after, side_after, heading_line, heading_lines, read_body,
  read_section, read_file, unexpected_line, no_hunks, bad_path,
}

-- The names are split at the last ` b/`.
last_name : match_header (codes "diff --git a/x b/y b/z") ≡ some (codes "x b/y", codes "z")
unfolding match_header split_last
last_name = refl

no_name : match_header (codes "diff --git a/x b/") ≡ none
unfolding match_header split_last
no_name = refl

stray : read_file (codes "index 1..2") [] ≡ err unexpected_line
unfolding match_header read_file read_section
stray = refl

abbrev added : ParsedFilePatch
added = record {
  old_path = none;
  new_path = some (codes "b");
  change_type = add;
  hunks =
      record { old_start = 0; old_lines = 0; new_start = 1; new_lines = 1; lines = codes "+x" ∷ [] }
      ∷ [];
}

abbrev added_lines : List Text
added_lines =
    codes "new file mode 100644"
    ∷ codes "--- /dev/null"
    ∷ codes "+++ b/b"
    ∷ codes "@@ -0,0 +1 @@"
    ∷ codes "+x"
    ∷ codes "diff --git a/c b/c"
    ∷ []

read_added :
    read_file (codes "diff --git a/b b/b") added_lines ≡ ok (added, codes "diff --git a/c b/c" ∷ [])
unfolding match_header split_last read_file read_section heading_lines heading_line path_after
    side_after read_body normalize_patch_path guard_path read_hunks read_header count_line digits
    number_from number count expect
read_added = refl

renamed_file :
    read_file (codes "diff --git a/b b/c") (codes "rename from b" ∷ codes "rename to c" ∷ [])
    ≡ ok (
      record {
        old_path = some (codes "b");
        new_path = some (codes "c");
        change_type = rename;
        hunks = [];
      },
      [],
    )
unfolding match_header split_last read_file read_section heading_lines heading_line path_after
    side_after read_body normalize_patch_path guard_path read_hunks
renamed_file = refl

without_hunks : read_file (codes "diff --git a/b b/c") [] ≡ err no_hunks
unfolding match_header split_last read_file read_section heading_lines read_body
    normalize_patch_path guard_path read_hunks
without_hunks = refl

outside :
    read_file (codes "diff --git a/b b/c") (codes "rename to ../c" ∷ [])
    ≡ err (bad_path path_traversal)
unfolding match_header split_last read_file read_section heading_lines heading_line path_after
    side_after normalize_patch_path guard_path
outside = refl
