-- ===== src/Examples/Files.antt =====
-- Unified diffs at concrete lines.
use coder_er.Base.{◌≡◌, refl, List, [], ◌∷◌, codes, some, ok, err, Text, ◌++◌}
use coder_er.Publication.Patch.{ParsedFilePatch, rename}
use coder_er.Publication.Patch.Paths.{guard_path, normalize_patch_path}
use coder_er.Publication.Patch.Hunks.{read_hunks}
use coder_er.Publication.Patch.Sections.{
  split_last, match_header, path_after, side_after, heading_line, heading_lines, read_body,
  read_section, read_file, unexpected_line,
}
use coder_er.Publication.Patch.Files.{no_changes, bad_section, read_files, parse_unified_diff_files}
use coder_er.Publication.Patch.Files.Enough.{IsSound, parse_unified_diff_files-IsSound}

abbrev renaming : List Text
renaming = codes "diff --git a/b b/c" ∷ codes "rename from b" ∷ codes "rename to c" ∷ []

abbrev moved : ParsedFilePatch
moved = record {
  old_path = some (codes "b");
  new_path = some (codes "c");
  change_type = rename;
  hunks = [];
}

nothing : parse_unified_diff_files ([] ∷ []) ≡ err no_changes
unfolding parse_unified_diff_files read_files
nothing = refl

two_files : parse_unified_diff_files ([] ∷ renaming ++ renaming) ≡ ok (moved ∷ moved ∷ [])
unfolding parse_unified_diff_files read_files match_header split_last read_file read_section
    heading_lines heading_line path_after side_after read_body normalize_patch_path guard_path
    read_hunks
two_files = refl

stray_line : parse_unified_diff_files (codes "x" ∷ renaming) ≡ err (bad_section unexpected_line)
unfolding parse_unified_diff_files read_files match_header read_file read_section
stray_line = refl

parse_unified_diff_files-IsSound_example : IsSound (parse_unified_diff_files (renaming ++ renaming))
parse_unified_diff_files-IsSound_example = parse_unified_diff_files-IsSound (renaming ++ renaming)
