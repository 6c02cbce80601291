-- ===== src/Examples/Patches.antt =====
-- A patch of two hunks, and one that only adds, applied to a small file.
use coder_er.Base.{err, ◌≡◌, refl, Text, codes, some, List, [], ◌∷◌, ok}
use coder_er.Publication.Patch.{context_mismatch, Hunk, ParsedFilePatch, modify, apply_file_hunks}
use coder_er.Publication.Patch.Script.{
  target, source, Segment, keep_line, delete_line, insert_line, hunks_of,
}
use coder_er.Publication.Patch.Contents.{unlines, apply_file_hunks-script}

abbrev segments : List Segment
segments =
    record {
      gap = codes "a" ∷ [];
      edits = keep_line (codes "b") ∷ delete_line (codes "c") ∷ insert_line (codes "C") ∷ [];
    }
    ∷ record { gap = codes "d" ∷ []; edits = insert_line (codes "e") ∷ keep_line (codes "f") ∷ [] }
    ∷ []

abbrev file_of : List Hunk → ParsedFilePatch
file_of hunks = record {
  old_path = some (codes "x.ts");
  new_path = some (codes "x.ts");
  change_type = modify;
  hunks = hunks;
}

abbrev tail_lines : List Text
tail_lines = codes "g" ∷ []

apply_file_hunks-script_example :
    apply_file_hunks (unlines (source segments tail_lines)) (file_of (hunks_of 0 0 segments))
    ≡ ok (unlines (target segments tail_lines))
apply_file_hunks-script_example =
    apply_file_hunks-script segments tail_lines (file_of (hunks_of 0 0 segments))
      (refl, (refl, (refl, (refl, (refl, (refl, tt)))))) refl

new_content :
    unlines (target segments tail_lines)
    ≡ unlines
        (codes "a" ∷ codes "b" ∷ codes "C" ∷ codes "d" ∷ codes "e" ∷ codes "f" ∷ codes "g" ∷ [])
new_content = refl

-- `@@ -2,0 +3,1 @@`, which in the unified format adds behind line 2.
abbrev insertion : Hunk
insertion = record {
  old_start = 2;
  old_lines = 0;
  new_start = 3;
  new_lines = 1;
  lines = (43 ∷ codes "n") ∷ [];
}

inserted_before :
    apply_file_hunks (unlines (codes "a" ∷ codes "b" ∷ codes "c" ∷ [])) (file_of (insertion ∷ []))
    ≡ ok (unlines (codes "a" ∷ codes "n" ∷ codes "b" ∷ codes "c" ∷ []))
unfolding apply_file_hunks
inserted_before = refl

-- Context that is not there is refused.
refuses_context :
    apply_file_hunks (codes "b") (
      file_of (
        record {
          old_start = 1;
          old_lines = 1;
          new_start = 1;
          new_lines = 1;
          lines = codes " a" ∷ [];
        }
        ∷ []))
    ≡ err context_mismatch
unfolding apply_file_hunks
refuses_context = refl
