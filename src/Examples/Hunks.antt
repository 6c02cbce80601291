-- ===== src/Examples/Hunks.antt =====
-- Hunks of a patch at concrete texts.
use coder_er.Base.{◌≡◌, refl, List, [], ◌∷◌, ◌++◌, map, some, Text, codes, ok, err}
use coder_er.Publication.Patch.{Hunk, ParsedFilePatch, modify, apply_file_hunks}
use coder_er.Publication.Patch.Script.{Edit, keep_line, delete_line, insert_line, render}
use coder_er.Publication.Patch.Hunks.{read_hunks, between, number_from, invalid_content}
use coder_er.Publication.Patch.Hunks.Written.{Written, IsWritten, print, header_of}
use coder_er.Publication.Patch.Hunks.Printed.{read_hunks-refused, read_hunks-apply}

abbrev edits : List Edit
edits =
    keep_line (codes "a")
    ∷ delete_line (codes "b")
    ∷ insert_line (codes "c")
    ∷ keep_line (codes "d")
    ∷ []

abbrev written : Written
written = record {
  old_start = codes "1";
  old_lines = codes "3";
  new_start = codes "1";
  new_lines = codes "03";
  section = codes " main()";
  edits = edits;
}

written-IsWritten : IsWritten written
unfolding number_from
written-IsWritten = record {
  headed = record {
    numeral_old_start = (refl, refl);
    numeral_old_lines = (refl, refl);
    numeral_new_start = (refl, refl);
    numeral_new_lines = (refl, refl);
    sectioned = refl;
  };
  counted_old = refl;
  counted_new = refl;
  plain = refl;
}

abbrev next_file : List Text
next_file = codes "diff --git a/x b/x" ∷ codes "index" ∷ []

abbrev patched : ParsedFilePatch
patched = record {
  old_path = some (codes "f");
  new_path = some (codes "f");
  change_type = modify;
  hunks = [];
}

read_hunks-apply_example :
    (hs : List Hunk) × ((read_hunks between (print (written ∷ []) ([] ∷ [])) ≡ ok (hs, []))
      × (apply_file_hunks (codes "a\nb\nd\ne\n") (record patched { hunks = hs })
          ≡ ok (codes "a\nc\nd\ne\n")))
unfolding number_from
read_hunks-apply_example =
    read_hunks-apply (written ∷ []) (record { gap = []; edits = edits } ∷ []) (codes "e" ∷ [])
      ([] ∷ []) patched (written-IsWritten, tt) refl refl (refl, (refl, (refl, (refl, tt))))

-- The removal of a comment of SQL.
abbrev comment_removed : Written
comment_removed = record {
  old_start = codes "1";
  old_lines = codes "2";
  new_start = codes "1";
  new_lines = codes "1";
  section = [];
  edits = keep_line (codes "select 1;") ∷ delete_line (codes "-- todo") ∷ [];
}

read_hunks-refused_example :
    read_hunks between
      (header_of comment_removed ∷ (map render comment_removed.edits ++ codes "@@ x" ∷ []))
    ≡ err invalid_content
read_hunks-refused_example =
    read_hunks-refused comment_removed (keep_line (codes "select 1;") ∷ []) []
      (delete_line (codes "-- todo")) (codes "@@ x" ∷ [])
      (record {
        numeral_old_start = (refl, refl);
        numeral_old_lines = (refl, refl);
        numeral_new_start = (refl, refl);
        numeral_new_lines = (refl, refl);
        sectioned = refl;
      })
      refl refl refl
