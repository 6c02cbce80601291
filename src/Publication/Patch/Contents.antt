-- ===== src/Publication/Patch/Contents.antt =====
-- The round trip on the contents of files, whose lines each end with a line feed.
use coder_er.Base.{
  ◌≡◌, refl, ap, ◌∙◌, Bool, true, false, List, [], ◌∷◌, ◌++◌, append_assoc, Text, drop, contains,
  nat_equality, list_equality, Result, ok, ◌>>=◌, arith, All,
}
use coder_er.Publication.Patch.{
  Progress, PatchError, ParsedFilePatch, apply_hunks, apply_file_hunks, split, join, base_lines,
  unset, drop_last_empty, with_newline, is_empty_text,
}
use coder_er.Publication.Patch.Script.{Segment, source, target, hunks_of}
use coder_er.Publication.Patch.Roundtrip.{apply_hunks-hunks_of}

-- A line holds no line feed.
abbrev pub IsLine : Text → Type 0
IsLine l = contains l 10 ≡ false

-- The content of a file of these lines.
abbrev pub unlines : List Text → Text
unlines [] = []
unlines (l ∷ ls) = l ++ 10 ∷ unlines ls

split-line : (l s : Text) → IsLine l → split (l ++ 10 ∷ s) ≡ l ∷ split s
split-line [] s h = refl
split-line (c ∷ l) s h = ground (arith, split-line l s)

split-unlines : (ls : List Text) → All IsLine ls → split (unlines ls) ≡ ls ++ [] ∷ []
split-unlines [] h = refl
split-unlines (l ∷ ls) (line, h) =
    split-line l (unlines ls) line ∙ ap (λ xs. l ∷ xs) (split-unlines ls h)

drop_last_empty-cons :
    (l k : Text) (ls : List Text)
    → drop_last_empty (l ∷ k ∷ ls)
      ≡ (l ∷ (drop_last_empty (k ∷ ls)).0, (drop_last_empty (k ∷ ls)).1)
drop_last_empty-cons [] k ls = refl
drop_last_empty-cons (c ∷ l) k ls = refl

drop_last_empty-append : (ls : List Text) → drop_last_empty (ls ++ [] ∷ []) ≡ (ls, true)
drop_last_empty-append [] = refl
drop_last_empty-append (l ∷ []) = drop_last_empty-cons l [] []
drop_last_empty-append (l ∷ k ∷ ls) =
    drop_last_empty-cons l k (ls ++ [] ∷ []) ∙ rw (drop_last_empty-append (k ∷ ls)) refl

base_lines-cons : (l s : Text) → base_lines (l ++ 10 ∷ s) ≡ drop_last_empty (split (l ++ 10 ∷ s))
base_lines-cons [] s = refl
base_lines-cons (c ∷ l) s = refl

base_lines-unlines :
    (l : Text) (ls : List Text)
    → All IsLine (l ∷ ls)
    → base_lines (unlines (l ∷ ls)) ≡ (l ∷ ls, true)
base_lines-unlines l ls h =
    base_lines-cons l (unlines ls)
    ∙ (ap drop_last_empty (split-unlines (l ∷ ls) h) ∙ drop_last_empty-append (l ∷ ls))

with_newline-unlines : (ls : List Text) → with_newline true ls ≡ unlines ls
with_newline-unlines [] = refl
with_newline-unlines (l ∷ []) = refl
with_newline-unlines (l ∷ k ∷ ls) =
    append_assoc l (10 ∷ join (k ∷ ls)) (10 ∷ [])
    ∙ ap (λ xs. l ++ 10 ∷ xs) (with_newline-unlines (k ∷ ls))

abbrev start_progress : Bool → Progress
start_progress ends = record {
  old_index = 0;
  output = [];
  previous_kind = unset;
  ends_with_newline = ends;
}

finish : Progress → List Text → Result PatchError Text
finish p base = ok (with_newline p.ends_with_newline (p.output ++ drop p.old_index base))

is_empty_text-append : (l s : Text) → is_empty_text (l ++ 10 ∷ s) ≡ false
is_empty_text-append [] s = refl
is_empty_text-append (c ∷ l) s = refl

-- For an empty file too.
apply_file_hunks-unlines :
    (ls : List Text) (file : ParsedFilePatch)
    → All IsLine ls
    → apply_file_hunks (unlines ls) file
      ≡ (apply_hunks ls file.hunks (start_progress true) >>= λ p. finish p ls)
unfolding apply_file_hunks finish
apply_file_hunks-unlines [] file h = refl
apply_file_hunks-unlines (l ∷ ls) file h =
    rw (base_lines-unlines l ls h, is_empty_text-append l (unlines ls)) refl

-- A patch whose hunks are written from an edit script, with the line numbers that the script gives,
-- applied to the content of the script's old lines, yields the content of its new lines. The old
-- lines hold no line feed, and every line of either content ends with one.
pub apply_file_hunks-script :
    (ss : List Segment) (tail : List Text) (file : ParsedFilePatch)
    → All IsLine (source ss tail)
    → file.hunks ≡ hunks_of 0 0 ss
    → apply_file_hunks (unlines (source ss tail)) file ≡ ok (unlines (target ss tail))
unfolding finish
apply_file_hunks-script ss tail file lines h =
    let base = source ss tail in
    let (q, run, output, newline) =
      apply_hunks-hunks_of base ss tail 0 (start_progress true) refl in
    apply_file_hunks-unlines base file lines
    ∙ rw (h, run) (rw (newline, output) (ap ok (with_newline-unlines (target ss tail))))
