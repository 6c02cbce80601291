-- ===== src/Publication/Patch/Hunks/Printed.antt =====
-- Hunks that are written from an edit script are read back, and applied.
use coder_er.Base.{
  ap, err, ℕ, ◌+◌, ◌≡◌, refl, sym, ◌∙◌, Bool, true, false, ◌&&◌, ◌||◌, List, [], ◌∷◌, ◌++◌, map,
  Text, all, length, append_assoc, append-nil, All, nat_equality, list_equality, ok, arith,
  &&_parts, ==_refl, if◌then◌else◌,
}
use coder_er.Publication.Patch.{Hunk}
use coder_er.Publication.Patch.Script.{
  Edit, keep_line, delete_line, insert_line, old_of, new_of, render,
}
use coder_er.Publication.Patch.Hunks.{
  invalid_content, HunkHeader, number_from, is_empty, count_line, between, inside, finished,
  is_none_left, starts_file, starts_hunk, read_hunks,
}
use coder_er.Publication.Patch.{ParsedFilePatch, apply_file_hunks}
use coder_er.Publication.Patch.Script.{Segment, source, target, hunks_of}
use coder_er.Publication.Patch.Contents.{IsLine, unlines, apply_file_hunks-script}
use coder_er.Publication.Patch.Hunks.Written.{
  is_plain, Written, header_of, print, hunk_of, IsHeaded, IsWritten, header_read,
  read_header-header_of,
}

-- The lines end, with an empty line or not, or the next file begins.
abbrev pub is_end : List Text → Bool
is_end [] = true
is_end (l ∷ ls) = starts_file l || is_empty l && is_none_left ls

abbrev pub left_by : List Text → List Text
left_by [] = []
left_by (l ∷ ls) = if starts_file l then l ∷ ls else []

same_reading :
    (h : HunkHeader) (old old' new new' : ℕ) (lines lines' ls : List Text)
    → old ≡ old'
    → new ≡ new'
    → lines ≡ lines'
    → read_hunks (inside h old new lines) ls ≡ read_hunks (inside h old' new' lines') ls
same_reading h old old' new new' lines lines' ls e f g = rw (e, f, g) refl

-- The content lines of a hunk are taken one after another, and counted.
read_hunks-content :
    (h : HunkHeader) (old new : ℕ) (lines : List Text) (es : List Edit) (tail : List Text)
    → all is_plain es ≡ true
    → read_hunks (inside h old new lines) (map render es ++ tail)
      ≡ read_hunks
          (inside h (old + length (old_of es)) (new + length (new_of es)) (lines ++ map render es))
          tail
unfolding read_hunks count_line
read_hunks-content h old new lines [] tail plain =
    same_reading h _ _ _ _ _ _ tail (omega arith) (omega arith) (sym (append-nil lines))
read_hunks-content h old new lines (keep_line t ∷ es) tail plain =
    read_hunks-content h (old + 1) (new + 1) (lines ++ (32 ∷ t) ∷ []) es tail plain
    ∙ same_reading h _ _ _ _ _ _ tail (omega arith) (omega arith)
        (append_assoc lines ((32 ∷ t) ∷ []) (map render es))
read_hunks-content h old new lines (delete_line t ∷ es) tail plain =
    let (here, later) = &&_parts (is_plain (delete_line t)) (all is_plain es) plain in
    rw here (
      read_hunks-content h (old + 1) (new + 0) (lines ++ (45 ∷ t) ∷ []) es tail later
      ∙ same_reading h _ _ _ _ _ _ tail (omega arith) (omega arith)
          (append_assoc lines ((45 ∷ t) ∷ []) (map render es)))
read_hunks-content h old new lines (insert_line t ∷ es) tail plain =
    let (here, later) = &&_parts (is_plain (insert_line t)) (all is_plain es) plain in
    rw here (
      read_hunks-content h (old + 0) (new + 1) (lines ++ (43 ∷ t) ∷ []) es tail later
      ∙ same_reading h _ _ _ _ _ _ tail (omega arith) (omega arith)
          (append_assoc lines ((43 ∷ t) ∷ []) (map render es)))

finished-hunk_of :
    (w : Written)
    → IsWritten w
    → finished
        (header_read w)
        (length (old_of w.edits))
        (length (new_of w.edits))
        (map render w.edits)
      ≡ ok (hunk_of w)
finished-hunk_of w i =
    rw
      (
        sym i.counted_old,
        sym i.counted_new,
        ==_refl (number_from 0 w.old_lines),
        ==_refl (number_from 0 w.new_lines),
      )
      refl

begins_file :
    (c : ℕ) (l : Text) (ls : List Text) → is_end ((c ∷ l) ∷ ls) ≡ true → starts_file (c ∷ l) ≡ true
begins_file c l ls ends = ground (arith, ends)

no_hunk : (c : ℕ) (l : Text) → starts_file (c ∷ l) ≡ true → starts_hunk (c ∷ l) ≡ false
no_hunk c l file = ground (arith, file)

read_hunks-end :
    (w : Written) (tail : List Text)
    → IsWritten w
    → is_end tail ≡ true
    → read_hunks
        (inside
          (header_read w)
          (length (old_of w.edits))
          (length (new_of w.edits))
          (map render w.edits))
        tail
      ≡ ok (hunk_of w ∷ [], left_by tail)
unfolding read_hunks
read_hunks-end w [] i ends = rw (finished-hunk_of w i) refl
read_hunks-end w ([] ∷ []) i ends = rw (finished-hunk_of w i) refl
read_hunks-end w ([] ∷ l ∷ ls) i ends = cc
read_hunks-end w ((c ∷ l) ∷ ls) i ends =
    let file = begins_file c l ls ends in rw (no_hunk c l file, file, finished-hunk_of w i) refl

read_hunks-between :
    (tail : List Text) → is_end tail ≡ true → read_hunks between tail ≡ ok ([], left_by tail)
unfolding read_hunks
read_hunks-between [] ends = refl
read_hunks-between ([] ∷ []) ends = refl
read_hunks-between ([] ∷ l ∷ ls) ends = cc
read_hunks-between ((c ∷ l) ∷ ls) ends = rw (begins_file c l ls ends) refl

read_hunks-inside :
    (w : Written) (ws : List Written) (tail : List Text)
    → IsWritten w
    → All IsWritten ws
    → is_end tail ≡ true
    → read_hunks (inside (header_read w) 0 0 []) (map render w.edits ++ print ws tail)
      ≡ ok (hunk_of w ∷ map hunk_of ws, left_by tail)
unfolding read_hunks
read_hunks-inside w [] tail i is ends =
    read_hunks-content (header_read w) 0 0 [] w.edits tail i.plain
    ∙ same_reading (header_read w) (0 + length (old_of w.edits)) (length (old_of w.edits))
        (0 + length (new_of w.edits)) (length (new_of w.edits)) (map render w.edits)
        (map render w.edits) tail (omega arith) (omega arith) refl
    ∙ read_hunks-end w tail i ends
read_hunks-inside w (v ∷ ws) tail i (j, is) ends =
    read_hunks-content (header_read w) 0 0 [] w.edits (print (v ∷ ws) tail) i.plain
    ∙ same_reading (header_read w) (0 + length (old_of w.edits)) (length (old_of w.edits))
        (0 + length (new_of w.edits)) (length (new_of w.edits)) (map render w.edits)
        (map render w.edits) (print (v ∷ ws) tail) (omega arith) (omega arith) refl
    ∙ rw
        (
          finished-hunk_of w i,
          read_header-header_of v j.headed,
          read_hunks-inside v ws tail j is ends,
        )
        refl

refused_line :
    (h : HunkHeader) (old new : ℕ) (lines : List Text) (bad : Edit) (tail : List Text)
    → is_plain bad ≡ false
    → read_hunks (inside h old new lines) (render bad ∷ tail) ≡ err invalid_content
unfolding read_hunks count_line
refused_line h old new lines (keep_line t) tail bad = cc
refused_line h old new lines (delete_line t) tail bad = rw bad refl
refused_line h old new lines (insert_line t) tail bad = rw bad refl

map-append : {A B : Type 0} (f : A → B) (xs ys : List A) → map f (xs ++ ys) ≡ map f xs ++ map f ys
map-append f [] ys = refl
map-append f (x ∷ xs) ys = ap (λ zs. f x ∷ zs) (map-append f xs ys)

-- The hunks of a file that are written from edit scripts, with the numbers of their lines in digits
-- and no removed line that begins with `--` and no added line that begins with `++`, are read back as
-- they were written, up to the end of the lines or the next file.
pub read_hunks-print :
    (ws : List Written) (tail : List Text)
    → All IsWritten ws
    → is_end tail ≡ true
    → read_hunks between (print ws tail) ≡ ok (map hunk_of ws, left_by tail)
unfolding read_hunks
read_hunks-print [] tail is ends = read_hunks-between tail ends
read_hunks-print (w ∷ ws) tail (i, is) ends =
    rw (read_header-header_of w i.headed, read_hunks-inside w ws tail i is ends) refl

-- A hunk is refused that removes a line beginning with `--`, or adds one beginning with `++`: such a
-- content line begins as a file header does, and is invalid content, whatever comes before and after.
pub read_hunks-refused :
    (w : Written) (before after : List Edit) (bad : Edit) (tail : List Text)
    → IsHeaded w
    → w.edits ≡ before ++ bad ∷ after
    → all is_plain before ≡ true
    → is_plain bad ≡ false
    → read_hunks between (header_of w ∷ (map render w.edits ++ tail)) ≡ err invalid_content
unfolding read_hunks
read_hunks-refused w before after bad tail i e plain not_plain =
    rw (read_header-header_of w i, e, map-append render before (bad ∷ after))
      (ap (λ ls. read_hunks (inside (header_read w) 0 0 []) ls)
          (append_assoc (map render before) (map render (bad ∷ after)) tail)
        ∙ read_hunks-content (header_read w) 0 0 [] before (map render (bad ∷ after) ++ tail) plain
        ∙ refused_line (header_read w) _ _ _ bad (map render after ++ tail) not_plain)

-- Hunks written from edit scripts, each under a header whose numbers are in digits, with no removed
-- line that begins with `--` and no added line that begins with `++`, numbered as the segments of a
-- whole file count their lines, and followed by nothing or by the next file, are read back and, applied
-- to the content of the segments' old lines, yield the content of their new lines. The old lines hold
-- no line feed, and every line of either content ends with one.
pub read_hunks-apply :
    (ws : List Written) (ss : List Segment) (tail rest : List Text) (file : ParsedFilePatch)
    → All IsWritten ws
    → is_end rest ≡ true
    → map hunk_of ws ≡ hunks_of 0 0 ss
    → All IsLine (source ss tail)
    → (hs : List Hunk) × ((read_hunks between (print ws rest) ≡ ok (hs, left_by rest))
        × (apply_file_hunks (unlines (source ss tail)) (record file { hunks = hs })
            ≡ ok (unlines (target ss tail))))
read_hunks-apply ws ss tail rest file is ends same lines = (
  map hunk_of ws,
  (
    read_hunks-print ws rest is ends,
    apply_file_hunks-script ss tail (record file { hunks = map hunk_of ws }) lines same,
  ),
)
