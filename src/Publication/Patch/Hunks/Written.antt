-- ===== src/Publication/Patch/Hunks/Written.antt =====
-- Hunks as they are written from an edit script, and the reading of their headers.
use coder_er.Base.{
  ℕ, ◌≡◌, refl, Bool, true, false, not, List, [], ◌∷◌, ◌++◌, map, Text, codes, all, length,
  starts_with, nat_equality, list_equality, ok, &&_parts,
}
use coder_er.Publication.Patch.{Hunk}
use coder_er.Publication.Patch.Script.{
  Edit, keep_line, delete_line, insert_line, old_of, new_of, render,
}
use coder_er.Publication.Patch.Hunks.{
  HunkHeader, is_digit, digits, number_from, is_empty, number, count, expect, is_section,
  read_header,
}

-- A line whose removal or addition is not taken for a header: `--` and `++` would make it `---`, `+++`.
abbrev pub is_plain : Edit → Bool
is_plain (keep_line t) = true
is_plain (delete_line t) = not (starts_with t (codes "--"))
is_plain (insert_line t) = not (starts_with t (codes "++"))

-- A hunk as it is written: the digits of its header, what follows them, and its edits.
pub record Written : Type 0 where
  pub old_start : Text
  pub old_lines : Text
  pub new_start : Text
  pub new_lines : Text
  pub section : Text
  pub edits : List Edit

abbrev pub header_of : Written → Text
header_of w =
    codes "@@ -"
    ++ (w.old_start
        ++ 44
          ∷ (w.old_lines
              ++ 32 ∷ 43 ∷ (w.new_start ++ 44 ∷ (w.new_lines ++ 32 ∷ 64 ∷ 64 ∷ w.section))))

abbrev pub print : List Written → List Text → List Text
print [] tail = tail
print (w ∷ ws) tail = header_of w ∷ (map render w.edits ++ print ws tail)

abbrev pub hunk_of : Written → Hunk
hunk_of w = record {
  old_start = number_from 0 w.old_start;
  old_lines = number_from 0 w.old_lines;
  new_start = number_from 0 w.new_start;
  new_lines = number_from 0 w.new_lines;
  lines = map render w.edits;
}

abbrev pub IsNumeral : Text → Type 0
IsNumeral s = (all is_digit s ≡ true) × (is_empty s ≡ false)

-- The numbers of a header are digits, and what follows it is a section or nothing.
pub record IsHeaded (w : Written) : Type 0 where
  pub numeral_old_start : IsNumeral w.old_start
  pub numeral_old_lines : IsNumeral w.old_lines
  pub numeral_new_start : IsNumeral w.new_start
  pub numeral_new_lines : IsNumeral w.new_lines
  pub sectioned : is_section w.section ≡ true

-- The header also counts the edits, and each of them is plain.
pub record IsWritten (w : Written) : Type 0 where
  pub headed : IsHeaded w
  pub counted_old : number_from 0 w.old_lines ≡ length (old_of w.edits)
  pub counted_new : number_from 0 w.new_lines ≡ length (new_of w.edits)
  pub plain : all is_plain w.edits ≡ true

abbrev pub header_read : Written → HunkHeader
header_read w = record {
  old_start = number_from 0 w.old_start;
  old_lines = number_from 0 w.old_lines;
  new_start = number_from 0 w.new_start;
  new_lines = number_from 0 w.new_lines;
}

digits-numeral :
    (s : Text) (c : ℕ) (rest : Text)
    → all is_digit s ≡ true
    → is_digit c ≡ false
    → digits (s ++ c ∷ rest) ≡ (s, c ∷ rest)
unfolding digits
digits-numeral [] c rest h stop = rw stop refl
digits-numeral (d ∷ s) c rest h stop =
    let (here, later) = &&_parts (is_digit d) (all is_digit s) h in
    rw (here, digits-numeral s c rest later stop) refl

number-numeral :
    (s : Text) (c : ℕ) (rest : Text)
    → IsNumeral s
    → is_digit c ≡ false
    → number (s ++ c ∷ rest) ≡ ok (number_from 0 s, c ∷ rest)
unfolding number
number-numeral s c rest (all_digits, some_digit) stop =
    rw (digits-numeral s c rest all_digits stop, some_digit) refl

pub read_header-header_of :
    (w : Written) → IsHeaded w → read_header (header_of w) ≡ ok (header_read w)
unfolding read_header expect count
read_header-header_of w i =
    rw
      (
        number-numeral w.old_start 44 _ i.numeral_old_start refl,
        number-numeral w.old_lines 32 _ i.numeral_old_lines refl,
        number-numeral w.new_start 44 _ i.numeral_new_start refl,
        number-numeral w.new_lines 32 _ i.numeral_new_lines refl,
        i.sectioned,
      )
      refl
