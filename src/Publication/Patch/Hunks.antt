-- ===== src/Publication/Patch/Hunks.antt =====
-- Reading the hunks of one file of a unified diff: the loop over hunks of `parseUnifiedDiffFiles`
-- (packages/publication/src/execution.ts). Its two nested loops are one pass over the lines, which is
-- between hunks or inside one. A header's numbers are natural numbers without a bound.
pub mod Written
pub mod Printed
use coder_er.Base.{
  ℕ, ◌+◌, ◌-◌, ◌*◌, Bool, true, false, not, ◌&&◌, ◌||◌, List, [], ◌∷◌, ◌++◌, Text, codes, any, ltb,
  starts_with, contains, ◌==◌, nat_equality, list_equality, if◌then◌else◌, Result, ok, err, ◌>>=◌,
  ◌>>◌, throw_if,
}
use coder_er.Publication.Patch.{Hunk, no_newline_marker}

pub data HunkError : Type 0 where
  malformed_header invalid_content counts_differ : HunkError

pub record HunkHeader : Type 0 where
  pub old_start : ℕ
  pub old_lines : ℕ
  pub new_start : ℕ
  pub new_lines : ℕ

abbrev pub is_digit : ℕ → Bool
is_digit c = not (ltb c 48) && not (ltb 57 c)

-- The longest prefix of digits, and the text that is left.
unfoldable pub digits : Text → Text × Text
digits [] = ([], [])
digits (c ∷ s) = let later = digits s in if is_digit c then (c ∷ later.0, later.1) else ([], c ∷ s)

-- `Number` of digits that follow the number `n`.
unfoldable pub number_from : ℕ → Text → ℕ
number_from n [] = n
number_from n (c ∷ s) = number_from (n * 10 + (c - 48)) s

abbrev pub is_empty : Text → Bool
is_empty [] = true
is_empty (c ∷ s) = false

unfoldable pub number : Text → Result HunkError (ℕ × Text)
number s =
    if is_empty (digits s).0
    then err malformed_header
    else ok (number_from 0 (digits s).0, (digits s).1)

-- `(?:,(\d+))?`, 1 where it is left out.
unfoldable pub count : Text → Result HunkError (ℕ × Text)
unfolding number
count [] = ok (1, [])
count (c ∷ s) = if c == 44 then number s else ok (1, c ∷ s)

unfoldable pub expect : Text → Text → Result HunkError Text
expect [] s = ok s
expect (p ∷ ps) [] = err malformed_header
expect (p ∷ ps) (c ∷ s) = let rest = expect ps s in if c == p then rest else err malformed_header

-- `(?: .*)?$`: nothing, or a space and a text without a line terminator.
abbrev pub is_terminator : ℕ → Bool
is_terminator c = c == 10 || c == 13 || c == 8232 || c == 8233

abbrev pub is_section : Text → Bool
is_section [] = true
is_section (c ∷ s) = c == 32 && not (any is_terminator s)

-- `HUNK_HEADER`.
unfoldable pub read_header : Text → Result HunkError HunkHeader
unfolding number count expect
read_header l = do
  s ← expect (codes "@@ -") l
  old_start ← number s
  old_lines ← count old_start.1
  t ← expect (codes " +") old_lines.1
  new_start ← number t
  new_lines ← count new_start.1
  section ← expect (codes " @@") new_lines.1
  throw_if (not (is_section section)) malformed_header
  ok (record {
    old_start = old_start.0;
    old_lines = old_lines.0;
    new_start = new_start.0;
    new_lines = new_lines.0;
  })

-- How many old and new lines a content line stands for.
unfoldable pub count_line : Text → Result HunkError (ℕ × ℕ)
count_line l =
    if starts_with l (codes "+") && not (starts_with l (codes "+++"))
    then ok (0, 1)
    else if starts_with l (codes "-") && not (starts_with l (codes "---"))
    then ok (1, 0)
    else if starts_with l (codes " ")
    then ok (1, 1)
    else if not (l == no_newline_marker)
    then err invalid_content
    else ok (0, 0)

-- Between hunks, or in one: its header, the old and new lines that are counted, and its lines.
pub data Reading : Type 0 where
  between : Reading
  inside : HunkHeader → ℕ → ℕ → List Text → Reading

abbrev pub finished : HunkHeader → ℕ → ℕ → List Text → Result HunkError Hunk
finished h old new lines =
    if not (old == h.old_lines) || not (new == h.new_lines)
    then err counts_differ
    else ok (record {
      old_start = h.old_start;
      old_lines = h.old_lines;
      new_start = h.new_start;
      new_lines = h.new_lines;
      lines = lines;
    })

abbrev pub is_none_left : List Text → Bool
is_none_left [] = true
is_none_left (l ∷ ls) = false

abbrev pub Hunks : Type 0
Hunks = Result HunkError (List Hunk × List Text)

-- The hunks that follow a hunk, if its lines are counted right.
abbrev pub after_hunk : Result HunkError Hunk → Hunks → Hunks
after_hunk (err e) more = err e
after_hunk (ok h) (ok (hs, rest)) = ok (h ∷ hs, rest)
after_hunk (ok h) (err e) = err e

abbrev pub starts_file : Text → Bool
starts_file l = starts_with l (codes "diff --git ")

abbrev pub starts_hunk : Text → Bool
starts_hunk l = starts_with l (codes "@@ ")

-- The hunks, and the lines from the next file on.
unfoldable pub read_hunks : Reading → List Text → Hunks
unfolding read_header count_line
read_hunks between [] = ok ([], [])
read_hunks between (l ∷ ls) =
    let skipped = read_hunks between ls in
    let opened = read_header l >>= (λ h. read_hunks (inside h 0 0 []) ls) in
    if starts_file l then ok ([], l ∷ ls) else if is_empty l then skipped else opened
read_hunks (inside h old new lines) [] = after_hunk (finished h old new lines) (ok ([], []))
read_hunks (inside h old new lines) (l ∷ ls) =
    let closed = finished h old new lines in
    let opened = read_header l >>= (λ next. read_hunks (inside next 0 0 []) ls) in
    let longer =
      count_line l >>= (λ c. read_hunks (inside h (old + c.0) (new + c.1) (lines ++ l ∷ [])) ls) in
    if starts_hunk l
    then after_hunk closed opened
    else if starts_file l
    then after_hunk closed (ok ([], l ∷ ls))
    else if is_empty l && is_none_left ls
    then after_hunk closed (ok ([], []))
    else longer
