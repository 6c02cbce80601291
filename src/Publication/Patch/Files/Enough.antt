-- ===== src/Publication/Patch/Files/Enough.antt =====
-- The fuel of the loop over the files is enough, and what the files are.
use coder_er.Base.{
  ℕ, zero, suc, ◌≤◌, ◌≡◌, ◌≢◌, refl, subst, Bool, true, false, not, ◌||◌, ◌&&◌, List, [], ◌∷◌, ◌++◌,
  Text, length, if◌then◌else◌, Result, ok, err, ◌>>=◌, arith, All, ◌+◌, throw_if, Option, none,
  some,
}
use coder_er.Publication.Patch.{Hunk, ParsedFilePatch}
use coder_er.Publication.Patch.Hunks.{
  Reading, Hunks, HunkError, between, inside, read_hunks, after_hunk, finished, read_header,
  count_line, starts_file, starts_hunk, is_empty, is_none_left,
}
use coder_er.Publication.Patch.Paths.{normalize_patch_path}
use coder_er.Publication.Patch.Sections.{
  SectionError, Heading, heading_line, heading_lines, read_file, read_section, read_body,
  match_header, in_section, is_usable, effective_path, new_side, old_side, has_no_hunks,
  no_usable_path, no_hunks, bad_hunk, bad_path,
}
use coder_er.Publication.Patch.Sections.Safety.{IsInside, read_file-IsInside}
use coder_er.Publication.Patch.Files.{
  FilesError, out_of_fuel, in_files, read_files, some_files, parse_unified_diff_files,
}

-- What a step leaves is at most a number of lines.
abbrev IsWithin {ℓ κ} : {E : Type ℓ} {A : Type κ} → ℕ → Result E (A × List Text) → Type 0
IsWithin n (ok r) = length r.1 ≤ n
IsWithin n (err e) = Unit

IsWithin-if {ℓ κ} :
    {E : Type ℓ} {A : Type κ} (n : ℕ) (test : Bool) (a b : Result E (A × List Text))
    → IsWithin n a
    → IsWithin n b
    → IsWithin n (if test then a else b)
IsWithin-if n true a b ha hb = ha
IsWithin-if n false a b ha hb = hb

IsWithin-bind {ℓ κ μ} :
    {E : Type ℓ} {A : Type κ} {B : Type μ} (n : ℕ) (first : Result E B)
    (next : B → Result E (A × List Text))
    → ((b : B) → IsWithin n (next b))
    → IsWithin n (first >>= next)
IsWithin-bind n (ok b) next h = h b
IsWithin-bind n (err e) next h = tt

longer {ℓ κ} :
    {E : Type ℓ} {A : Type κ} (n : ℕ) (r : Result E (A × List Text))
    → IsWithin n r
    → IsWithin (suc n) r
longer n (ok r) h = omega arith
longer n (err e) h = tt

at_most {ℓ κ} :
    {E : Type ℓ} {A : Type κ} (k n : ℕ) (r : Result E (A × List Text))
    → k ≤ n
    → IsWithin k r
    → IsWithin n r
at_most k n (ok r) less h = omega arith
at_most k n (err e) less h = tt

after-IsWithin :
    (n : ℕ) (h : Result HunkError Hunk) (more : Hunks)
    → IsWithin n more
    → IsWithin n (after_hunk h more)
after-IsWithin n (err e) more h = tt
after-IsWithin n (ok k) (ok r) h = h
after-IsWithin n (ok k) (err e) h = tt

read_hunks-IsWithin : (s : Reading) (ls : List Text) → IsWithin (length ls) (read_hunks s ls)
unfolding read_hunks
read_hunks-IsWithin between [] = omega arith
read_hunks-IsWithin between (l ∷ ls) = IsWithin-if _ (starts_file l) _ _ (omega arith) (
    IsWithin-if _ (is_empty l) _ _
      (longer (length ls) (read_hunks between ls) (read_hunks-IsWithin between ls))
      (IsWithin-bind _ (read_header l) _ λ h.
        longer (length ls) (read_hunks (inside h 0 0 []) ls)
          (read_hunks-IsWithin (inside h 0 0 []) ls)))
read_hunks-IsWithin (inside h old new lines) [] =
    after-IsWithin _ (finished h old new lines) (ok ([], [])) (omega arith)
read_hunks-IsWithin (inside h old new lines) (l ∷ ls) =
    let closed = finished h old new lines in
    IsWithin-if _ (starts_hunk l) _ _
      (after-IsWithin _ closed _ (
        IsWithin-bind _ (read_header l) _ λ k.
          longer (length ls) (read_hunks (inside k 0 0 []) ls)
            (read_hunks-IsWithin (inside k 0 0 []) ls)))
      (IsWithin-if _ (starts_file l) _ _ (after-IsWithin _ closed (ok ([], l ∷ ls)) (omega arith)) (
        IsWithin-if _ (is_empty l && is_none_left ls) _ _
          (after-IsWithin _ closed (ok ([], [])) (omega arith))
          (IsWithin-bind _ (count_line l) _ λ c.
            longer (length ls) (read_hunks (inside h (old + c.0) (new + c.1) (lines ++ l ∷ [])) ls)
              (read_hunks-IsWithin (inside h (old + c.0) (new + c.1) (lines ++ l ∷ [])) ls))))

heading_lines-IsWithin : (h : Heading) (ls : List Text) → IsWithin (length ls) (heading_lines h ls)
unfolding heading_lines
heading_lines-IsWithin h [] = omega arith
heading_lines-IsWithin h (l ∷ ls) =
    IsWithin-if _ (starts_hunk l || starts_file l) _ _ (omega arith) (
      IsWithin-bind _ (heading_line l h) _
        λ next. longer (length ls) (heading_lines next ls) (heading_lines-IsWithin next ls))

IsWithin-then {ℓ κ μ} :
    {E : Type ℓ} {A : Type κ} {B : Type μ} (n : ℕ) (first : Result E (B × List Text))
    (next : B × List Text → Result E (A × List Text))
    → IsWithin n first
    → ((b : B × List Text) → length b.1 ≤ n → IsWithin n (next b))
    → IsWithin n (first >>= next)
IsWithin-then n (ok b) next here h = h b here
IsWithin-then n (err e) next here h = tt

section-IsWithin {ℓ} :
    {E A : Type ℓ} (n : ℕ) (f : E → SectionError) (r : Result E (A × List Text))
    → IsWithin n r
    → IsWithin n (in_section f r)
section-IsWithin n f (ok r) h = h
section-IsWithin n f (err e) h = tt

read_body-IsWithin :
    (n : ℕ) (h : Heading) (ls : List Text) → length ls ≤ n → IsWithin n (read_body h ls)
unfolding read_body
read_body-IsWithin n h ls shorter =
    IsWithin-bind n
      (throw_if (not (is_usable (effective_path (new_side h) (old_side h)))) no_usable_path) _
      λ _.
        IsWithin-then n (in_section bad_hunk (read_hunks between ls)) _
          (section-IsWithin n bad_hunk (read_hunks between ls) (
            at_most (length ls) n (read_hunks between ls) shorter (read_hunks-IsWithin between ls)))
          λ found less.
            IsWithin-bind n
              (throw_if (has_no_hunks found.0 && not (is_usable h.rename_from)) no_hunks) _
              λ _. less

read_section-IsWithin :
    (names : Option (Text × Text)) (ls : List Text) → IsWithin (length ls) (read_section names ls)
unfolding read_section
read_section-IsWithin none ls = tt
read_section-IsWithin (some (a, b)) ls =
    IsWithin-bind _ (in_section bad_path (normalize_patch_path a)) _ λ old_path.
      IsWithin-bind _ (in_section bad_path (normalize_patch_path b)) _ λ new_path.
        let h : Heading = record {
          old_path = some old_path;
          new_path = some new_path;
          new_file = false;
          deleted_file = false;
          rename_from = none;
          rename_to = none;
        } in
        IsWithin-then _ (in_section bad_path (heading_lines h ls)) _
          (section-IsWithin _ bad_path (heading_lines h ls) (heading_lines-IsWithin h ls))
          λ head less. read_body-IsWithin _ head.0 head.1 less

read_file-IsWithin : (l : Text) (ls : List Text) → IsWithin (length ls) (read_file l ls)
unfolding read_file
read_file-IsWithin l ls = read_section-IsWithin (match_header l) ls

abbrev IsSafe : ParsedFilePatch → Type 0
IsSafe file =
    IsInside file.old_path
    × IsInside file.new_path
    × (is_usable (effective_path file.new_path file.old_path) ≡ true)

-- Safe files, or an error that is not the end of the fuel.
abbrev pub IsSound : Result FilesError (List ParsedFilePatch) → Type 0
IsSound (ok files) = All IsSafe files
IsSound (err e) = e ≢ out_of_fuel

IsSound-if :
    (test : Bool) (a b : Result FilesError (List ParsedFilePatch))
    → IsSound a
    → IsSound b
    → IsSound (if test then a else b)
IsSound-if true a b ha hb = ha
IsSound-if false a b ha hb = hb

with_more :
    (file : ParsedFilePatch) (more : Result FilesError (List ParsedFilePatch))
    → IsSafe file
    → IsSound more
    → IsSound (more >>= λ files. ok (file ∷ files))
with_more file (ok files) safe sound = (safe, sound)
with_more file (err e) safe sound = sound

opened-IsSound :
    (fuel : ℕ) (first : Result SectionError (ParsedFilePatch × List Text))
    → ((r : ParsedFilePatch × List Text)
        → first ≡ ok r
        → IsSafe r.0 × IsSound (read_files fuel r.1))
    → IsSound (in_files first >>= λ found. read_files fuel found.1 >>= λ more. ok (found.0 ∷ more))
opened-IsSound fuel (ok r) h = with_more r.0 (read_files fuel r.1) (h r refl).0 (h r refl).1
opened-IsSound fuel (err e) h = λ same. cc

read_files-IsSound : (fuel : ℕ) (ls : List Text) → length ls ≤ fuel → IsSound (read_files fuel ls)
unfolding read_files
read_files-IsSound zero [] h = tt
read_files-IsSound (suc fuel) [] h = tt
read_files-IsSound zero (l ∷ ls) h = omega arith
read_files-IsSound (suc fuel) (l ∷ ls) h =
    IsSound-if (is_empty l) _ _ (read_files-IsSound fuel ls (omega arith)) (
      opened-IsSound fuel (read_file l ls) λ r e.
        let less : length r.1 ≤ length ls =
          subst (IsWithin (length ls)) e (read_file-IsWithin l ls) in
        (read_file-IsInside l ls r.0 r.1 e, read_files-IsSound fuel r.1 (omega arith)))

some-IsSound :
    (r : Result FilesError (List ParsedFilePatch)) → IsSound r → IsSound (r >>= some_files)
some-IsSound (ok []) h = λ same. cc
some-IsSound (ok (f ∷ fs)) h = h
some-IsSound (err e) h = h

-- The loop over the files ends: the lines are enough fuel. Every file it returns has a path that is
-- not empty, and no path with a segment `..`.
pub parse_unified_diff_files-IsSound :
    (lines : List Text) → IsSound (parse_unified_diff_files lines)
unfolding parse_unified_diff_files
parse_unified_diff_files-IsSound lines =
    some-IsSound (read_files (length lines) lines)
      (read_files-IsSound (length lines) lines (omega arith))
