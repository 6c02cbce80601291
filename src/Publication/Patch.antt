-- ===== src/Publication/Patch.antt =====
-- Applying the hunks of a patch to a file (packages/publication/src/execution.ts). A text is its
-- character codes; 10 is the line feed.
pub mod Script
pub mod Roundtrip
pub mod Contents
pub mod Hunks
pub mod Paths
pub mod Sections
pub mod Files
use coder_er.Base.{
  ℕ, zero, suc, ◌+◌, ◌-◌, ◌<◌, Bool, true, false, not, ◌&&◌, ◌||◌, Option, none, some, List, [],
  ◌∷◌, ◌++◌, Text, codes, ltb, leb, length, take, drop, get_elem?, ◌==◌, nat_equality,
  list_equality, if◌then◌else◌, Result, ok, err, ◌>>=◌,
}

pub data ChangeType : Type 0 where
  add modify delete rename : ChangeType

pub record Hunk : Type 0 where
  pub old_start : ℕ
  pub old_lines : ℕ
  pub new_start : ℕ
  pub new_lines : ℕ
  pub lines : List Text

pub record ParsedFilePatch : Type 0 where
  pub old_path : Option Text
  pub new_path : Option Text
  pub change_type : ChangeType
  pub hunks : List Hunk

pub data PatchError : Type 0 where
  hunks_out_of_order context_mismatch removal_mismatch invalid_line : PatchError

abbrev prepend : ℕ → List Text → List Text
prepend c [] = (c ∷ []) ∷ []
prepend c (l ∷ ls) = (c ∷ l) ∷ ls

-- `split('\n')` and `join('\n')`.
abbrev pub split : Text → List Text
split [] = [] ∷ []
split (c ∷ s) = let rest = split s in if c == 10 then [] ∷ rest else prepend c rest

abbrev pub join : List Text → Text
join [] = []
join (l ∷ []) = l
join (l ∷ k ∷ ls) = l ++ 10 ∷ join (k ∷ ls)

abbrev pub no_newline_marker : Text
no_newline_marker = codes "\\ No newline at end of file"

-- What the first character of a hunk line says.
pub data Kind : Type 0 where
  unset context removal addition other : Kind

abbrev pub kind_of : Text → Kind
kind_of [] = other
kind_of (c ∷ s) =
    if c == 32 then context else if c == 45 then removal else if c == 43 then addition else other

abbrev pub rest_of : Text → Text
rest_of [] = []
rest_of (c ∷ s) = s

-- The local variables of the two loops.
pub record Progress : Type 0 where
  pub old_index : ℕ
  pub output : List Text
  pub previous_kind : Kind
  pub ends_with_newline : Bool

abbrev pub same_line : Option Text → Text → Bool
same_line none text = false
same_line (some l) text = l == text

abbrev pub line_matches : List Text → ℕ → Text → Bool
line_matches base i text = same_line (get_elem? base i) text

-- The marker says of the line before it that no line feed follows.
abbrev note_marker : Kind → Bool → Bool
note_marker context b = false
note_marker addition b = false
note_marker removal b = true
note_marker unset b = b
note_marker other b = b

apply_kind : Kind → List Text → Text → Progress → Result PatchError Progress
apply_kind context base text p =
    if line_matches base p.old_index text
    then ok (record p {
      old_index = p.old_index + 1;
      output = p.output ++ text ∷ [];
      previous_kind = context;
    })
    else err context_mismatch
apply_kind removal base text p =
    if line_matches base p.old_index text
    then ok (record p { old_index = p.old_index + 1; previous_kind = removal })
    else err removal_mismatch
apply_kind addition base text p =
    ok (record p { output = p.output ++ text ∷ []; previous_kind = addition })
apply_kind unset base text p = err invalid_line
apply_kind other base text p = err invalid_line

apply_line : List Text → Text → Progress → Result PatchError Progress
unfolding apply_kind
apply_line base line p =
    if line == no_newline_marker
    then ok (record p { ends_with_newline = note_marker p.previous_kind p.ends_with_newline })
    else apply_kind (kind_of line) base (rest_of line) p

pub apply_lines : List Text → List Text → Progress → Result PatchError Progress
apply_lines base [] p = ok p
apply_lines base (l ∷ ls) p = apply_line base l p >>= apply_lines base ls

abbrev pub start_index : Hunk → ℕ
start_index h = if h.old_start == 0 then 0 else h.old_start - 1

-- `slice(from, to)` for `from` up to `to`.
abbrev pub slice : List Text → ℕ → ℕ → List Text
slice base from to = take (to - from) (drop from base)

apply_hunk : List Text → Hunk → Progress → Result PatchError Progress
apply_hunk base h p =
    if ltb (start_index h) p.old_index
    then err hunks_out_of_order
    else apply_lines base h.lines (record p {
      old_index = start_index h;
      output = p.output ++ slice base p.old_index (start_index h);
      previous_kind = unset;
    })

unfoldable pub apply_hunks : List Text → List Hunk → Progress → Result PatchError Progress
unfolding apply_hunk apply_lines apply_line
apply_hunks base [] p = ok p
apply_hunks base (h ∷ hs) p = apply_hunk base h p >>= apply_hunks base hs

-- The lines, without the empty one that follows a last line feed, and whether there was one.
abbrev drop_last_empty : List Text → List Text × Bool
drop_last_empty [] = ([], false)
drop_last_empty ([] ∷ []) = ([], true)
drop_last_empty ((c ∷ l) ∷ []) = ((c ∷ l) ∷ [], false)
drop_last_empty (l ∷ k ∷ ls) = let (rest, ended) = drop_last_empty (k ∷ ls) in (l ∷ rest, ended)

abbrev pub base_lines : Text → List Text × Bool
base_lines [] = ([], false)
base_lines (c ∷ s) = drop_last_empty (split (c ∷ s))

abbrev is_empty_text : Text → Bool
is_empty_text [] = true
is_empty_text (c ∷ s) = false

abbrev with_newline : Bool → List Text → Text
with_newline ends [] = []
with_newline false (l ∷ ls) = join (l ∷ ls)
with_newline true (l ∷ ls) = join (l ∷ ls) ++ 10 ∷ []

unfoldable pub apply_file_hunks : Text → ParsedFilePatch → Result PatchError Text
unfolding apply_hunks
apply_file_hunks content file =
    let (base, ended) = base_lines content in
    apply_hunks base file.hunks (record {
      old_index = 0;
      output = [];
      previous_kind = unset;
      ends_with_newline = if is_empty_text content then true else ended;
    })
    >>= λ (p : Progress). ok (with_newline p.ends_with_newline (p.output ++ drop p.old_index base))
