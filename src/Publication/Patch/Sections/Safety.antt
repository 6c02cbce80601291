-- ===== src/Publication/Patch/Sections/Safety.antt =====
-- Which paths a file that is read from a patch can have.
use coder_er.Base.{
  ◌≡◌, refl, ap, subst, Bool, true, false, not, ◌&&◌, ◌||◌, List, [], ◌∷◌, Text, codes, contains,
  ◌==◌, nat_equality, list_equality, Option, none, some, Result, ok, err, >>=-eq-ok,
  throw_if-passed, if◌then◌else◌, drop, starts_with,
}
use coder_er.Publication.Patch.{ParsedFilePatch}
use coder_er.Publication.Patch.Paths.{segments, normalize_patch_path}
use coder_er.Publication.Patch.Paths.Guards.{normalize_patch_path-no_parent}
use coder_er.Publication.Patch.Hunks.{starts_file, starts_hunk, between, read_hunks}
use coder_er.Publication.Patch.Sections.{
  SectionError, Heading, path_after, side_after, heading_line, heading_lines, is_usable, renamed,
  old_side, new_side, without_prefix, effective_path, change_of, in_section, has_no_hunks,
  read_body, read_section, read_file, no_usable_path, no_hunks, bad_path, bad_hunk,
}

-- Null, or a path without a segment `..`.
abbrev pub IsInside : Option Text → Type 0
IsInside none = Unit
IsInside (some path) = contains (segments path) (codes "..") ≡ false

abbrev IsInsideHeading : Heading → Type 0
IsInsideHeading h =
    IsInside h.old_path × IsInside h.new_path × IsInside h.rename_from × IsInside h.rename_to

path_after-IsInside :
    (test : Bool) (value : Text) (kept : Option Text) {q : Option Text}
    → path_after test value kept ≡ ok q
    → IsInside kept
    → IsInside q
unfolding path_after
path_after-IsInside false value kept {q} h inside =
    let same : kept ≡ q = cc in subst IsInside same inside
path_after-IsInside true value kept {q} h inside =
    let (path, accepted, done) = >>=-eq-ok (normalize_patch_path value) _ h in
    let same : some path ≡ q = cc in
    subst IsInside same (normalize_patch_path-no_parent value path accepted)

chosen {ℓ κ μ} :
    {E : Type ℓ} {A : Type κ} (P : A → Type μ) (test : Bool) (a : A) {m : Result E A} {q : A}
    → (if test then ok a else m) ≡ ok q
    → P a
    → (m ≡ ok q → P q)
    → P q
chosen P true a {q = q} h here next = let same : a ≡ q = cc in subst P same here
chosen P false a h here next = next h

side_after-IsInside :
    (test : Bool) (value : Text) (kept : Option Text) {q : Option Text}
    → side_after test value kept ≡ ok q
    → IsInside kept
    → IsInside q
unfolding side_after
side_after-IsInside test value kept h inside =
    chosen IsInside (test && value == codes "/dev/null") none h tt
      λ e. path_after-IsInside test value kept e inside

heading_line-IsInside :
    (l : Text) (h : Heading) {next : Heading}
    → heading_line l h ≡ ok next
    → IsInsideHeading h
    → IsInsideHeading next
unfolding heading_line
heading_line-IsInside l h {next} e (old, new, from, to) =
    let is_from = starts_with l (codes "rename from ") in
    let is_to = starts_with l (codes "rename to ") in
    let is_old = starts_with l (codes "--- ") in
    let is_new = starts_with l (codes "+++ ") in
    let old_value = without_prefix (drop 4 l) (codes "a/") in
    let new_value = without_prefix (drop 4 l) (codes "b/") in
    let (rename_from, e1, f1) = >>=-eq-ok (path_after is_from (drop 12 l) h.rename_from) _ e in
    let (rename_to, e2, f2) = >>=-eq-ok (path_after is_to (drop 10 l) h.rename_to) _ f1 in
    let (old_path, e3, f3) = >>=-eq-ok (side_after is_old old_value h.old_path) _ f2 in
    let (new_path, e4, f4) = >>=-eq-ok (side_after is_new new_value h.new_path) _ f3 in
    let same : record {
      old_path = old_path;
      new_path = new_path;
      new_file = h.new_file || starts_with l (codes "new file mode ");
      deleted_file = h.deleted_file || starts_with l (codes "deleted file mode ");
      rename_from = rename_from;
      rename_to = rename_to;
    }
        ≡ next =
      cc in
    subst IsInsideHeading same (
      side_after-IsInside is_old old_value h.old_path e3 old,
      side_after-IsInside is_new new_value h.new_path e4 new,
      path_after-IsInside is_from (drop 12 l) h.rename_from e1 from,
      path_after-IsInside is_to (drop 10 l) h.rename_to e2 to,
    )

heading_lines-IsInside :
    (h : Heading) (ls : List Text) {r : Heading × List Text}
    → heading_lines h ls ≡ ok r
    → IsInsideHeading h
    → IsInsideHeading r.0
unfolding heading_lines
heading_lines-IsInside h [] {r} e inside =
    let same : (h, []) ≡ r = cc in
    subst (λ (x : Heading × List Text). IsInsideHeading x.0) same inside
heading_lines-IsInside h (l ∷ ls) {r} e inside =
    chosen (λ (x : Heading × List Text). IsInsideHeading x.0) (starts_hunk l || starts_file l)
      (h, l ∷ ls) e inside
      λ more.
        let (next, e1, e2) = >>=-eq-ok (heading_line l h) _ more in
        heading_lines-IsInside next ls e2 (heading_line-IsInside l h e1 inside)

in_section-ok {ℓ} :
    {E A : Type ℓ} (f : E → SectionError) (r : Result E A) {a : A}
    → in_section f r ≡ ok a
    → r ≡ ok a
in_section-ok f (ok value) h = ap ok cc
in_section-ok f (err e) h = cc

either-IsInside :
    (test : Bool) (p q : Option Text) → IsInside p → IsInside q → IsInside (if test then p else q)
either-IsInside true p q hp hq = hp
either-IsInside false p q hp hq = hq

-- Both paths are null or without a segment `..`, and one can be used.
abbrev pub IsInsideFile : ParsedFilePatch × List Text → Type 0
IsInsideFile r =
    IsInside r.0.old_path
    × IsInside r.0.new_path
    × (is_usable (effective_path r.0.new_path r.0.old_path) ≡ true)

not-false : (b : Bool) → not b ≡ false → b ≡ true
not-false true h = refl
not-false false h = cc

read_body-IsInside :
    (h : Heading) (ls : List Text) {r : ParsedFilePatch × List Text}
    → read_body h ls ≡ ok r
    → IsInsideHeading h
    → IsInsideFile r
unfolding read_body
read_body-IsInside h ls {r} e (old, new, from, to) =
    let (usable, e1) =
      throw_if-passed (not (is_usable (effective_path (new_side h) (old_side h)))) no_usable_path _
        e in
    let (found, e2, e3) = >>=-eq-ok (in_section bad_hunk (read_hunks between ls)) _ e1 in
    let (_, e4) =
      throw_if-passed (has_no_hunks found.0 && not (is_usable h.rename_from)) no_hunks _ e3 in
    let same : (
      record {
        old_path = old_side h;
        new_path = new_side h;
        change_type = change_of (old_side h) (new_side h) (is_usable h.rename_from);
        hunks = found.0;
      },
      found.1,
    )
        ≡ r =
      cc in
    subst IsInsideFile same (
      either-IsInside h.new_file none (renamed h.rename_from h.old_path) tt
          (either-IsInside (is_usable h.rename_from) h.rename_from h.old_path from old),
      either-IsInside h.deleted_file none (renamed h.rename_to h.new_path) tt
          (either-IsInside (is_usable h.rename_to) h.rename_to h.new_path to new),
      not-false (is_usable (effective_path (new_side h) (old_side h))) usable,
    )

read_section-IsInside :
    (names : Option (Text × Text)) (ls : List Text) {r : ParsedFilePatch × List Text}
    → read_section names ls ≡ ok r
    → IsInsideFile r
unfolding read_section
read_section-IsInside none ls e = cc
read_section-IsInside (some (a, b)) ls e =
    let (old_path, e1, f1) = >>=-eq-ok (in_section bad_path (normalize_patch_path a)) _ e in
    let (new_path, e2, f2) = >>=-eq-ok (in_section bad_path (normalize_patch_path b)) _ f1 in
    let h : Heading = record {
      old_path = some old_path;
      new_path = some new_path;
      new_file = false;
      deleted_file = false;
      rename_from = none;
      rename_to = none;
    } in
    let (head, e3, f3) = >>=-eq-ok (in_section bad_path (heading_lines h ls)) _ f2 in
    read_body-IsInside head.0 head.1 f3 (
      heading_lines-IsInside h ls (in_section-ok bad_path _ e3) (
        normalize_patch_path-no_parent a old_path (in_section-ok bad_path _ e1),
        normalize_patch_path-no_parent b new_path (in_section-ok bad_path _ e2),
        tt,
        tt,
      ))

-- A file that is read from a patch has a path that is not empty, and neither its old nor its new
-- path has a segment `..`, also where lines of a rename or `---` and `+++` name them.
pub read_file-IsInside :
    (line : Text) (ls : List Text) (file : ParsedFilePatch) (rest : List Text)
    → read_file line ls ≡ ok (file, rest)
    → IsInside file.old_path
      × IsInside file.new_path
      × (is_usable (effective_path file.new_path file.old_path) ≡ true)
unfolding read_file
read_file-IsInside line ls file rest h = read_section-IsInside _ ls h
